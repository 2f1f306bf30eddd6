-- ===== src/Web/Outbound/Ranges.antt =====
-- Which addresses `ip_is_blocked` of web/mod.rs blocks.
use Prim.Native.Nat.{bit_and}
use mailserver.Prelude.{
  ℕ, ◌*◌, ◌/◌, ◌%◌, ◌^◌, ◌-◌, ◌≤◌, ◌<◌, ◌≡◌, refl, ◌↔◌, ◌⊎◌, Bool, true, not, ◌&&◌, ◌||◌, leb, ◌==◌,
  arith, Bool-cases, inl, inr,
}
use mailserver.Auth.Secrets.Laws.{each_below, each_below_sound}
use mailserver.Net.IpAddr.{IpAddr, v4, v6}
use mailserver.Web.Outbound.{second_octet, v4_is_blocked, v6_is_blocked, ip_is_blocked}

abbrev same : Bool → Bool → Bool
same a b = (a && b) || (not a && not b)

cgnat_table : each_below (λ o. same (bit_and o 0xc0 == 0x40) (leb 64 o && leb o 127)) 256 ≡ true
unfolding each_below
cgnat_table = refl

benchmark_table : each_below (λ o. same (bit_and o 0xfe == 0x12) (leb 18 o && leb o 19)) 256 ≡ true
unfolding each_below
benchmark_table = refl

-- The ranges, as first and last address.
abbrev pub IsIn : ℕ → ℕ → ℕ → Type 0
IsIn first last n = (first ≤ n) × (n ≤ last)

abbrev pub IsNonPublic : ℕ → Type 0
IsNonPublic n =
    (n ≡ 0)
    ⊎ IsIn 0x0a000000 0x0affffff n
    ⊎ IsIn 0x64400000 0x647fffff n
    ⊎ IsIn 0x7f000000 0x7fffffff n
    ⊎ IsIn 0xa9fe0000 0xa9feffff n
    ⊎ IsIn 0xac100000 0xac1fffff n
    ⊎ IsIn 0xc0a80000 0xc0a8ffff n
    ⊎ IsIn 0xc6120000 0xc613ffff n

v4_is_blocked_iff : (n : ℕ) → n < 2 ^ 32 → (v4_is_blocked n ≡ true) ↔ IsNonPublic n
unfolding v4_is_blocked
v4_is_blocked_iff n h =
    let cgnat =
      each_below_sound (λ o. same (bit_and o 0xc0 == 0x40) (leb 64 o && leb o 127)) 256
        (second_octet n) (omega arith) cgnat_table in
    let benchmark =
      each_below_sound (λ o. same (bit_and o 0xfe == 0x12) (leb 18 o && leb o 19)) 256
        (second_octet n) (omega arith) benchmark_table in
    ground (arith, cgnat, benchmark)

-- The first segments of unique local and of link-local addresses.
segment_table :
    each_below (λ s. same (bit_and s 0xfe00 == 0xfc00) (leb 0xfc00 s && leb s 0xfdff)) 65536 ≡ true
unfolding each_below
segment_table = refl

link_table :
    each_below (λ s. same (bit_and s 0xffc0 == 0xfe80) (leb 0xfe80 s && leb s 0xfebf)) 65536 ≡ true
unfolding each_below
link_table = refl

abbrev pub IsNonPublicV6 : ℕ → Type 0
IsNonPublicV6 n =
    (n ≡ 0)
    ⊎ (n ≡ 1)
    ⊎ ((n / 2 ^ 32 ≡ 0xffff) × IsNonPublic (n % 2 ^ 32))
    ⊎ IsIn (0xfc00 * 2 ^ 112) (0xfe00 * 2 ^ 112 - 1) n
    ⊎ IsIn (0xfe80 * 2 ^ 112) (0xfec0 * 2 ^ 112 - 1) n

abbrev segment : ℕ → ℕ
segment n = n / 2 ^ 112 % 65536

local_iff :
    (n : ℕ)
    → n < 2 ^ 128
    → ((bit_and (segment n) 0xfe00 == 0xfc00) ≡ true)
      ↔ IsIn (0xfc00 * 2 ^ 112) (0xfe00 * 2 ^ 112 - 1) n
local_iff n h =
    let row = each_below_sound _ 65536 (segment n) (omega arith) segment_table in
    ground (arith, row)

link_iff :
    (n : ℕ)
    → n < 2 ^ 128
    → ((bit_and (segment n) 0xffc0 == 0xfe80) ≡ true)
      ↔ IsIn (0xfe80 * 2 ^ 112) (0xfec0 * 2 ^ 112 - 1) n
link_iff n h =
    let row = each_below_sound _ 65536 (segment n) (omega arith) link_table in ground (arith, row)

v6_is_blocked_iff : (n : ℕ) → n < 2 ^ 128 → (v6_is_blocked n ≡ true) ↔ IsNonPublicV6 n
unfolding v6_is_blocked
v6_is_blocked_iff n h = elim (Bool-cases (n / 2 ^ 32 == 0xffff)) [
  | inl mapped ↦
      let v4_rules = v4_is_blocked_iff (n % 2 ^ 32) (omega arith) in
      rw (v6_is_blocked, mapped) (ground (arith, v4_rules, mapped))
  | inr other ↦ rw (v6_is_blocked, other) (ground (arith, local_iff n h, link_iff n h, other))
]

abbrev pub IsNonPublicAddr : IpAddr → Type 0
IsNonPublicAddr (v4 n) = IsNonPublic n
IsNonPublicAddr (v6 n) = IsNonPublicV6 n

abbrev pub IsAddr : IpAddr → Type 0
IsAddr (v4 n) = n < 2 ^ 32
IsAddr (v6 n) = n < 2 ^ 128

-- An address is blocked exactly if it is in one of the ranges that are not public, or stands for an
-- IPv4 address that is.
pub ip_is_blocked_iff : (ip : IpAddr) → IsAddr ip → (ip_is_blocked ip ≡ true) ↔ IsNonPublicAddr ip
unfolding ip_is_blocked
ip_is_blocked_iff (v4 n) h = v4_is_blocked_iff n h
ip_is_blocked_iff (v6 n) h = v6_is_blocked_iff n h
