-- ===== src/Auth/Secrets/Laws.antt =====
-- The comparison of secrets decides equality, and a one-time code is valid in three steps.
use Prim.Native.Nat.{bit_or, bit_xor}
use mathlib.Core.Path.{ap₂}
use mailserver.Prelude.{
  ℕ, zero, suc, ◌+◌, ◌-◌, ◌/◌, ◌^◌, ◌≤◌, ◌<◌, ◌≡◌, refl, ap, ◌↔◌, ◌⊎◌, inl, inr, Bool, true, not,
  ◌&&◌, ◌||◌, Option, none, some, List, [], ◌∷◌, ◌++◌, ◌==◌, ltb, length, All, arith, Text,
  text_eq_iff, Bool-cases, as_bytes, utf8_char,
}
use mailserver.Auth.Secrets.{
  gather_bits, constant_time_eq, verify_api_token, wrapping_add, totp_code, matches_step,
  verify_totp,
}

-- The test of every byte below a bound, from the top down.
unfoldable pub each_below : (ℕ → Bool) → ℕ → Bool
each_below test zero = true
each_below test (suc top) = each_below test top && test top

pub each_below_sound :
    (test : ℕ → Bool) (top b : ℕ) → b < top → each_below test top ≡ true → test b ≡ true
unfolding each_below
each_below_sound test zero b lt all_hold = absurd (omega arith)
each_below_sound test (suc top) b lt all_hold = ground (arith, each_below_sound test top b)

abbrev same : Bool → Bool → Bool
same a b = (a && b) || (not a && not b)

abbrev xor_fits : ℕ → ℕ → Bool
xor_fits x y = ltb (bit_xor x y) 256 && same (bit_xor x y == 0) (x == y)

abbrev or_fits : ℕ → ℕ → Bool
or_fits x y = ltb (bit_or x y) 256 && same (bit_or x y == 0) (x == 0 && y == 0)

xor_table : each_below (λ x. each_below (xor_fits x) 256) 256 ≡ true
unfolding each_below
xor_table = refl

or_table : each_below (λ x. each_below (or_fits x) 256) 256 ≡ true
unfolding each_below
or_table = refl

xor_byte : (x y : ℕ) → x < 256 → y < 256 → (bit_xor x y < 256) × ((bit_xor x y ≡ 0) ↔ (x ≡ y))
xor_byte x y h k =
    ground (arith, each_below_sound (xor_fits x) 256 y k (each_below_sound _ 256 x h xor_table))

or_byte :
    (x y : ℕ) → x < 256 → y < 256 → (bit_or x y < 256) × ((bit_or x y ≡ 0) ↔ ((x ≡ 0) × (y ≡ 0)))
or_byte x y h k =
    ground (arith, each_below_sound (or_fits x) 256 y k (each_below_sound _ 256 x h or_table))

abbrev pub AreBytes : List ℕ → Type 0
AreBytes = All (λ b. b < 256)

gather_bits-zero_iff :
    (result : ℕ) (xs ys : List ℕ)
    → result < 256
    → AreBytes xs
    → AreBytes ys
    → length xs ≡ length ys
    → (gather_bits result xs ys ≡ 0) ↔ ((result ≡ 0) × (xs ≡ ys))
unfolding gather_bits
gather_bits-zero_iff result [] [] h hx hy e = ground arith
gather_bits-zero_iff result [] (y ∷ ys) h hx hy e = absurd (omega arith)
gather_bits-zero_iff result (x ∷ xs) [] h hx hy e = absurd (omega arith)
gather_bits-zero_iff result (x ∷ xs) (y ∷ ys) h (px, hx) (py, hy) e =
    let xor = xor_byte x y px py in
    let joined = or_byte result (bit_xor x y) h xor.0 in
    let ih =
      gather_bits-zero_iff (bit_or result (bit_xor x y)) xs ys joined.0 hx hy (omega arith) in
    ground (arith, xor, joined, ih)

-- The constant-time comparison of two lists of bytes accepts exactly the equal ones.
pub constant_time_eq_iff :
    (a b : List ℕ) → AreBytes a → AreBytes b → (constant_time_eq a b ≡ true) ↔ (a ≡ b)
unfolding constant_time_eq
constant_time_eq_iff a b ha hb = elim (Bool-cases (length a == length b)) [
  | inl e ↦
      let zero_iff = gather_bits-zero_iff 0 a b (omega arith) ha hb (ground arith) in
      ground (arith, zero_iff)
  | inr e ↦ (λ h. ground arith, λ h. absurd (ground (arith, ap length h)))
]

abbrev pub AreChars : Text → Type 0
AreChars = All (λ c. c < 0x110000)

as_bytes-AreBytes : (s : Text) → AreChars s → AreBytes (as_bytes s)
unfolding as_bytes
as_bytes-AreBytes [] h = tt
as_bytes-AreBytes (c ∷ s) (p, h) = ground (arith, as_bytes-AreBytes s h)

utf8_char_injective :
    (c d : ℕ) (r t : List ℕ)
    → c < 0x110000
    → d < 0x110000
    → utf8_char c ++ r ≡ utf8_char d ++ t
    → (c ≡ d) × (r ≡ t)
utf8_char_injective c d r t h k e = ground arith

as_bytes-injective : (s t : Text) → AreChars s → AreChars t → as_bytes s ≡ as_bytes t → s ≡ t
unfolding as_bytes
as_bytes-injective [] [] h k e = refl
as_bytes-injective [] (d ∷ t) h k e = ground arith
as_bytes-injective (c ∷ s) [] h k e = ground arith
as_bytes-injective (c ∷ s) (d ∷ t) (p, h) (q, k) e =
    let (same_char, rest) = utf8_char_injective c d (as_bytes s) (as_bytes t) p q e in
    ap₂ (λ x xs. x ∷ xs) same_char (as_bytes-injective s t h k rest)

abbrev pub StoredAreChars : Option Text → Type 0
StoredAreChars none = Unit
StoredAreChars (some s) = AreChars s

-- A bearer token, a text of characters as the stored one, is accepted exactly if a token is stored
-- and it is that token.
pub verify_api_token_iff :
    (stored : Option Text) (token : Text)
    → StoredAreChars stored
    → AreChars token
    → (verify_api_token stored token ≡ true) ↔ (stored ≡ some token)
unfolding verify_api_token
verify_api_token_iff none token h k = ((λ e. cc), (λ e. cc))
verify_api_token_iff (some s) token h k =
    let bytes =
      constant_time_eq_iff (as_bytes s) (as_bytes token) (as_bytes-AreBytes s h)
        (as_bytes-AreBytes token k) in
    (
      λ e. ap some (as_bytes-injective s token h k (bytes.0 e)),
      λ e. let q : s ≡ token = ground arith in bytes.1 (ap as_bytes q),
    )

neighbour_steps :
    (step : ℕ)
    → 1 ≤ step
    → step + 1 < 2 ^ 64
    → (wrapping_add step 0 ≡ step)
      × (wrapping_add step 1 ≡ step + 1)
      × (wrapping_add step 18446744073709551615 ≡ step - 1)
unfolding wrapping_add
neighbour_steps step h k = omega arith

-- With a readable secret and a clock in the range of 64 bits and past the first thirty seconds, a
-- one-time code is accepted exactly if it is the code of the
-- current thirty seconds, of the thirty before or of the thirty after.
pub verify_totp_iff :
    (hmac : List ℕ → ℕ → List ℕ) (secret : List ℕ) (now : ℕ) (code : Text)
    → 30 ≤ now
    → now < 2 ^ 64
    → (verify_totp hmac (some secret) (some now) code ≡ true) ↔ (
        (totp_code hmac secret (now / 30) ≡ code)
        ⊎ (totp_code hmac secret (now / 30 + 1) ≡ code)
        ⊎ (totp_code hmac secret (now / 30 - 1) ≡ code))
unfolding verify_totp matches_step
verify_totp_iff hmac secret now code h k =
    let (current, next, previous) = neighbour_steps (now / 30) (omega arith) (omega arith) in
    rw (current, next, previous)
      (ground (
        arith,
        text_eq_iff (totp_code hmac secret (now / 30)) code,
        text_eq_iff (totp_code hmac secret (now / 30 + 1)) code,
        text_eq_iff (totp_code hmac secret (now / 30 - 1)) code,
      ))
