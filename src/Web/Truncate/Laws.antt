-- ===== src/Web/Truncate/Laws.antt =====
-- `truncate_utf8` of web/mod.rs cuts a text at a place between characters, as late as fits.
use mathlib.Core.List.{append-nil}
use mailserver.Prelude.{
  sym, ==_iff, ℕ, zero, suc, ◌+◌, ◌-◌, ◌≤◌, ◌≡◌, refl, ap, false, none, some, [], ◌∷◌, ◌++◌, leb,
  ◌==◌, ltb, arith, Bool-cases, Option-cases, inl, inr, Text, byte_len, len_utf8, split_bytes,
}
use mailserver.Web.Truncate.{back_to_boundary, truncate_utf8}

split_bytes-zero : (s : Text) → split_bytes 0 s ≡ some ([], s)
unfolding split_bytes
split_bytes-zero [] = refl
split_bytes-zero (c ∷ s) = refl

-- The part before a place is as long as the place says.
split_bytes-joins :
    (n : ℕ) (s a b : Text) → split_bytes n s ≡ some (a, b) → (s ≡ a ++ b) × (byte_len a ≡ n)
unfolding split_bytes byte_len len_utf8
split_bytes-joins n [] a b e = ground (arith, e)
split_bytes-joins n (c ∷ s) a b e = elim (Bool-cases (n == 0)) [
  | inl start ↦ ground (arith, rw (split_bytes, start) at e)
  | inr later ↦ elim (Bool-cases (ltb n (len_utf8 c))) [
    | inl inside ↦ absurd (ground (arith, rw (split_bytes, later, inside) at e))
    | inr behind ↦ elim (Option-cases (split_bytes (n - len_utf8 c) s)) [
      | inl nowhere ↦ absurd (ground (arith, rw (split_bytes, later, behind, nowhere) at e))
      | inr ((a', b'), found) ↦
          let ih = split_bytes-joins (n - len_utf8 c) s a' b' found in
          ground (arith, rw (split_bytes, later, behind, found) at e, ih)
    ]
  ]
]

-- Every place after a whole number of characters is a boundary.
boundary : (a b : Text) → split_bytes (byte_len a) (a ++ b) ≡ some (a, b)
unfolding split_bytes byte_len len_utf8
boundary [] b = split_bytes-zero b
boundary (c ∷ a) b =
    let moved : (len_utf8 c + byte_len a == 0) ≡ false = ground arith in
    let reached : ltb (len_utf8 c + byte_len a) (len_utf8 c) ≡ false = ground arith in
    let place : len_utf8 c + byte_len a - len_utf8 c ≡ byte_len a = omega arith in
    rw (moved, reached, place, boundary a b) refl

pub byte_len-append : (a b : Text) → byte_len (a ++ b) ≡ byte_len a + byte_len b
unfolding byte_len
byte_len-append [] b = omega arith
byte_len-append (c ∷ a) b = omega (arith, byte_len-append a b)

back_at_boundary :
    (n : ℕ) (s a b : Text) → split_bytes (suc n) s ≡ some (a, b) → back_to_boundary (suc n) s ≡ a
unfolding back_to_boundary
back_at_boundary n s a b e = rw (e, back_to_boundary) refl

back_inside :
    (n : ℕ) (s : Text)
    → split_bytes (suc n) s ≡ none
    → back_to_boundary (suc n) s ≡ back_to_boundary n s
unfolding back_to_boundary
back_inside n s e = rw (e, back_to_boundary) refl

pub back_to_boundary-longest :
    (n : ℕ) (s a b : Text)
    → s ≡ a ++ b
    → byte_len a ≤ n
    → (rest : Text) × (s ≡ back_to_boundary n s ++ rest)
      × (byte_len (back_to_boundary n s) ≤ n)
      × (byte_len a ≤ byte_len (back_to_boundary n s))
unfolding byte_len back_to_boundary
back_to_boundary-longest zero s a b e h = (s, refl, omega arith, h)
back_to_boundary-longest (suc n) s a b e h = elim (Option-cases (split_bytes (suc n) s)) [
  | inr ((before, after), found) ↦
      let (joins, size) = split_bytes-joins (suc n) s before after found in
      rw (back_at_boundary n s before after found)
        (after, joins, omega (arith, size), omega (arith, size, h))
  | inl inside ↦ elim (Bool-cases (byte_len a == suc n)) [
    | inl full ↦ cc (boundary a b, inside, e, (==_iff (byte_len a) (suc n)).0 full)
    | inr short ↦
        let (rest, joins, fits, longest) =
          back_to_boundary-longest n s a b e (ground (arith, short, h)) in
        rw (back_inside n s inside) (rest, joins, omega (arith, fits), longest)
  ]
]

-- The result is a beginning of the text that fits the limit, and no beginning that fits is longer.
pub truncate_utf8-longest :
    (s a b : Text) (max_len : ℕ)
    → s ≡ a ++ b
    → byte_len a ≤ max_len
    → (rest : Text) × (s ≡ truncate_utf8 s max_len ++ rest)
      × (byte_len (truncate_utf8 s max_len) ≤ max_len)
      × (byte_len a ≤ byte_len (truncate_utf8 s max_len))
unfolding truncate_utf8
truncate_utf8-longest s a b max_len e h = elim (Bool-cases (leb (byte_len s) max_len)) [
  | inr long ↦ rw long (back_to_boundary-longest max_len s a b e h)
  | inl fits ↦ rw fits (
    [],
    sym (append-nil s),
    ground (arith, fits),
    omega (arith, ap byte_len e, byte_len-append a b),
  )
]
