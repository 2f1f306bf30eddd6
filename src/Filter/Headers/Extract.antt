-- ===== src/Filter/Headers/Extract.antt =====
-- `extract_header` of filter.rs never panics for the names that the filter asks for.
use mailserver.Prelude.{
  ℕ, ◌<◌, ◌+◌, ◌-◌, ◌≡◌, ◌≢◌, refl, true, false, Option, none, some, List, [], ◌∷◌, ◌++◌, All,
  arith, Bool-cases, inl, inr, Text, codes, byte_len, len_utf8, is_empty, split_bytes, starts_with,
  strip_prefix, trim, lines,
}
use mailserver.Filter.Headers.{to_lowercase, extract_from, extract_header}

-- A name of ASCII letters and signs without the letter k, for which alone another character stands
-- in lower case.
abbrev pub IsPlainName : Text → Type 0
IsPlainName = All (λ c. (c < 0x80) × (c ≢ b'k') × (c ≢ b'K'))

abbrev Splits : ℕ → Text → Type 0
Splits n s = (a : Text) × (b : Text) × (split_bytes n s ≡ some (a, b))

Splits-cons : (n c : ℕ) (s : Text) → c < 0x80 → Splits n s → Splits (1 + n) (c ∷ s)
unfolding split_bytes len_utf8
Splits-cons n c s small (a, b, e) =
    let one : len_utf8 c ≡ 1 = ground arith in
    let place : 1 + n - 1 ≡ n = omega arith in
    (c ∷ a, b, rw (split_bytes, one, place, e) (ground arith))

split_bytes-zero : (s : Text) → split_bytes 0 s ≡ some ([], s)
unfolding split_bytes
split_bytes-zero [] = refl
split_bytes-zero (c ∷ s) = refl

-- The lower case of a plain name and the colon have no combining dot.
no_dot :
    (name t : Text)
    → IsPlainName name
    → starts_with (to_lowercase name ++ codes ":") (0x307 ∷ t) ≡ false
unfolding starts_with strip_prefix to_lowercase
no_dot [] t h = refl
no_dot (x ∷ name) t (p, h) = ground (arith, p)

first-match :
    (x c : ℕ) (name line : Text)
    → IsPlainName (x ∷ name)
    → starts_with (to_lowercase (x ∷ name) ++ codes ":") (to_lowercase (c ∷ line)) ≡ true
    → (c < 0x80) × (starts_with (to_lowercase name ++ codes ":") (to_lowercase line) ≡ true)
unfolding starts_with strip_prefix to_lowercase
first-match x c name line (p, h) e = ground (arith, e, no_dot name (to_lowercase line) h)

starts_with-Splits :
    (name line : Text)
    → IsPlainName name
    → starts_with (to_lowercase name ++ codes ":") (to_lowercase line) ≡ true
    → Splits (byte_len name + 1) line
unfolding starts_with strip_prefix to_lowercase byte_len len_utf8
starts_with-Splits [] [] h e = absurd (ground (arith, e))
starts_with-Splits [] (c ∷ line) h e =
    let small : c < 0x80 = ground (arith, e) in
    Splits-cons 0 c line small ([], line, split_bytes-zero line)
starts_with-Splits (x ∷ name) [] h e = absurd (ground (arith, e))
starts_with-Splits (x ∷ name) (c ∷ line) (p, h) e =
    let (small, more) = first-match x c name line (p, h) e in
    let rest = starts_with-Splits name line h more in
    let place : len_utf8 x + byte_len name + 1 ≡ 1 + (byte_len name + 1) = ground (arith, p) in
    rw place (Splits-cons (byte_len name + 1) c line small rest)

extract_from-total :
    (name : Text) (ls : List Text)
    → IsPlainName name
    → (r : Option Text) × (extract_from name ls ≡ some r)
unfolding extract_from
extract_from-total name [] h = (none, refl)
extract_from-total name (line ∷ ls) h = elim (Bool-cases (is_empty line)) [
  | inl blank ↦ (none, rw (extract_from, blank) refl)
  | inr filled ↦
      elim (Bool-cases (starts_with (to_lowercase name ++ codes ":") (to_lowercase line))) [
        | inl hit ↦
            let (a, b, e) = starts_with-Splits name line h hit in
            (some (trim b), rw (extract_from, filled, hit, e) refl)
        | inr other ↦
            let (r, e) = extract_from-total name ls h in
            (r, rw (extract_from, filled, other, e) refl)
      ]
]

-- Reading a header never panics for an ASCII name without the letter k, whatever the mail is.
pub extract_header-total :
    (email name : Text)
    → IsPlainName name
    → (r : Option Text) × (extract_header email name ≡ some r)
unfolding extract_header
extract_header-total email name h = extract_from-total name (lines email) h
