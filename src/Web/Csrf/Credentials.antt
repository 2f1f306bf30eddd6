-- ===== src/Web/Csrf/Credentials.antt =====
-- The credentials in the Authorization header that `has_basic_or_bearer_auth` of web/mod.rs finds.
use mailserver.Prelude.{
  ℕ, ◌≤◌, ◌≡◌, refl, subst, ap, ◌∙◌, ◌↔◌, ◌⊎◌, true, false, Option, none, some, [], ◌∷◌, ◌++◌,
  arith, Bool-cases, inl, inr, All, Text, codes, or_iff, text_eq_iff, trim_start, is_whitespace,
  to_ascii_lowercase, ascii_lower, is_ascii_uppercase,
}
use mailserver.Web.Csrf.{first_word, is_auth_scheme, has_basic_or_bearer_auth}

-- Credentials for Basic or Bearer: the first word of the header is one of the two, in any case of
-- letters.
abbrev pub IsBlank : ℕ → Type 0
IsBlank c = is_whitespace c ≡ true

abbrev pub EndsWord : Text → Type 0
EndsWord rest = (rest ≡ []) ⊎ ((c : ℕ) × (more : Text) × (rest ≡ c ∷ more) × IsBlank c)

abbrev pub IsCredentials : Text → Type 0
IsCredentials v =
    (spaces : Text) × (scheme : Text) × (rest : Text) × (v ≡ spaces ++ (scheme ++ rest))
    × All IsBlank spaces
    × ((to_ascii_lowercase scheme ≡ codes "basic") ⊎ (to_ascii_lowercase scheme ≡ codes "bearer"))
    × EndsWord rest

abbrev pub HasCredentials : Option Text → Type 0
HasCredentials authorization = (v : Text) × (authorization ≡ some v) × IsCredentials v

trim_start-joins : (s : Text) → (spaces : Text) × (s ≡ spaces ++ trim_start s) × All IsBlank spaces
unfolding trim_start
trim_start-joins [] = ([], refl, tt)
trim_start-joins (c ∷ s) = elim (Bool-cases (is_whitespace c)) [
  | inl blank ↦
      let (spaces, e, all_blank) = trim_start-joins s in
      rw blank (c ∷ spaces, ap (λ t. c ∷ t) e, (blank, all_blank))
  | inr solid ↦ rw solid ([], refl, tt)
]

first_word-joins : (s : Text) → (rest : Text) × (s ≡ first_word s ++ rest) × EndsWord rest
unfolding first_word
first_word-joins [] = ([], refl, inl refl)
first_word-joins (c ∷ s) = elim (Bool-cases (is_whitespace c)) [
  | inl blank ↦ rw blank (c ∷ s, refl, inr (c, s, refl, blank))
  | inr solid ↦ let (rest, e, ends) = first_word-joins s in rw solid (rest, ap (λ t. c ∷ t) e, ends)
]

trim_start-spaces : (spaces s : Text) → All IsBlank spaces → trim_start (spaces ++ s) ≡ trim_start s
unfolding trim_start
trim_start-spaces [] s h = refl
trim_start-spaces (c ∷ spaces) s (b, h) = rw b (trim_start-spaces spaces s h)

abbrev IsSolid : ℕ → Type 0
IsSolid c = is_whitespace c ≡ false

first_word-solid : (w rest : Text) → All IsSolid w → EndsWord rest → first_word (w ++ rest) ≡ w
unfolding first_word
first_word-solid [] rest h (inl e) = rw e refl
first_word-solid [] rest h (inr (c, more, e, blank)) = rw (e, first_word, blank) refl
first_word-solid (c ∷ w) rest (s, h) ends = rw s (ap (λ t. c ∷ t) (first_word-solid w rest h ends))

lower-IsSolid : (c d : ℕ) → ascii_lower c ≡ d → (97 ≤ d) × (d ≤ 122) → IsSolid c
unfolding ascii_lower is_whitespace is_ascii_uppercase
lower-IsSolid c d e h = ground (arith, e, h)

word-IsSolid :
    (w target : Text)
    → to_ascii_lowercase w ≡ target
    → All (λ d. (97 ≤ d) × (d ≤ 122)) target
    → All IsSolid w
unfolding to_ascii_lowercase
word-IsSolid [] target e h = tt
word-IsSolid (c ∷ w) [] e h = absurd (ground (arith, e))
word-IsSolid (c ∷ w) (d ∷ target) e (k, h) =
    (lower-IsSolid c d (ground (arith, e)) k, word-IsSolid w target (ground (arith, e)) h)

trim_start-word :
    (w rest target : Text) (d : ℕ)
    → to_ascii_lowercase w ≡ d ∷ target
    → All IsSolid w
    → trim_start (w ++ rest) ≡ w ++ rest
unfolding trim_start to_ascii_lowercase
trim_start-word [] rest target d e h = absurd (ground (arith, e))
trim_start-word (c ∷ w) rest target d e (s, h) = rw s refl

words_of :
    (w rest spaces target : Text) (d : ℕ)
    → to_ascii_lowercase w ≡ d ∷ target
    → All IsSolid w
    → All IsBlank spaces
    → EndsWord rest
    → first_word (trim_start (spaces ++ (w ++ rest))) ≡ w
words_of w rest spaces target d e solid blank ends =
    rw (trim_start-spaces spaces (w ++ rest) blank, trim_start-word w rest target d e solid)
      (first_word-solid w rest solid ends)

pub is_auth_scheme-IsCredentials : (v : Text) → (is_auth_scheme v ≡ true) ↔ IsCredentials v
unfolding is_auth_scheme
is_auth_scheme-IsCredentials v =
    let w = first_word (trim_start v) in
    let b = text_eq_iff (to_ascii_lowercase w) (codes "basic") in
    let r = text_eq_iff (to_ascii_lowercase w) (codes "bearer") in
    (
      λ h.
          let (spaces, e, blank) = trim_start-joins v in
          let (rest, e', ends) = first_word-joins (trim_start v) in
          (spaces, w, rest, e ∙ ap (λ t. spaces ++ t) e', blank, (or_iff _ _ b r).0 h, ends),
      λ (spaces, scheme, rest, e, blank, name, ends). elim name [
        | inl basic ↦
            let solid = word-IsSolid scheme (codes "basic") basic (ground arith) in
            let same : w ≡ scheme = rw e (words_of scheme rest spaces _ _ basic solid blank ends) in
            (or_iff _ _ b r).1 (inl (rw same basic))
        | inr bearer ↦
            let solid = word-IsSolid scheme (codes "bearer") bearer (ground arith) in
            let same : w ≡ scheme =
              rw e (words_of scheme rest spaces _ _ bearer solid blank ends) in
            (or_iff _ _ b r).1 (inr (rw same bearer))
      ],
    )

pub authorization-HasCredentials :
    (authorization : Option Text)
    → (has_basic_or_bearer_auth authorization ≡ true) ↔ HasCredentials authorization
unfolding has_basic_or_bearer_auth
authorization-HasCredentials none =
    ((λ h. absurd (ground arith)), (λ (v, e, _). absurd (ground (arith, e))))
authorization-HasCredentials (some v) = (
  λ h. (v, refl, (is_auth_scheme-IsCredentials v).0 h),
  λ (w, e, h).
      let eq : w ≡ v = ground (arith, e) in
      (is_auth_scheme-IsCredentials v).1 (subst (λ x. IsCredentials x) eq h),
)
