-- ===== src/Prelude/TextLaws.antt =====
-- Laws of the operations on texts.
use mathlib.Core.Path.{◌≡◌, refl, sym, ap, ◌∙◌}
use mathlib.Core.Logic.{inl, inr}
use mathlib.Core.Bool.{false, ◌&&◌, ◌||◌}
use mathlib.Core.List.{List, [], ◌∷◌, ◌++◌}
use native.Mathlib.Omega.{arith}
use Prim.Native.Nat.{ℕ}
use mailserver.Prelude.Tests.{◌==◌, Bool-cases, ==_refl, ==_iff}
use mailserver.Prelude.Lists.{All}
use mailserver.Prelude.Strings.{Text, contains_char, split_char, cons_first, lines, is_newline_next}

-- The text has no such character.
abbrev pub Lacks : ℕ → Text → Type 0
Lacks c s = contains_char c s ≡ false

pub contains_char-append :
    (c : ℕ) (s t : Text) → contains_char c (s ++ t) ≡ (contains_char c s || contains_char c t)
unfolding contains_char
contains_char-append c [] t = refl
contains_char-append c (x ∷ s) t = ground (arith, contains_char-append c s t)

pub Lacks-append : (c : ℕ) (s t : Text) → Lacks c s → Lacks c t → Lacks c (s ++ t)
Lacks-append c s t h k = ground (arith, contains_char-append c s t)

pub Lacks-cons : (c x : ℕ) (s : Text) → Lacks c (x ∷ s) → ((x == c) ≡ false) × Lacks c s
unfolding contains_char
Lacks-cons c x s h = ground arith

-- A text with no separator is one piece; a text before a separator is the first piece.
pub split_char-Lacks : (d : ℕ) (s : Text) → Lacks d s → split_char d s ≡ s ∷ []
unfolding split_char
split_char-Lacks d [] h = refl
split_char-Lacks d (c ∷ s) h =
    let (differs, rest) = Lacks-cons d c s h in rw (differs, split_char-Lacks d s rest) refl

pub split_char-append :
    (d : ℕ) (a b : Text) → Lacks d a → split_char d (a ++ d ∷ b) ≡ a ∷ split_char d b
unfolding split_char
split_char-append d [] b h = rw (==_refl d) refl
split_char-append d (c ∷ a) b h =
    let (differs, rest) = Lacks-cons d c a h in rw (differs, split_char-append d a b rest) refl

-- The pieces with the separator between them.
abbrev pub join : ℕ → List Text → Text
join d [] = []
join d (w ∷ []) = w
join d (w ∷ v ∷ ws) = w ++ d ∷ join d (v ∷ ws)

join-cons_first : (d c : ℕ) (ws : List Text) → join d (cons_first c ws) ≡ c ∷ join d ws
join-cons_first d c [] = refl
join-cons_first d c (w ∷ []) = refl
join-cons_first d c (w ∷ v ∷ ws) = refl

join-nil : (d : ℕ) (w : Text) (ws : List Text) → join d ([] ∷ w ∷ ws) ≡ d ∷ join d (w ∷ ws)
join-nil d w ws = refl

pub split_char-ne : (d : ℕ) (s : Text) → (w : Text) × (ws : List Text) × (split_char d s ≡ w ∷ ws)
unfolding split_char
split_char-ne d [] = ([], [], refl)
split_char-ne d (c ∷ s) =
    let (w, ws, e) = split_char-ne d s in
    elim (Bool-cases (c == d)) [
      | inl same ↦ ([], split_char d s, rw same refl)
      | inr differs ↦ (c ∷ w, ws, rw (differs, e) refl)
    ]

pub join-split_char : (d : ℕ) (s : Text) → join d (split_char d s) ≡ s
unfolding split_char
join-split_char d [] = refl
join-split_char d (c ∷ s) =
    let (w, ws, e) = split_char-ne d s in
    elim (Bool-cases (c == d)) [
      | inl same ↦
          rw (same, e, (==_iff c d).0 same)
            (ap (λ t. d ∷ t) (ap (join d) (sym e) ∙ join-split_char d s))
      | inr differs ↦
          rw differs (join-cons_first d c (split_char d s) ∙ ap (λ t. c ∷ t) (join-split_char d s))
    ]

cons_first-All-Lacks :
    (d c : ℕ) (ws : List Text)
    → (c == d) ≡ false
    → All (Lacks d) ws
    → All (Lacks d) (cons_first c ws)
unfolding contains_char
cons_first-All-Lacks d c [] h v = (rw h refl, tt)
cons_first-All-Lacks d c (w ∷ ws) h (p, v) = (rw h p, v)

pub split_char-All-Lacks : (d : ℕ) (s : Text) → All (Lacks d) (split_char d s)
unfolding split_char contains_char
split_char-All-Lacks d [] = (refl, tt)
split_char-All-Lacks d (c ∷ s) = elim (Bool-cases (c == d)) [
  | inl same ↦ rw same (refl, split_char-All-Lacks d s)
  | inr differs ↦
      rw differs (cons_first-All-Lacks d c (split_char d s) differs (split_char-All-Lacks d s))
]

pub lines-All-Lacks : (s : Text) → All (Lacks b'\n') (lines s)
unfolding lines contains_char
lines-All-Lacks [] = tt
lines-All-Lacks (c ∷ s) = elim (Bool-cases (c == b'\n')) [
  | inl ends ↦ rw ends (refl, lines-All-Lacks s)
  | inr stays ↦ elim (Bool-cases (c == b'\r' && is_newline_next s)) [
    | inl dropped ↦ rw (stays, dropped) (lines-All-Lacks s)
    | inr kept ↦ rw (stays, kept) (cons_first-All-Lacks b'\n' c (lines s) stays (lines-All-Lacks s))
  ]
]
