-- ===== src/Prelude/Pieces.antt =====
-- The laws of the operations that take a text apart at a character.
use Prim.Native.Nat.{ℕ}
use mathlib.Core.Path.{◌≡◌, refl}
use mathlib.Core.Logic.{inl, inr, ◌↔◌, ◌⊎◌}
use mathlib.Core.Bool.{Bool, true, ◌||◌}
use mathlib.Core.Option.{none, some}
use mathlib.Core.List.{[], ◌∷◌, ◌++◌}
use native.Mathlib.Omega.{arith}
use mailserver.Prelude.Tests.{◌==◌, ==_iff, Bool-cases, Option-cases}
use mailserver.Prelude.Strings.{
  Text, contains_char, split_once, rsplit_once, strip_prefix, starts_with,
}
use mailserver.Prelude.TextLaws.{Lacks}

pub split_once-joins :
    (d : ℕ) (s a b : Text) → split_once d s ≡ some (a, b) → (s ≡ a ++ (d ∷ b)) × Lacks d a
unfolding split_once contains_char
split_once-joins d [] a b h = absurd (ground arith)
split_once-joins d (c ∷ s) a b h = elim (Bool-cases (c == d)) [
  | inl here ↦ let k = rw (split_once, here) at h in ground (arith, k, (==_iff c d).0 here)
  | inr other ↦ elim (Option-cases (split_once d s)) [
    | inl absent ↦ absurd (let k = rw (split_once, other, absent) at h in ground arith)
    | inr ((a', b'), e) ↦
        let k = rw (split_once, other, e) at h in
        ground (arith, k, other, split_once-joins d s a' b' e)
  ]
]

pub split_once-absent : (d : ℕ) (s : Text) → split_once d s ≡ none → Lacks d s
unfolding split_once contains_char
split_once-absent d [] h = refl
split_once-absent d (c ∷ s) h = elim (Bool-cases (c == d)) [
  | inl here ↦ absurd (let k = rw (split_once, here) at h in ground arith)
  | inr other ↦ elim (Option-cases (split_once d s)) [
    | inl absent ↦ rw other (split_once-absent d s absent)
    | inr ((a, b), e) ↦ absurd (let k = rw (split_once, other, e) at h in ground arith)
  ]
]

pub rsplit_once-absent : (d : ℕ) (s : Text) → rsplit_once d s ≡ none → Lacks d s
unfolding rsplit_once contains_char
rsplit_once-absent d [] h = refl
rsplit_once-absent d (c ∷ s) h = elim (Option-cases (rsplit_once d s)) [
  | inr ((a, b), e) ↦ absurd (let k = rw (rsplit_once, e) at h in ground arith)
  | inl absent ↦ elim (Bool-cases (c == d)) [
    | inl here ↦ absurd (let k = rw (rsplit_once, absent, here) at h in ground arith)
    | inr other ↦ rw other (rsplit_once-absent d s absent)
  ]
]

pub rsplit_once-joins :
    (d : ℕ) (s a b : Text) → rsplit_once d s ≡ some (a, b) → (s ≡ a ++ (d ∷ b)) × Lacks d b
unfolding rsplit_once
rsplit_once-joins d [] a b h = absurd (ground arith)
rsplit_once-joins d (c ∷ s) a b h = elim (Option-cases (rsplit_once d s)) [
  | inr ((a', b'), e) ↦
      let k = rw (rsplit_once, e) at h in ground (arith, k, rsplit_once-joins d s a' b' e)
  | inl absent ↦ elim (Bool-cases (c == d)) [
    | inr other ↦ absurd (let k = rw (rsplit_once, absent, other) at h in ground arith)
    | inl here ↦
        let k = rw (rsplit_once, absent, here) at h in
        ground (arith, k, (==_iff c d).0 here, rsplit_once-absent d s absent)
  ]
]

-- What it means to begin with a text.
abbrev pub Begins : Text → Text → Type 0
Begins p s = (rest : Text) × (s ≡ p ++ rest)

pub strip_prefix-joins : (p s rest : Text) → (strip_prefix p s ≡ some rest) ↔ (s ≡ p ++ rest)
unfolding strip_prefix
strip_prefix-joins [] s rest = ground arith
strip_prefix-joins (a ∷ p) [] rest = ground arith
strip_prefix-joins (a ∷ p) (c ∷ s) rest = ground (arith, strip_prefix-joins p s rest)

pub strip_prefix-Begins : (p s : Text) → (strip_prefix p s ≡ none) ↔ (¬ Begins p s)
strip_prefix-Begins p s = elim (Option-cases (strip_prefix p s)) [
  | inl absent ↦ (
    λ _. λ (rest, e).
        absurd (let k = (strip_prefix-joins p s rest).1 e in ground (arith, k, absent)),
    λ _. absent,
  )
  | inr (rest, e) ↦ (
    λ k. absurd (ground (arith, e, k)),
    λ k. absurd (k (rest, (strip_prefix-joins p s rest).0 e)),
  )
]

pub starts_with-Begins : (p s : Text) → (starts_with p s ≡ true) ↔ Begins p s
unfolding starts_with
starts_with-Begins p s = elim (Option-cases (strip_prefix p s)) [
  | inl absent ↦ (
    λ k. absurd (let l = rw (starts_with, absent) at k in ground arith),
    λ (rest, e). absurd (let k = (strip_prefix-joins p s rest).1 e in ground (arith, k, absent)),
  )
  | inr (rest, e) ↦ (λ k. (rest, (strip_prefix-joins p s rest).0 e), λ b. rw (starts_with, e) refl)
]

pub or_iff :
    {A B : Type 0} (a b : Bool) → (a ≡ true) ↔ A → (b ≡ true) ↔ B → ((a || b) ≡ true) ↔ (A ⊎ B)
or_iff a b (f, g) (f', g') = (
  λ h. elim (Bool-cases a) [
    | inl left ↦ inl (f left)
    | inr right ↦ inr (f' (ground (arith, h, right)))
  ],
  λ h. elim h [
    | inl x ↦ let k = g x in ground (arith, k)
    | inr y ↦ let k = g' y in ground (arith, k)
  ],
)
