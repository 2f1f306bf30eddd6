-- ===== src/Provision/Paths.antt =====
-- validate_remote_path of provision.rs. The test of bytes is one of characters here: a character
-- outside ASCII has no byte that passes.
use mathlib.Core.List.{append_assoc, append-nil}
use mailserver.Prelude.{
  ℕ, ◌≡◌, refl, inl, inr, Bool, true, false, ◌||◌, Option, none, some, List, [], ◌∷◌, ◌++◌, ◌==◌,
  if◌then◌else◌, Text, codes, is_ascii_alphanumeric, is_empty, all, contains, split_char, text_eq,
  arith, Bool-cases, ==_iff, ap, ◌∙◌, sym, eq_of_text_eq, All, &&-eq-true, split_char-ne,
  strip_prefix, split_at,
}
use mailserver.Provision.Shell.Laws.{between, word, words, is_plain}

pub data PathError : Type 0 where
  empty_path outside_allowlist parent_segment : PathError

abbrev pub is_path_char : ℕ → Bool
is_path_char c =
    is_ascii_alphanumeric c || c == b'.' || c == b'_' || c == b'/' || c == b'+' || c == b'-'

unfoldable pub validate_remote_path : Text → Option PathError
validate_remote_path path =
    if is_empty path
    then some empty_path
    else if all is_path_char path
    then if contains (codes "..") path then some parent_segment else none
    else some outside_allowlist

plain_of_path :
    (c : ℕ)
    → is_path_char c ≡ true
    → (is_plain c ≡ true) × ((c == b' ') ≡ false) × ((c == b'\'') ≡ false) × ((c == b'\\') ≡ false)
unfolding is_plain is_ascii_alphanumeric
plain_of_path c h = ground arith

word-path :
    (w path : Text) → all is_path_char path ≡ true → words (word w) path ≡ some ((w ++ path) ∷ [])
unfolding words
word-path w [] h = ap (λ v. some (v ∷ [])) (sym (append-nil w))
word-path w (c ∷ path) h =
    let (first, rest) = &&-eq-true (is_path_char c) (all is_path_char path) h in
    let (plain, a, b, d) = plain_of_path c first in
    rw (words, a, b, d, plain)
      (word-path (w ++ c ∷ []) path rest ∙ ap (λ v. some (v ∷ [])) (append_assoc w (c ∷ []) path))

path-word :
    (path : Text)
    → is_empty path ≡ false
    → all is_path_char path ≡ true
    → words between path ≡ some (path ∷ [])
unfolding words is_empty
path-word [] h k = ground arith
path-word (c ∷ path) h k =
    let (first, rest) = &&-eq-true (is_path_char c) (all is_path_char path) k in
    let (plain, a, b, d) = plain_of_path c first in
    rw (words, a, b, d, plain) (word-path (c ∷ []) path rest)

-- A segment of two dots starts with two dots, which the text then holds.
abbrev pub IsNoParent : Text → Type 0
IsNoParent w = text_eq w (codes "..") ≡ false

contains-tail :
    (c : ℕ) (s : Text) → contains (codes "..") (c ∷ s) ≡ false → contains (codes "..") s ≡ false
unfolding contains split_at strip_prefix
contains-tail c s h = ground arith

contains-dots : (s : Text) → contains (codes "..") (b'.' ∷ b'.' ∷ s) ≡ true
unfolding contains split_at strip_prefix
contains-dots s = refl

first_piece :
    (s w : Text) (ws : List Text)
    → split_char b'/' s ≡ w ∷ ws
    → text_eq w (codes ".") ≡ true
    → (rest : Text) × (s ≡ b'.' ∷ rest)
unfolding split_char text_eq
first_piece [] w ws e h = absurd (ground arith)
first_piece (c ∷ s) w ws e h =
    let (v, vs, split) = split_char-ne b'/' s in
    elim (Bool-cases (c == b'/')) [
      | inl slash ↦ absurd (let k = rw (split_char, slash) at e in ground arith)
      | inr other ↦
          let k = rw (split_char, other, split) at e in
          let dot : c ≡ b'.' = ground (arith, eq_of_text_eq w (codes ".") h, k) in (s, rw dot refl)
    ]

segments-IsNoParent :
    (s : Text) → contains (codes "..") s ≡ false → All IsNoParent (split_char b'/' s)
unfolding split_char text_eq
segments-IsNoParent [] h = (refl, tt)
segments-IsNoParent (c ∷ s) h =
    let ih = segments-IsNoParent s (contains-tail c s h) in
    let (w, ws, split) = split_char-ne b'/' s in
    elim (Bool-cases (c == b'/')) [
      | inl slash ↦ rw (split_char, slash) (refl, ih)
      | inr other ↦
          let (first, others) = rw split at ih in
          rw (split_char, other, split)
            (elim (Bool-cases (text_eq (c ∷ w) (codes ".."))) [
              | inr differs ↦ (differs, others)
              | inl dots ↦
                  let (is_dot, last_dot) = &&-eq-true (c == b'.') (text_eq w (codes ".")) dots in
                  let (rest, e) = first_piece s w ws split last_dot in
                  let k = rw ((==_iff c b'.').0 is_dot, e) at h in
                  absurd (let two = contains-dots rest in cc)
            ])
    ]

-- A path that passes is one word to a shell even without quotes, and none of its segments leads to a
-- parent directory.
pub validate_remote_path-IsSafe :
    (path : Text)
    → validate_remote_path path ≡ none
    → (words between path ≡ some (path ∷ [])) × All IsNoParent (split_char b'/' path)
unfolding validate_remote_path
validate_remote_path-IsSafe path h =
    let named : is_empty path ≡ false = ground arith in
    let allowed : all is_path_char path ≡ true = ground arith in
    let no_parent : contains (codes "..") path ≡ false = ground arith in
    (path-word path named allowed, segments-IsNoParent path no_parent)
