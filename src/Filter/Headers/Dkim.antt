-- ===== src/Filter/Headers/Dkim.antt =====
-- What `strip_dkim_signatures` of filter.rs promises.
use mathlib.Core.List.{append_assoc}
use mailserver.Prelude.{
  ℕ, sym, ◌-◌, ◌+◌, Option-cases, ◌≤◌, ◌≡◌, refl, ap, ◌∙◌, Bool, true, false, ◌||◌, Option, none,
  some, List, [], ◌∷◌, ◌++◌, leb, ◌==◌, All, arith, Bool-cases, inl, inr, Text, codes, byte_len,
  is_empty, split_at, split_bytes, starts_with, to_ascii_lowercase, text_eq, is_ascii_uppercase,
  ascii_lower, strip_prefix, len_utf8, if◌then◌else◌, ◌<◌,
}
use mailserver.Filter.Headers.{
  eol_of, with_eol, split_from, is_continuation, is_dkim_line, next_skip, strip_lines, push_line,
  strip_dkim_signatures,
}

-- A header field: its first line and its folded lines.
pub record Field : Type 0 where
  pub first : Text
  pub folded : List Text

abbrev pub lines_of : List Field → List Text
lines_of [] = []
lines_of (f ∷ fs) = f.first ∷ (f.folded ++ lines_of fs)

-- The first line is no continuation and readable for the test; the others are continuations.
abbrev pub IsField : Field → Type 0
IsField f =
    ((is_empty f.first || is_continuation f.first) ≡ false)
    × All (λ line. (is_empty line ≡ false) × (is_continuation line ≡ true)) f.folded
    × ((b : Bool) × (is_dkim_line f.first ≡ some b))

-- A field of that name, in whatever case.
abbrev pub is_signature : Text → Bool
is_signature line = starts_with (codes "dkim-signature:") (to_ascii_lowercase line)

-- The header section without the signature fields.
unfoldable pub without_dkim : Text → List Field → Text
without_dkim eol [] = []
without_dkim eol (f ∷ fs) =
    let rest = without_dkim eol fs in
    if is_signature f.first then rest else f.first ++ (eol ++ (with_eol eol f.folded ++ rest))

abbrev AsciiLower : Text → Type 0
AsciiLower = All (λ c. (c < 0x80) × (is_ascii_uppercase c ≡ false))

split_bytes-cons :
    (n c : ℕ) (s a b : Text)
    → 1 ≤ n
    → split_bytes n (c ∷ s) ≡ some (a, b)
    → (rest : Text) × (a ≡ c ∷ rest) × (split_bytes (n - len_utf8 c) s ≡ some (rest, b))
unfolding split_bytes
split_bytes-cons n c s a b h e = elim (Option-cases (split_bytes (n - len_utf8 c) s)) [
  | inl no_place ↦ absurd (ground (arith, e, no_place))
  | inr ((rest, b'), found) ↦ (rest, ground (arith, e, found), ground (arith, e, found))
]

split_bytes-prefix :
    (p s a b : Text)
    → AsciiLower p
    → split_bytes (byte_len p) s ≡ some (a, b)
    → text_eq (to_ascii_lowercase a) p ≡ starts_with p (to_ascii_lowercase s)
unfolding split_bytes byte_len text_eq to_ascii_lowercase starts_with strip_prefix
split_bytes-prefix [] [] a b h e = ground (arith, e)
split_bytes-prefix [] (c ∷ s) a b h e =
    let q : Path (Option (Text × Text)) (some ([], c ∷ s)) (some (a, b)) = e in ground arith
split_bytes-prefix (x ∷ p) [] a b h e = absurd (ground (arith, e))
split_bytes-prefix (x ∷ p) (c ∷ s) a b ((small, lower), h) e =
    let (rest, same, e') = split_bytes-cons (len_utf8 x + byte_len p) c s a b (ground arith) e in
    elim (Bool-cases (ascii_lower c == x)) [
      | inr differs ↦ rw same (ground (arith, differs))
      | inl hit ↦
          let one : (len_utf8 c ≡ 1) × (len_utf8 x ≡ 1) = ground (arith, hit) in
          let place : len_utf8 x + byte_len p - len_utf8 c ≡ byte_len p = omega (arith, one) in
          let ih = split_bytes-prefix p s rest b h (rw place at e') in
          rw same (ground (arith, hit, ih))
    ]

short-prefix :
    (p s : Text)
    → AsciiLower p
    → starts_with p (to_ascii_lowercase s) ≡ true
    → byte_len p ≤ byte_len s
unfolding byte_len to_ascii_lowercase starts_with
short-prefix [] s h e = omega arith
short-prefix (x ∷ p) [] h e = ground arith
short-prefix (x ∷ p) (c ∷ s) h e = ground (arith, short-prefix p s)

next_skip-continuation :
    (skip : Bool) (line : Text) → is_continuation line ≡ true → next_skip skip line ≡ some skip
unfolding next_skip
next_skip-continuation skip line h = ground (arith, h)

push_line-twice :
    (skip : Bool) (line eol more : Text) (o : Option Text)
    → push_line (skip || false) (line ++ eol) (push_line skip more o)
      ≡ push_line skip (line ++ (eol ++ more)) o
push_line-twice skip line eol more none = refl
push_line-twice true line eol more (some s) = refl
push_line-twice false line eol more (some s) = ap some (
    append_assoc line eol (more ++ s)
    ∙ sym (append_assoc line (eol ++ more) s ∙ ap (λ t. line ++ t) (append_assoc eol more s)))

push_line-nil : (skip : Bool) (o : Option Text) → push_line skip [] o ≡ o
push_line-nil skip none = refl
push_line-nil true (some s) = refl
push_line-nil false (some s) = refl

strip_lines-folded :
    (eol : Text) (skip : Bool) (folded more : List Text)
    → All (λ line. (is_empty line ≡ false) × (is_continuation line ≡ true)) folded
    → strip_lines eol skip (folded ++ more)
      ≡ push_line skip (with_eol eol folded) (strip_lines eol skip more)
unfolding strip_lines with_eol
strip_lines-folded eol skip [] more h = sym (push_line-nil skip (strip_lines eol skip more))
strip_lines-folded eol skip (line ∷ folded) more ((ne, cont), h) =
    rw
      (
        next_skip-continuation skip line cont,
        strip_lines,
        ne,
        strip_lines-folded eol skip folded more h,
      )
      (push_line-twice skip line eol (with_eol eol folded) (strip_lines eol skip more))

name-AsciiLower : AsciiLower (codes "dkim-signature:")
unfolding is_ascii_uppercase
name-AsciiLower = ground arith

-- Where the test does not panic, it tells the fields of that name.
is_dkim_line-is_signature :
    (line : Text) (b : Bool) → is_dkim_line line ≡ some b → b ≡ is_signature line
unfolding is_dkim_line byte_len
is_dkim_line-is_signature line b e = elim (Bool-cases (leb 15 (byte_len line))) [
  | inr short ↦ elim (Bool-cases (is_signature line)) [
    | inr unnamed ↦ cc (rw short at e)
    | inl named ↦
        let long = short-prefix (codes "dkim-signature:") line name-AsciiLower named in
        absurd (ground (arith, short, long))
  ]
  | inl long ↦ elim (Option-cases (split_bytes 15 line)) [
    | inl panics ↦ absurd (ground (arith, rw (long, panics) at e))
    | inr ((a, rest), place) ↦
        let same = split_bytes-prefix (codes "dkim-signature:") line a rest name-AsciiLower place in
        cc (rw (long, place) at e, same)
  ]
]

next_skip-first :
    (skip : Bool) (line : Text)
    → (is_empty line || is_continuation line) ≡ false
    → next_skip skip line ≡ is_dkim_line line
unfolding next_skip
next_skip-first skip line h = rw h refl

push_field :
    (b : Bool) (first eol more rest : Text)
    → push_line (b || false) (first ++ eol) (push_line b more (some rest))
      ≡ some (if b then rest else first ++ (eol ++ (more ++ rest)))
push_field true first eol more rest = refl
push_field false first eol more rest = ap some (append_assoc first eol (more ++ rest))

strip_lines-lines_of :
    (eol : Text) (skip : Bool) (fs : List Field)
    → All IsField fs
    → strip_lines eol skip (lines_of fs) ≡ some (without_dkim eol fs)
unfolding strip_lines without_dkim
strip_lines-lines_of eol skip [] h = refl
strip_lines-lines_of eol skip (f ∷ fs) ((starts, folded, (b, e)), h) =
    let ne : is_empty f.first ≡ false = ground (arith, starts) in
    rw
      (
        next_skip-first skip f.first starts,
        e,
        strip_lines,
        ne,
        strip_lines-folded eol b f.folded (lines_of fs) folded,
        strip_lines-lines_of eol b fs h,
        ← is_dkim_line-is_signature f.first b e,
      )
      (push_field b f.first eol (with_eol eol f.folded) (without_dkim eol fs))

-- Of a mail whose header section is a list of fields, exactly the fields named DKIM-Signature are
-- removed, each with its folded lines; the others keep their order and the body is left as it is.
pub strip_dkim_signatures-fields :
    (email headers body : Text) (fs : List Field)
    → split_at (eol_of email ++ eol_of email) email ≡ some (headers, body)
    → split_from (eol_of email) 0 headers ≡ lines_of fs
    → All IsField fs
    → strip_dkim_signatures email ≡ some (without_dkim (eol_of email) fs ++ (eol_of email ++ body))
unfolding strip_dkim_signatures
strip_dkim_signatures-fields email headers body fs at_blank as_lines h =
    rw (at_blank, as_lines, strip_dkim_signatures, strip_lines-lines_of (eol_of email) false fs h)
      refl

strip_lines-panics :
    (eol line : Text) (skip : Bool) (fs : List Field) (more : List Text)
    → All IsField fs
    → (is_empty line || is_continuation line) ≡ false
    → is_dkim_line line ≡ none
    → strip_lines eol skip (lines_of fs ++ line ∷ more) ≡ none
unfolding strip_lines
strip_lines-panics eol line skip [] more h starts e =
    rw (next_skip-first skip line starts, e, strip_lines) refl
strip_lines-panics eol line skip (f ∷ fs) more ((starts', folded, (b, e')), h) starts e =
    rw
      (
        next_skip-first skip f.first starts',
        e',
        strip_lines,
        append_assoc f.folded (lines_of fs) (line ∷ more),
        strip_lines-folded eol b f.folded (lines_of fs ++ line ∷ more) folded,
        strip_lines-panics eol line b fs more h starts e,
      )
      refl

-- A line that begins a header field, behind fields that the test can read, makes the stripping of
-- signatures panic if it has fifteen bytes or more and the fifteenth is not the last of a
-- character.
pub strip_dkim_signatures-panics :
    (email headers body line : Text) (fs : List Field) (more : List Text)
    → split_at (eol_of email ++ eol_of email) email ≡ some (headers, body)
    → split_from (eol_of email) 0 headers ≡ lines_of fs ++ line ∷ more
    → All IsField fs
    → (is_empty line || is_continuation line) ≡ false
    → 15 ≤ byte_len line
    → split_bytes 15 line ≡ none
    → strip_dkim_signatures email ≡ none
unfolding strip_dkim_signatures is_dkim_line
strip_dkim_signatures-panics email headers body line fs more at_blank as_lines h starts long place =
    let panics : is_dkim_line line ≡ none = ground (arith, long, place) in
    rw
      (
        at_blank,
        as_lines,
        strip_dkim_signatures,
        strip_lines-panics (eol_of email) line false fs more h starts panics,
      )
      refl
