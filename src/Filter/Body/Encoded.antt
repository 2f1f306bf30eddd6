-- ===== src/Filter/Body/Encoded.antt =====
-- Where a mail is encoded, described by its lines, and what `body_is_encoded` of filter.rs finds.
use mailserver.Prelude.{
  ℕ, ◌+◌, ◌<◌, ◌≤◌, ◌≡◌, refl, ap, ◌∙◌, ◌↔◌, ◌⊎◌, Bool, true, false, ◌&&◌, some, List, [], ◌∷◌,
  ◌++◌, leb, arith, Bool-cases, inl, inr, Text, codes, byte_len, is_empty, starts_with,
  to_ascii_lowercase, ascii_lower, is_ascii_uppercase, trim, trim_start, trim_end, is_whitespace,
  Lacks, contains_char, split_once, text_eq_iff, starts_with-Begins, or_iff,
}
use mathlib.Core.List.{append_assoc}
use mailserver.Filter.Body.{
  split_inclusive, trim_line_end, value_of, is_line_end, is_encoding, encoded_from, body_is_encoded,
}

-- A line with the header that declares an encoding.
abbrev pub IsDeclaration : Text → Text → Type 0
IsDeclaration line value =
    (name : Text) × (line ≡ name ++ (b':' ∷ value))
    × (to_ascii_lowercase name ≡ codes "content-transfer-encoding")

abbrev pub Declares : Text → Type 0
Declares line = (value : Text) × IsDeclaration line value

-- A line that declares one of the two encodings.
abbrev pub DeclaresEncoding : Text → Type 0
DeclaresEncoding line =
    (value : Text) × IsDeclaration line value
    × ((to_ascii_lowercase (trim value) ≡ codes "quoted-printable")
        ⊎ (to_ascii_lowercase (trim value) ≡ codes "base64"))

-- Of lines, the first of which starts at `pos`, none that starts before the place declares anything.
abbrev pub NoneDeclares : ℕ → ℕ → List Text → Type 0
NoneDeclares place pos [] = Unit {0}
NoneDeclares place pos (line ∷ lines) =
    (place ≤ pos) ⊎ ((¬ Declares line) × NoneDeclares place (pos + byte_len line) lines)

-- The last declaration that starts before the place is one of the two encodings.
abbrev pub LastEncodes : ℕ → ℕ → List Text → Type 0
LastEncodes place pos [] = ⊥
LastEncodes place pos (line ∷ lines) =
    (pos < place)
    × (LastEncodes place (pos + byte_len line) lines
        ⊎ (DeclaresEncoding line × NoneDeclares place (pos + byte_len line) lines))

-- The mail is encoded at the place, by its byte.
abbrev pub IsEncodedAt : Text → ℕ → Type 0
IsEncodedAt email place = LastEncodes place 0 (split_inclusive email)

trim_line_end-joins : (s : Text) → (tail : Text) × (s ≡ trim_line_end s ++ tail)
unfolding trim_line_end
trim_line_end-joins [] = ([], refl)
trim_line_end-joins (c ∷ s) =
    let (tail, e) = trim_line_end-joins s in
    elim (Bool-cases (is_empty (trim_line_end s) && is_line_end c)) [
      | inl dropped ↦ rw dropped (c ∷ s, refl)
      | inr kept ↦ rw kept (tail, ap (λ t. c ∷ t) e)
    ]

-- A sign that is no line end stays, with all before it.
trim_line_end-solid :
    (a s : Text) (c : ℕ)
    → is_line_end c ≡ false
    → trim_line_end (a ++ (c ∷ s)) ≡ a ++ (c ∷ trim_line_end s)
unfolding trim_line_end is_empty
trim_line_end-solid [] s c h = ground (arith, h)
trim_line_end-solid (d ∷ []) s c h = ground (arith, trim_line_end-solid [] s c h)
trim_line_end-solid (d ∷ e ∷ a) s c h = ground (arith, trim_line_end-solid (e ∷ a) s c h)

trim_start-trim_line_end : (s : Text) → trim_start (trim_line_end s) ≡ trim_line_end (trim_start s)
unfolding trim_start trim_line_end is_whitespace is_empty
trim_start-trim_line_end [] = refl
trim_start-trim_line_end (c ∷ s) = ground (arith, trim_start-trim_line_end s)

trim_end-trim_line_end : (s : Text) → trim_end (trim_line_end s) ≡ trim_end s
unfolding trim_end trim_line_end is_whitespace is_empty
trim_end-trim_line_end [] = refl
trim_end-trim_line_end (c ∷ s) = ground (arith, trim_end-trim_line_end s)

trim-trim_line_end : (s : Text) → trim (trim_line_end s) ≡ trim s
unfolding trim
trim-trim_line_end s =
    ap trim_end (trim_start-trim_line_end s) ∙ trim_end-trim_line_end (trim_start s)

-- A text whose lower case falls apart at a colon falls apart there.
lower-colon :
    (s a r : Text)
    → to_ascii_lowercase s ≡ a ++ (b':' ∷ r)
    → (a' : Text) × (r' : Text) × (s ≡ a' ++ (b':' ∷ r')) × (to_ascii_lowercase a' ≡ a)
unfolding to_ascii_lowercase ascii_lower is_ascii_uppercase
lower-colon [] [] r e = absurd (ground (arith, e))
lower-colon [] (d ∷ a) r e = absurd (ground (arith, e))
lower-colon (c ∷ s) [] r e = ([], s, ground (arith, e), refl)
lower-colon (c ∷ s) (d ∷ a) r e =
    let (a', r', e', f) = lower-colon s a r (ground (arith, e)) in
    let head : ascii_lower c ≡ d = ground (arith, e) in
    (c ∷ a', r', ap (λ t. c ∷ t) e', rw (f, head) refl)

lower-append :
    (s t : Text) → to_ascii_lowercase (s ++ t) ≡ to_ascii_lowercase s ++ to_ascii_lowercase t
unfolding to_ascii_lowercase
lower-append [] t = refl
lower-append (c ∷ s) t = ap (λ u. ascii_lower c ∷ u) (lower-append s t)

lower-Lacks : (s : Text) → Lacks b':' (to_ascii_lowercase s) → Lacks b':' s
unfolding to_ascii_lowercase contains_char ascii_lower is_ascii_uppercase
lower-Lacks [] h = refl
lower-Lacks (c ∷ s) h = ground (arith, h, lower-Lacks s)

split_once-first : (a r : Text) → Lacks b':' a → split_once b':' (a ++ (b':' ∷ r)) ≡ some (a, r)
unfolding split_once contains_char
split_once-first [] r h = refl
split_once-first (c ∷ a) r h = ground (arith, h, split_once-first a r)

-- The header with its colon, at the front of a line in lower case.
starts_with-Declares :
    (line : Text)
    → starts_with (codes "content-transfer-encoding:") (to_ascii_lowercase line) ≡ true
    → Declares line
starts_with-Declares line h =
    let (rest, e) =
      (starts_with-Begins (codes "content-transfer-encoding:") (to_ascii_lowercase line)).0 h in
    let (name, value, e', f) = lower-colon line (codes "content-transfer-encoding") rest e in
    (value, (name, e', f))

Declares-starts_with :
    (line value : Text)
    → IsDeclaration line value
    → starts_with (codes "content-transfer-encoding:") (to_ascii_lowercase line) ≡ true
unfolding to_ascii_lowercase ascii_lower is_ascii_uppercase
Declares-starts_with line value (name, e, f) =
    (starts_with-Begins (codes "content-transfer-encoding:") (to_ascii_lowercase line)).1 (
      to_ascii_lowercase value,
      ap to_ascii_lowercase e
          ∙ lower-append name (b':' ∷ value)
          ∙ ap (λ t. t ++ (b':' ∷ to_ascii_lowercase value)) f,
    )

name-Lacks :
    (name : Text) → to_ascii_lowercase name ≡ codes "content-transfer-encoding" → Lacks b':' name
unfolding contains_char
name-Lacks name f = lower-Lacks name (rw f refl)

-- What a declaration is without its line end.
IsDeclaration-trim :
    (line value : Text)
    → IsDeclaration line value
    → IsDeclaration (trim_line_end line) (trim_line_end value)
IsDeclaration-trim line value (name, e, f) =
    (name, ap trim_line_end e ∙ trim_line_end-solid name value b':' refl, f)

trimmed-Declares : (line : Text) → Declares (trim_line_end line) → Declares line
trimmed-Declares line (value, (name, e, f)) =
    let (tail, joins) = trim_line_end-joins line in
    (value ++ tail, (name, joins ∙ ap (λ t. t ++ tail) e ∙ append_assoc name _ tail, f))

value_of-declaration :
    (line value : Text)
    → IsDeclaration line value
    → value_of (split_once b':' (trim_line_end line)) ≡ to_ascii_lowercase (trim value)
value_of-declaration line value d =
    let (name, e, f) = IsDeclaration-trim line value d in
    rw (e, split_once-first name (trim_line_end value) (name-Lacks name f))
      (ap to_ascii_lowercase (trim-trim_line_end value))

is_encoding_iff :
    (v : Text) → (is_encoding v ≡ true) ↔ ((v ≡ codes "quoted-printable") ⊎ (v ≡ codes "base64"))
unfolding is_encoding
is_encoding_iff v =
    or_iff _ _ (text_eq_iff v (codes "quoted-printable")) (text_eq_iff v (codes "base64"))

-- What the loop finds in one line.
abbrev declared : Text → Bool
declared raw =
    starts_with (codes "content-transfer-encoding:") (to_ascii_lowercase (trim_line_end raw))

abbrev encoding_of : Text → Bool
encoding_of raw = is_encoding (value_of (split_once b':' (trim_line_end raw)))

declared-Declares : (raw : Text) → (declared raw ≡ true) ↔ Declares raw
declared-Declares raw = (
  λ h. trimmed-Declares raw (starts_with-Declares (trim_line_end raw) h),
  λ (value, d).
      Declares-starts_with (trim_line_end raw) (trim_line_end value)
        (IsDeclaration-trim raw value d),
)

encoding_of-DeclaresEncoding :
    (raw : Text) → declared raw ≡ true → (encoding_of raw ≡ true) ↔ DeclaresEncoding raw
encoding_of-DeclaresEncoding raw h = (
  λ k.
      let (value, d) = (declared-Declares raw).0 h in
      let same = value_of-declaration raw value d in
      (value, d, (is_encoding_iff (to_ascii_lowercase (trim value))).0 (rw same at k)),
  λ (value, d, names).
      rw (value_of-declaration raw value d)
        ((is_encoding_iff (to_ascii_lowercase (trim value))).1 names),
)

DeclaresEncoding-Declares : (line : Text) → DeclaresEncoding line → Declares line
DeclaresEncoding-Declares line (value, d, names) = (value, d)

-- The flag after the lines: the last declaration before the place, or the flag from before.
encoded_from-LastEncodes :
    (place pos : ℕ) (e : Bool) (lines : List Text)
    → (encoded_from place pos e lines ≡ true)
      ↔ (LastEncodes place pos lines ⊎ ((e ≡ true) × NoneDeclares place pos lines))
unfolding encoded_from
encoded_from-LastEncodes place pos e [] =
    (λ h. inr (h, tt), λ h. elim h [ inl last ↦ absurd last | inr (k, _) ↦ k ])
encoded_from-LastEncodes place pos e (raw ∷ rest) =
    let next = pos + byte_len raw in
    elim (Bool-cases (leb place pos)) [
      | inl there ↦ (
        λ h. inr (rw (encoded_from, there) at h, inl (ground (arith, there))),
        λ h. elim h [
          | inl (before, _) ↦ absurd (ground (arith, there, before))
          | inr (k, _) ↦ rw (encoded_from, there) k
        ],
      )
      | inr before ↦ elim (Bool-cases (declared raw)) [
        | inl declares ↦
            let (there, back) = encoded_from-LastEncodes place next (encoding_of raw) rest in
            let (is, home) = encoding_of-DeclaresEncoding raw declares in
            (
              λ h. inl (
                ground (arith, before),
                elim (there (rw (encoded_from, before, declares) at h)) [
                  | inl last ↦ inl last
                  | inr (k, silent) ↦ inr (is k, silent)
                ],
              ),
              λ h. elim h [
                | inl (_, inl last) ↦ rw (encoded_from, before, declares) (back (inl last))
                | inl (_, inr (d, silent)) ↦
                    rw (encoded_from, before, declares) (back (inr (home d, silent)))
                | inr (_, inl over) ↦ absurd (ground (arith, over, before))
                | inr (_, inr (n, _)) ↦ absurd (n ((declared-Declares raw).0 declares))
              ],
            )
        | inr silent_line ↦
            let (there, back) = encoded_from-LastEncodes place next e rest in
            let plain : ¬ Declares raw =
              λ d. absurd (let k = (declared-Declares raw).1 d in ground (arith, k, silent_line)) in
            (
              λ h. elim (there (rw (encoded_from, before, silent_line) at h)) [
                | inl last ↦ inl (ground (arith, before), inl last)
                | inr (k, silent) ↦ inr (k, inr (plain, silent))
              ],
              λ h. elim h [
                | inl (_, inl last) ↦ rw (encoded_from, before, silent_line) (back (inl last))
                | inl (_, inr (d, _)) ↦ absurd (plain (DeclaresEncoding-Declares raw d))
                | inr (k, inl over) ↦ absurd (ground (arith, over, before))
                | inr (k, inr (_, silent)) ↦
                    rw (encoded_from, before, silent_line) (back (inr (k, silent)))
              ],
            )
      ]
    ]

pub body_is_encoded-IsEncodedAt :
    (email : Text) (place : ℕ) → (body_is_encoded email place ≡ true) ↔ IsEncodedAt email place
unfolding body_is_encoded
body_is_encoded-IsEncodedAt email place =
    let (there, back) = encoded_from-LastEncodes place 0 false (split_inclusive email) in
    (
      λ h. elim (there h) [ inl last ↦ last | inr (e, _) ↦ absurd (ground (arith, e)) ],
      λ h. back (inl h),
    )

pub body_is_plain :
    (email : Text) (place : ℕ) → body_is_encoded email place ≡ false → ¬ IsEncodedAt email place
body_is_plain email place h =
    λ k. absurd (let l = (body_is_encoded-IsEncodedAt email place).1 k in ground (arith, l, h))
