-- ===== src/CalDav/Texts/Escape.antt =====
-- The escaping of XML in web/routes/caldav.rs.
use mailserver.Prelude.{
  ℕ, ◌≡◌, refl, ap, sym, ◌∙◌, inl, inr, false, [], ◌∷◌, ◌++◌, ◌==◌, Text, codes, arith, Bool-cases,
  if◌then◌else◌, contains_char,
}
use mathlib.Core.List.{append_assoc}
use mailserver.CalDav.Texts.{replace, xml_escape}

-- The reference: each character by itself.
abbrev pub escaped_char : ℕ → Text
escaped_char c =
    if c == b'&'
    then codes "&amp;"
    else if c == b'<'
    then codes "&lt;"
    else if c == b'>'
    then codes "&gt;"
    else if c == b'"'
    then codes "&quot;"
    else if c == b'\''
    then codes "&apos;"
    else c ∷ []

unfoldable pub escape : Text → Text
escape [] = []
escape (c ∷ s) = escaped_char c ++ escape s

replace-append : (c : ℕ) (by s t : Text) → replace c by (s ++ t) ≡ replace c by s ++ replace c by t
unfolding replace
replace-append c by [] t = refl
replace-append c by (x ∷ s) t = elim (Bool-cases (x == c)) [
  | inl here ↦
      rw (replace, here)
        (ap (λ v. by ++ v) (replace-append c by s t)
          ∙ sym (append_assoc by (replace c by s) (replace c by t)))
  | inr other ↦ rw (replace, other) (ap (λ v. x ∷ v) (replace-append c by s t))
]

xml_escape-append : (s t : Text) → xml_escape (s ++ t) ≡ xml_escape s ++ xml_escape t
unfolding xml_escape
xml_escape-append s t =
    let s1 = replace b'&' (codes "&amp;") s in
    let t1 = replace b'&' (codes "&amp;") t in
    let s2 = replace b'<' (codes "&lt;") s1 in
    let t2 = replace b'<' (codes "&lt;") t1 in
    let s3 = replace b'>' (codes "&gt;") s2 in
    let t3 = replace b'>' (codes "&gt;") t2 in
    let s4 = replace b'"' (codes "&quot;") s3 in
    let t4 = replace b'"' (codes "&quot;") t3 in
    rw
      (
        replace-append b'&' (codes "&amp;") s t,
        replace-append b'<' (codes "&lt;") s1 t1,
        replace-append b'>' (codes "&gt;") s2 t2,
        replace-append b'"' (codes "&quot;") s3 t3,
      )
      (replace-append b'\'' (codes "&apos;") s4 t4)

xml_escape-char : (c : ℕ) → xml_escape (c ∷ []) ≡ escaped_char c
unfolding xml_escape replace
xml_escape-char c = ground arith

xml_escape-reference : (s : Text) → xml_escape s ≡ escape s
unfolding escape xml_escape replace
xml_escape-reference [] = refl
xml_escape-reference (c ∷ s) =
    xml_escape-append (c ∷ []) s
    ∙ rw (xml_escape-char c) (ap (λ v. escaped_char c ++ v) (xml_escape-reference s))

escape-no_markup : (s : Text) → contains_char b'<' (escape s) ≡ false
unfolding escape contains_char
escape-no_markup [] = refl
escape-no_markup (c ∷ s) = ground (arith, escape-no_markup s)

-- The escaping of XML does in five passes what one pass over the characters does, since the first of
-- them is that of `&`; and the result opens no tag.
pub xml_escape-escape :
    (s : Text) → (xml_escape s ≡ escape s) × (contains_char b'<' (xml_escape s) ≡ false)
xml_escape-escape s = (xml_escape-reference s, rw (xml_escape-reference s) (escape-no_markup s))
