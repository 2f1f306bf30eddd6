-- ===== src/Filter/Body.antt =====
-- What filter.rs puts into the body of a mail: `body_is_encoded`, `inject_footer`,
-- `strip_html_tags` and the tracking pixel of `run_filter`.
use mailserver.Prelude.{
  ℕ, ◌+◌, Bool, true, false, ◌&&◌, ◌||◌, Option, none, some, List, [], ◌∷◌, ◌++◌, leb, ◌==◌,
  if◌then◌else◌, Text, codes, text_eq, byte_len, is_empty, to_ascii_lowercase, ascii_lower, trim,
  starts_with, contains, cons_first, split_once,
}
pub mod Encoded
pub mod Laws

-- `str::split_inclusive` at a line feed
unfoldable pub split_inclusive : Text → List Text
split_inclusive [] = []
split_inclusive (c ∷ s) =
    let rest = split_inclusive s in if c == b'\n' then (c ∷ []) ∷ rest else cons_first c rest

abbrev pub is_line_end : ℕ → Bool
is_line_end c = c == b'\r' || c == b'\n'

-- `trim_end_matches(['\r', '\n'])`
unfoldable pub trim_line_end : Text → Text
unfolding is_empty
trim_line_end [] = []
trim_line_end (c ∷ s) =
    let rest = trim_line_end s in if is_empty rest && is_line_end c then [] else c ∷ rest

abbrev pub value_of : Option (Text × Text) → Text
value_of none = []
value_of (some (a, b)) = to_ascii_lowercase (trim b)

-- The values that mean an encoded part.
unfoldable pub is_encoding : Text → Bool
unfolding text_eq
is_encoding value = text_eq value (codes "quoted-printable") || text_eq value (codes "base64")

-- The loop: the last header that starts before the place decides.
unfoldable pub encoded_from : ℕ → ℕ → Bool → List Text → Bool
unfolding trim_line_end starts_with to_ascii_lowercase split_once trim is_encoding byte_len
encoded_from up_to pos encoded [] = encoded
encoded_from up_to pos encoded (raw ∷ rest) =
    let line = trim_line_end raw in
    let encoded' =
      if starts_with (codes "content-transfer-encoding:") (to_ascii_lowercase line)
      then is_encoding (value_of (split_once b':' line))
      else encoded in
    let further = encoded_from up_to (pos + byte_len raw) encoded' rest in
    if leb up_to pos then encoded else further

unfoldable pub body_is_encoded : Text → ℕ → Bool
unfolding encoded_from split_inclusive
body_is_encoded email up_to = encoded_from up_to 0 false (split_inclusive email)

-- `rfind` of a text in the lower-case copy: what stands before the last occurrence, and the rest
-- from there on.
unfoldable pub rfind_lower : Text → Text → Option (Text × Text)
unfolding starts_with to_ascii_lowercase
rfind_lower p [] = if starts_with p [] then some ([], []) else none
rfind_lower p (c ∷ s) = elim (rfind_lower p s) [
  | some (a, b) ↦ some (c ∷ a, b)
  | none ↦ if starts_with p (to_ascii_lowercase (c ∷ s)) then some ([], c ∷ s) else none
]

unfoldable pub footer_block : Text → Text
footer_block footer_html =
    codes
      "<div class=\"domain-footer\" style=\"margin-top:24px;border-top:1px solid #e2e8f0;padding-top:12px;font-size:0.9em;color:#475569;line-height:1.4;\">"
    ++ (footer_html ++ codes "</div>")

abbrev next_in_tag : Bool → ℕ → Bool
next_in_tag in_tag c = if c == b'<' then true else if c == b'>' then false else in_tag

-- The loop with the flag `in_tag`.
unfoldable pub outside_tags : Bool → Text → Text
outside_tags in_tag [] = []
outside_tags in_tag (c ∷ s) =
    let rest = outside_tags (next_in_tag in_tag c) s in
    if c == b'<' || c == b'>' || in_tag then rest else c ∷ rest

unfoldable pub strip_html_tags : Text → Text
unfolding outside_tags trim
strip_html_tags input = trim (outside_tags false input)

unfoldable pub plain_footer : Text → Text → Text
unfolding is_empty body_is_encoded byte_len
plain_footer email plain =
    if is_empty plain || body_is_encoded email (byte_len email)
    then email
    else email ++ (codes "\n\n-- \n" ++ plain)

unfoldable pub inject_footer : Text → Text → Text
unfolding is_empty trim rfind_lower body_is_encoded footer_block contains to_ascii_lowercase
    strip_html_tags plain_footer byte_len
inject_footer email footer_html =
    if is_empty (trim footer_html) then email else elim (rfind_lower (codes "</body>") email) [
      | some (before, rest) ↦
          if body_is_encoded email (byte_len before)
          then email
          else before ++ (footer_block footer_html ++ rest)
      | none ↦
          if contains (codes "<html") (to_ascii_lowercase email)
          then email
          else plain_footer email (strip_html_tags footer_html)
    ]

unfoldable pub pixel_tag : Text → Text
pixel_tag pixel_url =
    codes "<img src=\""
    ++ (pixel_url ++ codes "\" width=\"1\" height=\"1\" style=\"display:none\" alt=\"\" />")

-- The mail with the pixel; `none` where no pixel is put in.
unfoldable pub inject_pixel : Text → Text → Option Text
unfolding rfind_lower body_is_encoded byte_len pixel_tag
inject_pixel email pixel_url = elim (rfind_lower (codes "</body>") email) [
  | none ↦ none
  | some (before, rest) ↦
      if body_is_encoded email (byte_len before)
      then none
      else some (before ++ (pixel_tag pixel_url ++ rest))
]
