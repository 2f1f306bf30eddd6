-- ===== src/Filter/Headers.antt =====
-- The header functions of filter.rs: `inject_headers`, `extract_header`, `strip_dkim_signatures`
-- and `extract_sender_ip`. A result in `Option` has `none` for the panic of a slice that does not
-- fall between characters.
use mailserver.Prelude.{
  ℕ, zero, suc, ◌+◌, ◌-◌, Bool, true, false, not, ◌&&◌, ◌||◌, Option, none, some, List, [], ◌∷◌,
  ◌++◌, leb, ltb, ◌==◌, if◌then◌else◌, length, Text, codes, text_eq, byte_len, is_empty,
  to_ascii_lowercase, trim, starts_with, split_at, contains, contains_char, split_char, cons_first,
  lines, split_bytes, parse_unsigned,
}
pub mod Laws
pub mod Dkim
pub mod Extract

abbrev pub crlf : Text
crlf = codes "\r\n"

-- The line ending of a mail: CR LF if it occurs anywhere.
unfoldable pub eol_of : Text → Text
unfolding contains
eol_of email = if contains crlf email then crlf else codes "\n"

-- Each line with a line ending.
unfoldable pub with_eol : Text → List Text → Text
with_eol eol [] = []
with_eol eol (line ∷ ls) = line ++ (eol ++ with_eol eol ls)

unfoldable pub inject_headers : Text → Text → Text
unfolding eol_of with_eol split_at lines
inject_headers email headers =
    let eol = eol_of email in
    elim (split_at (eol ++ eol) email) [
      | none ↦ email
      | some (before, after) ↦ before ++ (with_eol eol (lines headers) ++ (eol ++ after))
    ]

-- `char::to_lowercase`, as far as a comparison with an ASCII text can tell: no character but these
-- becomes an ASCII one, and the others stay apart from ASCII.
unfoldable pub to_lowercase : Text → Text
to_lowercase [] = []
to_lowercase (c ∷ s) =
    let rest = to_lowercase s in
    if leb b'A' c && leb c b'Z'
    then (c + 32) ∷ rest
    else if c == 0x212a
    then b'k' ∷ rest
    else if c == 0x130
    then b'i' ∷ 0x307 ∷ rest
    else c ∷ rest

abbrev pub behind : Option (Text × Text) → Option (Option Text)
behind none = none
behind (some (a, b)) = some (some (trim b))

extract_from : Text → List Text → Option (Option Text)
unfolding to_lowercase starts_with trim split_bytes byte_len is_empty
extract_from header_name [] = some none
extract_from header_name (line ∷ ls) =
    let rest = extract_from header_name ls in
    if is_empty line
    then some none
    else if starts_with (to_lowercase header_name ++ codes ":") (to_lowercase line)
    then behind (split_bytes (byte_len header_name + 1) line)
    else rest

-- `some none` is a header that is not there.
unfoldable pub extract_header : Text → Text → Option (Option Text)
unfolding extract_from lines
extract_header email header_name = extract_from header_name (lines email)

-- `str::split` at a text, with how many characters of a separator are still to pass.
unfoldable pub split_from : Text → ℕ → Text → List Text
unfolding starts_with
split_from p skip [] = [] ∷ []
split_from p (suc skip) (c ∷ s) = split_from p skip s
split_from p zero (c ∷ s) =
    let hit = starts_with p (c ∷ s) in
    let rest = split_from p (if hit then length p - 1 else 0) s in
    if hit then [] ∷ rest else cons_first c rest

unfoldable pub is_continuation : Text → Bool
unfolding starts_with
is_continuation line = starts_with (codes " ") line || starts_with (codes "\t") line

abbrev is_dkim_prefix : Option (Text × Text) → Option Bool
is_dkim_prefix none = none
is_dkim_prefix (some (a, b)) = some (text_eq (to_ascii_lowercase a) (codes "dkim-signature:"))

-- The test of a new header field; `none` where `line[..15]` panics.
unfoldable pub is_dkim_line : Text → Option Bool
unfolding byte_len split_bytes text_eq to_ascii_lowercase
is_dkim_line line =
    if leb 15 (byte_len line) then is_dkim_prefix (split_bytes 15 line) else some false

-- Whether lines are skipped after this one.
unfoldable pub next_skip : Bool → Text → Option Bool
unfolding is_continuation is_dkim_line is_empty
next_skip skip line = if is_empty line || is_continuation line then some skip else is_dkim_line line

abbrev pub push_line : Bool → Text → Option Text → Option Text
push_line drop line none = none
push_line drop line (some s) = some (if drop then s else line ++ s)

-- The loop over the lines of the header section.
unfoldable pub strip_lines : Text → Bool → List Text → Option Text
unfolding next_skip is_empty
strip_lines eol skip [] = some []
strip_lines eol skip (line ∷ ls) = elim (next_skip skip line) [
  | none ↦ none
  | some s ↦ push_line (s || is_empty line) (line ++ eol) (strip_lines eol s ls)
]

abbrev with_body : Text → Text → Option Text → Option Text
with_body eol body none = none
with_body eol body (some s) = some (s ++ (eol ++ body))

unfoldable pub strip_dkim_signatures : Text → Option Text
unfolding eol_of split_at split_from strip_lines
strip_dkim_signatures email =
    let eol = eol_of email in
    elim (split_at (eol ++ eol) email) [
      | none ↦ some email
      | some (headers, body) ↦ with_body eol body (strip_lines eol false (split_from eol 0 headers))
    ]

unfoldable pub is_received : Text → Bool
unfolding starts_with to_ascii_lowercase
is_received line = starts_with (codes "received:") (to_ascii_lowercase line)

-- The loop after a Received header has been found.
unfoldable pub unfold_received : Text → List Text → Text
unfolding is_empty is_continuation is_received trim
unfold_received received [] = received
unfold_received received (line ∷ ls) =
    let received' = if is_received line then line else received ++ (codes " " ++ trim line) in
    let rest = unfold_received received' ls in
    if is_empty line || not (is_received line || is_continuation line) then received else rest

unfoldable pub received_line : List Text → Text
unfolding is_empty is_received unfold_received
received_line [] = []
received_line (line ∷ ls) =
    let rest = received_line ls in
    if is_empty line then [] else if is_received line then unfold_received line ls else rest

abbrev second_part : List Text → Option Text
second_part (a ∷ b ∷ ws) = some b
second_part _ = none

abbrev in_16_to_31 : Option ℕ → Bool
in_16_to_31 none = false
in_16_to_31 (some n) = leb 16 n && leb n 31

is_rfc1918_172 : Text → Bool
unfolding starts_with split_char parse_unsigned
is_rfc1918_172 ip = starts_with (codes "172.") ip && elim (second_part (split_char b'.' ip)) [
  | none ↦ false
  | some second ↦ in_16_to_31 (parse_unsigned 255 second)
]

unfoldable pub accept_ip : Text → Option Text
unfolding contains_char starts_with is_rfc1918_172
accept_ip ip =
    if contains_char b':' ip
      || starts_with (codes "127.") ip
      || starts_with (codes "10.") ip
      || starts_with (codes "192.168.") ip
    then none
    else if is_rfc1918_172 ip
    then none
    else if contains_char b'.' ip
    then some ip
    else none

unfoldable pub bracketed : Text → Option Text
unfolding split_at
bracketed received = elim (split_at (codes "[") received) [
  | none ↦ none
  | some (a, rest) ↦ elim (split_at (codes "]") rest) [ none ↦ none | some (ip, b) ↦ some ip ]
]

unfoldable pub extract_sender_ip : Text → Option Text
unfolding received_line bracketed accept_ip lines
extract_sender_ip email = elim (bracketed (received_line (lines email))) [
  | none ↦ none
  | some ip ↦ accept_ip ip
]
