-- ===== src/CalDav/Texts.antt =====
-- The functions on texts of web/routes/caldav.rs: what is read from iCalendar data and from XML, the
-- escaping of XML, and the combined feed.
pub mod Escape
use mailserver.Prelude.{
  ℕ, zero, suc, Bool, false, not, ◌&&◌, ◌||◌, Option, none, some, List, [], ◌∷◌, ◌++◌, ◌==◌,
  if◌then◌else◌, Text, codes, text_eq, is_empty, length, trim, strip_prefix, starts_with, split_at,
  split_once, lines, reverse_onto,
}
use mailserver.CalDav.Tables.{CalDavObject}

-- `str::replace` of one character
unfoldable pub replace : ℕ → Text → Text → Text
replace c by [] = []
replace c by (x ∷ s) = if x == c then by ++ replace c by s else x ∷ replace c by s

unfoldable pub xml_escape : Text → Text
unfolding replace
xml_escape s = replace b'\'' (codes "&apos;") (
    replace b'"' (codes "&quot;")
      (replace b'>' (codes "&gt;") (replace b'<' (codes "&lt;") (replace b'&' (codes "&amp;") s))))

unfoldable pub first_uid : List Text → Option Text
first_uid [] = none
first_uid (line ∷ rest) = elim (strip_prefix (codes "UID:") line) [
  | some uid ↦ some (trim uid)
  | none ↦ first_uid rest
]

unfoldable pub extract_uid_from_ics : Text → Option Text
unfolding first_uid lines
extract_uid_from_ics ics = first_uid (lines ics)

-- What stands between the first occurrence of the tag and the next `<`.
unfoldable pub after_tag : Text → Text → Option Text
unfolding split_at split_once
after_tag tag text = elim (split_at tag text) [
  | none ↦ none
  | some (before, rest) ↦ elim (split_once b'<' rest) [
    | none ↦ none
    | some (value, more) ↦ some (trim value)
  ]
]

abbrev pub non_empty : Option Text → Option Text
non_empty none = none
non_empty (some t) = if is_empty t then none else some t

abbrev pub or_else : Option Text → Option Text → Option Text
or_else none o = o
or_else (some t) o = some t

unfoldable pub extract_displayname_from_xml : Option Text → Option Text
unfolding after_tag
extract_displayname_from_xml none = none
extract_displayname_from_xml (some text) = non_empty (after_tag (codes "displayname>") text)

unfoldable pub extract_description_from_xml : Option Text → Option Text
unfolding after_tag
extract_description_from_xml none = none
extract_description_from_xml (some text) = after_tag (codes "calendar-description>") text

unfoldable pub extract_color_from_xml : Option Text → Option Text
unfolding after_tag
extract_color_from_xml none = none
extract_color_from_xml (some text) =
    or_else (non_empty (after_tag (codes "calendar-color>") text))
      (non_empty (after_tag (codes "CalendarColor>") text))

unfoldable pub strip_repeated : ℕ → Text → Text → Text
strip_repeated zero p s = s
strip_repeated (suc n) p s = elim (strip_prefix p s) [
  | none ↦ s
  | some rest ↦ strip_repeated n p rest
]

-- `str::trim_end_matches`; there are no more repetitions than characters.
unfoldable pub trim_end_matches : Text → Text → Text
unfolding strip_repeated
trim_end_matches p s =
    reverse_onto (strip_repeated (length s) (reverse_onto p []) (reverse_onto s [])) []

-- The file name that an href names, if it is below the prefix.
abbrev pub cons_filename : Text → Text → List Text → List Text
cons_filename prefix href filenames = elim (strip_prefix prefix (trim href)) [
  | none ↦ filenames
  | some filename ↦ trim_end_matches (codes "/") filename ∷ filenames
]

-- Each round takes the text up to a tag away.
unfoldable pub hrefs : ℕ → Text → Text → List Text
unfolding split_at trim_end_matches
hrefs zero prefix remaining = []
hrefs (suc n) prefix remaining = elim (split_at (codes "<D:href>") remaining) [
  | none ↦ []
  | some (before, rest) ↦ elim (split_at (codes "</D:href>") rest) [
    | none ↦ []
    | some (href, more) ↦ cons_filename prefix href (hrefs n prefix (codes "</D:href>" ++ more))
  ]
]

unfoldable pub extract_hrefs_from_multiget : Text → Text → Text → List Text
unfolding hrefs
extract_hrefs_from_multiget body email slug =
    let prefix = codes "/caldav/" ++ email ++ codes "/calendars/" ++ slug ++ codes "/" in
    hrefs (length body) prefix body

abbrev is_dropped : Text → Bool
is_dropped upper = starts_with (codes "VERSION:") upper || starts_with (codes "PRODID:") upper

-- The lines inside of a wrapper; `to_upper` is `str::to_uppercase`.
unfoldable pub inside_wrapper : (Text → Text) → Bool → List Text → List Text
inside_wrapper to_upper inside [] = []
inside_wrapper to_upper inside (line ∷ rest) =
    let upper = to_upper (trim line) in
    let begins = text_eq upper (codes "BEGIN:VCALENDAR") in
    let ends = text_eq upper (codes "END:VCALENDAR") in
    let kept = inside_wrapper to_upper (begins || not ends && inside) rest in
    if begins || ends
    then kept
    else if inside
    then if is_dropped upper then kept else line ∷ kept
    else kept

abbrev pub join_lines : List Text → Text
join_lines [] = []
join_lines (line ∷ []) = line
join_lines (line ∷ next ∷ rest) = line ++ codes "\r\n" ++ join_lines (next ∷ rest)

unfoldable pub strip_vcalendar_wrapper : (Text → Text) → Text → Text
unfolding inside_wrapper lines
strip_vcalendar_wrapper to_upper ics =
    join_lines (inside_wrapper to_upper false (lines ics)) ++ codes "\r\n"

abbrev pub feed_body : (Text → Text) → List CalDavObject → Text
feed_body to_upper [] = []
feed_body to_upper (o ∷ objects) =
    strip_vcalendar_wrapper to_upper o.ics_data ++ feed_body to_upper objects

unfoldable pub build_icalendar_feed : (Text → Text) → Text → List CalDavObject → Text
unfolding strip_vcalendar_wrapper
build_icalendar_feed to_upper calendar_name objects =
    codes "BEGIN:VCALENDAR\r\n"
    ++ codes "VERSION:2.0\r\n"
    ++ codes "PRODID:-//Mailserver CalDAV//EN\r\n"
    ++ codes "X-WR-CALNAME:"
    ++ calendar_name
    ++ codes "\r\n"
    ++ feed_body to_upper objects
    ++ codes "END:VCALENDAR\r\n"
