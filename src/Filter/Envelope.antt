-- ===== src/Filter/Envelope.antt =====
-- `is_safe_smtp_addr` of filter.rs.
use mailserver.Prelude.{
  ℕ, Bool, true, false, not, ◌&&◌, ◌||◌, List, [], ◌∷◌, ltb, ◌==◌, if◌then◌else◌, any, Text, codes,
  is_empty, starts_with, ends_with, contains, contains_char, split_char,
}
pub mod Laws

-- A byte below 0x80 stands for the character of that code alone, so the test of the bytes is one of
-- the characters.
unfoldable pub is_unsafe_byte : ℕ → Bool
is_unsafe_byte b = b == b'\r' || b == b'\n' || b == 0 || ltb b 0x20 || b == 0x7f

-- The checks of dots that both parts go through.
unfoldable pub has_bad_dots : Text → Bool
unfolding starts_with ends_with contains
has_bad_dots part =
    starts_with (codes ".") part || ends_with (codes ".") part || contains (codes "..") part

unfoldable pub are_safe_parts : Text → Text → Bool
unfolding is_empty contains_char has_bad_dots
are_safe_parts local domain =
    if is_empty local || is_empty domain
    then false
    else if not (contains_char b'.' domain)
    then false
    else if has_bad_dots local
    then false
    else not (has_bad_dots domain)

-- `splitn(3, '@')` gives a third part exactly if there are two separators.
unfoldable pub are_safe_pieces : List Text → Bool
unfolding are_safe_parts
are_safe_pieces (local ∷ domain ∷ []) = are_safe_parts local domain
are_safe_pieces _ = false

unfoldable pub is_safe_smtp_addr : Text → Bool
unfolding is_unsafe_byte are_safe_pieces split_char
is_safe_smtp_addr s = if any is_unsafe_byte s then false else are_safe_pieces (split_char b'@' s)
