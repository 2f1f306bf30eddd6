-- ===== src/Forms.antt =====
-- The validators of web/forms.rs. An error stands for its message; the validator of relay hosts is not
-- among them.
pub mod Canonical
use mailserver.Prelude.{
  ℕ, Bool, true, false, not, ◌&&◌, ◌||◌, List, [], ◌∷◌, ◌==◌, ltb, if◌then◌else◌, Text, codes,
  text_eq, byte_len, is_empty, is_ascii_lowercase, is_ascii_digit, is_ascii_alphanumeric,
  is_control, is_whitespace, to_ascii_lowercase, trim, contains_char, split_char, all, any,
}

pub data FormError : Type 0 where
  required invalid_characters too_long wrong_characters wrong_form : FormError

pub data Validated : Type 0 where
  ok : Text → Validated
  err : FormError → Validated

unfoldable pub has_control_chars : Text → Bool
unfolding is_control
has_control_chars s = any (λ c. is_control c || c == b'\r' || c == b'\n') s

abbrev pub is_domain_char : ℕ → Bool
is_domain_char c = is_ascii_lowercase c || is_ascii_digit c || c == b'.' || c == b'-'

unfoldable pub validate_domain_name : Text → Validated
unfolding has_control_chars
validate_domain_name domain =
    let d = to_ascii_lowercase (trim domain) in
    if is_empty d
    then err required
    else if has_control_chars d
    then err invalid_characters
    else if ltb 253 (byte_len d)
    then err too_long
    else if all is_domain_char d
    then ok d
    else err wrong_characters

abbrev pub is_name_char : ℕ → Bool
is_name_char c = is_ascii_alphanumeric c || c == b'.' || c == b'-' || c == b'_'

-- `is_uppercase` is that of `char`, which knows all of Unicode.
unfoldable pub validate_username : (ℕ → Bool) → Text → Validated
unfolding has_control_chars
validate_username is_uppercase username =
    let u = to_ascii_lowercase (trim username) in
    if is_empty u
    then err required
    else if has_control_chars u || any (λ c. is_whitespace c || is_uppercase c) u
    then err invalid_characters
    else if ltb 64 (byte_len u)
    then err too_long
    else if all is_name_char u
    then ok u
    else err wrong_characters

unfoldable pub validate_display_name : Text → Validated
unfolding has_control_chars
validate_display_name name =
    let n = trim name in
    if has_control_chars n
    then err invalid_characters
    else if ltb 128 (byte_len n)
    then err too_long
    else ok n

abbrev pub is_local_char : ℕ → Bool
is_local_char c = is_ascii_alphanumeric c || contains_char c (codes "._-+~%")

abbrev pub is_host_char : ℕ → Bool
is_host_char c = is_ascii_alphanumeric c || c == b'.' || c == b'-'

-- The parts before and behind the one `@`.
unfoldable pub validate_parts : Bool → Text → Text → Text → Validated
unfolding has_control_chars text_eq
validate_parts allow_catchall v local_part domain =
    if is_empty domain
    then err wrong_form
    else if allow_catchall && text_eq local_part (codes "*")
    then ok v
    else if is_empty local_part || has_control_chars local_part || has_control_chars domain
    then err invalid_characters
    else if not (all is_local_char local_part)
    then err wrong_characters
    else if all is_host_char domain
    then ok v
    else err wrong_characters

abbrev pub split_parts : Bool → Text → List Text → Validated
split_parts allow_catchall v (local_part ∷ domain ∷ []) =
    validate_parts allow_catchall v local_part domain
split_parts allow_catchall v parts = err wrong_form

unfoldable pub validate_mail_address : Text → Bool → Validated
unfolding has_control_chars validate_parts split_char
validate_mail_address value allow_catchall =
    let v = trim value in
    if is_empty v
    then err required
    else if has_control_chars v
    then err invalid_characters
    else if ltb 254 (byte_len v)
    then err too_long
    else split_parts allow_catchall v (split_char b'@' v)
