-- ===== src/Config/Addresses.antt =====
-- The values of a map file: normalize_virtual_alias_source, sanitize_map_token and
-- sanitize_map_address of config.rs. `lower` is `str::to_lowercase`, which knows all of Unicode.
use mailserver.Prelude.{
  ℕ, Bool, true, false, not, ◌&&◌, ◌||◌, Option, none, some, ◌∷◌, ◌==◌, if◌then◌else◌, Text, codes,
  text_eq, is_empty, is_whitespace, is_control, trim, strip_prefix, rsplit_once, any,
}

-- `*` without a domain is kept.
abbrev star_source : Option Text → Text
star_source none = codes "*"
star_source (some domain) = b'@' ∷ domain

unfoldable pub normalize_virtual_alias_source : Text → Option Text → Text
unfolding trim strip_prefix text_eq
normalize_virtual_alias_source source domain =
    let trimmed = trim source in
    elim (strip_prefix (codes "*@") trimmed) [
      | some rest ↦ b'@' ∷ rest
      | none ↦ if text_eq trimmed (codes "*") then star_source domain else trimmed
    ]

-- What would break a line of a map.
unfoldable pub is_invalid : Bool → ℕ → Bool
is_invalid is_username c =
    is_whitespace c || is_control c || c == b'/' || c == b'\\' || (is_username && c == b':')

module _ (lower : Text → Text) where
  unfoldable pub sanitize_map_token : Text → Bool → Option Text
  unfolding is_invalid
  sanitize_map_token value is_username =
      let cleaned = lower (trim value) in
      if any (is_invalid is_username) cleaned then none else some cleaned

  abbrev is_none : Option Text → Bool
  is_none none = true
  is_none (some t) = false

  -- The parts are checked, and the whole is given back.
  unfoldable pub sanitize_parts : Text → Text → Text → Option Text
  unfolding sanitize_map_token
  sanitize_parts cleaned local_part domain =
      if not (is_empty local_part) && is_none (sanitize_map_token local_part true)
      then none
      else if is_none (sanitize_map_token domain false)
      then none
      else some cleaned

  unfoldable pub sanitize_map_address : Text → Option Text
  unfolding sanitize_parts
  sanitize_map_address addr =
      let cleaned = lower (trim addr) in
      elim (rsplit_once b'@' cleaned) [
        | some (local_part, domain) ↦ sanitize_parts cleaned local_part domain
        | none ↦ sanitize_map_token cleaned false
      ]
