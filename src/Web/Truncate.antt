-- ===== src/Web/Truncate.antt =====
-- `truncate_utf8` of web/mod.rs.
use mailserver.Prelude.{
  ℕ, zero, suc, Bool, true, false, Option, none, some, List, [], leb, if◌then◌else◌, Text, byte_len,
  split_bytes,
}
pub mod Laws

-- `s[..end]` at the first boundary from `end` downwards.
unfoldable pub back_to_boundary : ℕ → Text → Text
unfolding split_bytes
back_to_boundary zero s = []
back_to_boundary (suc n) s = elim (split_bytes (suc n) s) [
  | some (a, b) ↦ a
  | none ↦ back_to_boundary n s
]

unfoldable pub truncate_utf8 : Text → ℕ → Text
unfolding byte_len back_to_boundary
truncate_utf8 s max_len = if leb (byte_len s) max_len then s else back_to_boundary max_len s
