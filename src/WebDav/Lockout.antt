-- ===== src/WebDav/Lockout.antt =====
-- The module dav_auth of web/routes/webdav.rs, which CalDAV and CardDAV share: failures for each
-- account name. Its record changes as that of the login limiter does, from which `judge` and
-- `add_failure` are taken; its map is bounded.
use mailserver.Prelude.{
  ℕ, ◌-◌, Bool, true, false, not, ◌||◌, none, some, [], ◌∷◌, ltb, leb, if◌then◌else◌, Map, lookup,
  insert, remove, retain, length, Text, text_eq_instance,
}
use mailserver.Auth.Lockout.{FailureRecord, window, first_failure, judge, add_failure}

abbrev pub Failures : Type 0
Failures = Map Text FailureRecord

abbrev pub max_entries : ℕ
max_entries = 10_000

unfoldable pub keep_if : Bool × Bool → Text → Failures → Bool × Failures
keep_if (locked, true) key m = (locked, m)
keep_if (locked, false) key m = (locked, remove key m)

unfoldable pub is_locked : Text → ℕ → Failures → Bool × Failures
unfolding keep_if
is_locked key now m = elim (lookup key m) [
  | none ↦ (false, m)
  | some rec ↦ keep_if (judge rec now rec.banned_until) key m
]

unfoldable pub is_expired : ℕ → FailureRecord → Bool
is_expired now r =
    elim r.banned_until [ none ↦ false | some b ↦ leb b now ] || ltb window (now - r.first_at)

-- `min_by_key`: the first of the oldest.
unfoldable pub oldest : Text → ℕ → Failures → Text
oldest k at [] = k
oldest k at ((j, r) ∷ m) = if ltb r.first_at at then oldest j r.first_at m else oldest k at m

unfoldable pub drop_oldest : Failures → Failures
unfolding oldest remove
drop_oldest [] = []
drop_oldest ((k, r) ∷ m) = remove (oldest k r.first_at m) ((k, r) ∷ m)

unfoldable pub make_room : ℕ → Failures → Failures
unfolding is_expired drop_oldest
make_room now m =
    let live = retain (λ r. not (is_expired now r)) m in
    if leb max_entries (length m)
    then if leb max_entries (length live) then drop_oldest live else live
    else m

unfoldable pub record_failure : Text → ℕ → Failures → Failures
unfolding make_room
record_failure key now m = elim (lookup key m) [
  | some rec ↦ insert key (add_failure rec now) m
  | none ↦ insert key (first_failure now) (make_room now m)
]

unfoldable pub clear : Text → Failures → Failures
clear key m = remove key m
