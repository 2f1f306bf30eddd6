-- ===== src/WebDav/Bounds.antt =====
-- The map of dav_auth in web/routes/webdav.rs stays bounded.
use mailserver.Prelude.{
  ℕ, ◌+◌, ◌-◌, ◌≤◌, ◌<◌, ◌≡◌, inl, inr, Bool, true, false, not, some, [], ◌∷◌, length, lookup,
  insert, remove, length-insert, length-remove, length-retain, Text, text_eq, text_eq_refl,
  text_eq_instance, arith, Option-cases, ◌||◌, retain,
}
use mailserver.Auth.Lockout.{FailureRecord, first_failure, add_failure}
use mailserver.WebDav.Lockout.{
  Failures, max_entries, oldest, drop_oldest, make_room, is_expired, record_failure,
}

abbrev has_key : Text → Failures → Bool
has_key k [] = false
has_key k ((j, r) ∷ m) = text_eq j k || has_key k m

remove-shorter : (k : Text) (m : Failures) → has_key k m ≡ true → length (remove k m) + 1 ≤ length m
unfolding remove
remove-shorter k [] h = ground arith
remove-shorter k ((j, r) ∷ m) h = ground (arith, remove-shorter k m, length-remove k m)

-- The oldest key is one of the map.
oldest-there :
    (k : Text) (at : ℕ) (m : Failures)
    → (text_eq k (oldest k at m) || has_key (oldest k at m) m) ≡ true
unfolding oldest
oldest-there k at [] = ground (arith, text_eq_refl k)
oldest-there k at ((j, r) ∷ m) = ground (arith, oldest-there j r.first_at m, oldest-there k at m)

drop_oldest-length : (m : Failures) → length (drop_oldest m) ≤ length m - 1
unfolding drop_oldest
drop_oldest-length [] = omega arith
drop_oldest-length ((k, r) ∷ m) =
    let key = oldest k r.first_at m in
    let shorter = remove-shorter key ((k, r) ∷ m) (oldest-there k r.first_at m) in
    omega (arith, shorter)

make_room-length :
    (now : ℕ) (m : Failures) → length m ≤ max_entries → length (make_room now m) < max_entries
unfolding make_room
make_room-length now m h =
    let live = retain (λ (r : FailureRecord). not (is_expired now r)) m in
    ground (
      arith,
      drop_oldest-length live,
      length-retain (λ (r : FailureRecord). not (is_expired now r)) m,
    )

insert-same_length :
    (k : Text) (v : FailureRecord) (m : Failures) (rec : FailureRecord)
    → lookup k m ≡ some rec
    → length (insert k v m) ≡ length m
unfolding lookup insert
insert-same_length k v [] rec h = ground arith
insert-same_length k v ((j, r) ∷ m) rec h = ground (arith, insert-same_length k v m rec)

-- However many account names are tried, the map of failures never outgrows its ten thousand entries.
pub record_failure-bounded :
    (key : Text) (now : ℕ) (m : Failures)
    → length m ≤ max_entries
    → length (record_failure key now m) ≤ max_entries
unfolding record_failure
record_failure-bounded key now m h = elim (Option-cases (lookup key m)) [
  | inl e ↦
      rw (record_failure, e)
        (omega (
          arith,
          length-insert key (first_failure now) (make_room now m),
          make_room-length now m h,
        ))
  | inr (rec, e) ↦
      rw (record_failure, e) (omega (arith, insert-same_length key (add_failure rec now) m rec e))
]
