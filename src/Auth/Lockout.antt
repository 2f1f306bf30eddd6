-- ===== src/Auth/Lockout.antt =====
-- The login limiter of web/auth.rs: one failure record for each client address. An `Instant` is a
-- number of nanoseconds; the lock of the static map is the passing of the state.
pub mod Laws
pub mod Invariant
use mailserver.Prelude.{
  ℕ, ◌+◌, ◌-◌, ◌*◌, Bool, true, false, Option, none, some, ltb, leb, if◌then◌else◌, Map, lookup,
  insert, remove,
}
use mailserver.Net.IpAddr.{IpAddr, ip_addr_eq}

abbrev pub secs : ℕ → ℕ
secs n = n * 1_000_000_000

abbrev pub max_failures : ℕ
max_failures = 5

abbrev pub window : ℕ
window = secs 900

abbrev pub ban_duration : ℕ
ban_duration = secs 900

pub record FailureRecord : Type 0 where
  pub count : ℕ
  pub first_at : ℕ
  pub banned_until : Option ℕ

abbrev pub Failures : Type 0
Failures = Map IpAddr FailureRecord

abbrev pub first_failure : ℕ → FailureRecord
first_failure now = record { count = 1; first_at = now; banned_until = none }

-- The answer for a record, and whether the record stays in the map.
pub judge : FailureRecord → ℕ → Option ℕ → Bool × Bool
judge rec now (some banned_until) = if ltb now banned_until then (true, true) else (false, false)
judge rec now none =
    if ltb window (now - rec.first_at) then (false, false) else (leb max_failures rec.count, true)

keep_if : Bool × Bool → IpAddr → Failures → Bool × Failures
keep_if (locked, true) ip m = (locked, m)
keep_if (locked, false) ip m = (locked, remove ip m)

locked_out_in : Option FailureRecord → IpAddr → ℕ → Failures → Bool × Failures
unfolding judge keep_if
locked_out_in none ip now m = (false, m)
locked_out_in (some rec) ip now m = keep_if (judge rec now rec.banned_until) ip m

unfoldable pub is_locked_out : IpAddr → ℕ → Failures → Bool × Failures
unfolding locked_out_in
is_locked_out ip now m = locked_out_in (lookup ip m) ip now m

-- The record after one more failure.
unfoldable pub add_failure : FailureRecord → ℕ → FailureRecord
add_failure rec now =
    if ltb window (now - rec.first_at)
    then first_failure now
    else if leb max_failures rec.count
    then record rec { banned_until = some (now + ban_duration) }
    else if leb max_failures (rec.count + 1)
    then record rec { count = rec.count + 1; banned_until = some (now + ban_duration) }
    else record rec { count = rec.count + 1 }

failed_record : Option FailureRecord → ℕ → FailureRecord
unfolding add_failure
failed_record none now = first_failure now
failed_record (some rec) now = add_failure rec now

unfoldable pub record_failure : IpAddr → ℕ → Failures → Failures
unfolding failed_record
record_failure ip now m = insert ip (failed_record (lookup ip m) now) m

unfoldable pub clear_failures : IpAddr → Failures → Failures
clear_failures ip m = remove ip m
