-- ===== src/Registration/Limiter.antt =====
-- The limiter of web/routes/registration.rs: attempts for each client address. An `Instant` is a
-- number of nanoseconds, and `first_at >= now - REG_WINDOW` is written without the subtraction.
use mailserver.Prelude.{
  ℕ, ◌+◌, ◌-◌, Bool, true, false, Option, none, some, [], ◌∷◌, ltb, leb, if◌then◌else◌, length, Map,
  lookup, insert, remove, retain,
}
use mailserver.Net.IpAddr.{IpAddr, ip_addr_eq}
use mailserver.Auth.Lockout.{secs}

abbrev pub max_reg_attempts : ℕ
max_reg_attempts = 5

abbrev pub reg_window : ℕ
reg_window = secs 900

abbrev pub reg_max_entries : ℕ
reg_max_entries = 10_000

pub record RegRecord : Type 0 where
  pub count : ℕ
  pub first_at : ℕ

abbrev pub RegAttempts : Type 0
RegAttempts = Map IpAddr RegRecord

unfoldable pub drop_one : RegAttempts → RegAttempts
unfolding remove
drop_one [] = []
drop_one ((k, rec) ∷ m) = remove k ((k, rec) ∷ m)

unfoldable pub drop_stale : ℕ → RegAttempts → RegAttempts
drop_stale now m =
    if leb reg_max_entries (length m) then retain (λ r. leb now (r.first_at + reg_window)) m else m

unfoldable pub make_room : ℕ → RegAttempts → RegAttempts
unfolding drop_stale drop_one
make_room now m =
    let kept = drop_stale now m in if leb reg_max_entries (length kept) then drop_one kept else kept

abbrev first_attempt : ℕ → RegRecord
first_attempt now = record { count = 1; first_at = now }

unfoldable pub count_attempt : Option RegRecord → IpAddr → ℕ → RegAttempts → Bool × RegAttempts
count_attempt none ip now m = (false, insert ip (first_attempt now) m)
count_attempt (some rec) ip now m =
    if ltb reg_window (now - rec.first_at)
    then (false, insert ip (first_attempt now) m)
    else if leb max_reg_attempts rec.count
    then (true, m)
    else (false, insert ip (record rec { count = rec.count + 1 }) m)

unfoldable pub reg_rate_limited : IpAddr → ℕ → RegAttempts → Bool × RegAttempts
unfolding make_room count_attempt
reg_rate_limited ip now m = let room = make_room now m in count_attempt (lookup ip room) ip now room
