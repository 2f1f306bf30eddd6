-- ===== src/Registration/Bounds.antt =====
-- The limiter of registrations keeps its table bounded, and its limit.
use mailserver.Prelude.{
  ℕ, suc, ◌+◌, ◌-◌, ◌≤◌, ◌<◌, ◌≡◌, refl, ◌≢◌, inl, inr, Bool, true, false, Option, none, some, List,
  [], ◌∷◌, length, arith, Bool-cases, if◌then◌else◌, ltb, leb, lookup, remove, lookup-insert_self,
  lookup-insert_ne, length-insert, length-remove, length-retain, All,
}
use mailserver.Net.IpAddr.{IpAddr, ip_addr_eq, ip_eq_iff}
use mailserver.Registration.Limiter.{
  RegAttempts, RegRecord, reg_window, reg_max_entries, max_reg_attempts, drop_one, drop_stale,
  make_room, count_attempt, reg_rate_limited,
}

drop_one-length : (m : RegAttempts) → length (drop_one m) ≤ length m - 1
unfolding drop_one remove
drop_one-length [] = omega arith
drop_one-length ((k, rec) ∷ m) = ground (arith, length-remove k m, ip_eq_iff k k)

drop_stale-length : (now : ℕ) (m : RegAttempts) → length (drop_stale now m) ≤ length m
unfolding drop_stale
drop_stale-length now m =
    ground (arith, length-retain (λ (r : RegRecord). leb now (r.first_at + reg_window)) m)

make_room-length :
    (now : ℕ) (m : RegAttempts)
    → length m ≤ reg_max_entries
    → length (make_room now m) < reg_max_entries
unfolding make_room
make_room-length now m h =
    ground (arith, drop_stale-length now m, drop_one-length (drop_stale now m))

count_attempt-length :
    (o : Option RegRecord) (ip : IpAddr) (now : ℕ) (m : RegAttempts)
    → length (count_attempt o ip now m).1 ≤ length m + 1
unfolding count_attempt
count_attempt-length none ip now m = length-insert ip (record { count = 1; first_at = now }) m
count_attempt-length (some rec) ip now m = ground (
  arith,
  length-insert ip (record { count = 1; first_at = now }) m,
  length-insert ip (record rec { count = rec.count + 1 }) m,
)

-- The table of attempts never outgrows its ten thousand entries.
pub reg_rate_limited-bounded :
    (ip : IpAddr) (now : ℕ) (m : RegAttempts)
    → length m ≤ reg_max_entries
    → length (reg_rate_limited ip now m).1 ≤ reg_max_entries
unfolding reg_rate_limited
reg_rate_limited-bounded ip now m h = ground (
  arith,
  make_room-length now m,
  count_attempt-length (lookup ip (make_room now m)) ip now (make_room now m),
)

make_room-small : (now : ℕ) (m : RegAttempts) → length m < reg_max_entries → make_room now m ≡ m
unfolding make_room drop_stale
make_room-small now m h = ground arith

-- How many attempts of one address get through in a sequence of attempts of any addresses.
unfoldable pub passes : IpAddr → List (IpAddr × ℕ) → RegAttempts → ℕ
passes who [] m = 0
passes who ((ip, now) ∷ rest) m =
    let (limited, m') = reg_rate_limited ip now m in
    let later = passes who rest m' in
    if ip_addr_eq.beq ip who then if limited then later else suc later else later

-- What an address has left in a window that began at `start` at the earliest.
abbrev left_of : Option RegRecord → ℕ
left_of none = max_reg_attempts
left_of (some rec) = max_reg_attempts - rec.count

abbrev Began : ℕ → Option RegRecord → Type 0
Began start none = Unit
Began start (some rec) = start ≤ rec.first_at

abbrev pub InWindow : ℕ → (IpAddr × ℕ) → Type 0
InWindow start (ip, now) = (start ≤ now) × (now ≤ start + reg_window)

-- One attempt of the address takes one of what is left, or is refused.
record Counted (start : ℕ) (o : Option RegRecord) (limited : Bool) (o' : Option RegRecord)
    : Type 0 where
  began : Began start o'
  taken : left_of o' + (if limited then 0 else 1) ≤ left_of o

count_attempt-Counted :
    (o : Option RegRecord) (who : IpAddr) (start now : ℕ) (m : RegAttempts)
    → lookup who m ≡ o
    → Began start o
    → InWindow start (who, now)
    → Counted start o (count_attempt o who now m).0 (lookup who (count_attempt o who now m).1)
unfolding count_attempt
count_attempt-Counted none who start now m e b h =
    rw (lookup-insert_self who (record { count = 1; first_at = now }) m)
      (record { began = h.0; taken = omega arith })
count_attempt-Counted (some rec) who start now m e b h =
    let live : ltb reg_window (now - rec.first_at) ≡ false = ground arith in
    elim (Bool-cases (leb max_reg_attempts rec.count)) [
      | inl full ↦ rw (live, full, e) (record { began = b; taken = omega arith })
      | inr some_left ↦
          rw (live, some_left, lookup-insert_self who (record rec { count = rec.count + 1 }) m)
            (record { began = b; taken = ground arith })
    ]

count_attempt-other :
    (o : Option RegRecord) (ip who : IpAddr) (now : ℕ) (m : RegAttempts)
    → ip ≢ who
    → lookup who (count_attempt o ip now m).1 ≡ lookup who m
unfolding count_attempt
count_attempt-other none ip who now m h = lookup-insert_ne ip who _ m h
count_attempt-other (some rec) ip who now m h = ground (
  arith,
  lookup-insert_ne ip who (record { count = 1; first_at = now }) m h,
  lookup-insert_ne ip who (record rec { count = rec.count + 1 }) m h,
)

reg_rate_limited-small :
    (ip : IpAddr) (now : ℕ) (m : RegAttempts)
    → length m < reg_max_entries
    → reg_rate_limited ip now m ≡ count_attempt (lookup ip m) ip now m
unfolding reg_rate_limited
reg_rate_limited-small ip now m h = rw (make_room-small now m h) refl

Counted-le :
    (start before : ℕ) (o : Option RegRecord) (limited : Bool) (o' : Option RegRecord)
    → Counted start o limited o'
    → before ≤ left_of o'
    → (if limited then before else suc before) ≤ left_of o
Counted-le start before o true o' c h = omega (arith, c.taken)
Counted-le start before o false o' c h = omega (arith, c.taken)

passes-le :
    (who : IpAddr) (start : ℕ) (events : List (IpAddr × ℕ)) (m : RegAttempts)
    → All (InWindow start) events
    → length m + length events ≤ reg_max_entries
    → Began start (lookup who m)
    → passes who events m ≤ left_of (lookup who m)
unfolding passes
passes-le who start [] m h k b = omega arith
passes-le who start ((ip, now) ∷ rest) m (h, hs) k b =
    let room : length m < reg_max_entries = omega arith in
    let m' = (count_attempt (lookup ip m) ip now m).1 in
    let fits : length m' + length rest ≤ reg_max_entries =
      omega (arith, count_attempt-length (lookup ip m) ip now m) in
    elim (Bool-cases (ip_addr_eq.beq ip who)) [
      | inl same ↦
          let e = (ip_eq_iff ip who).0 same in
          let c = count_attempt-Counted (lookup who m) who start now m refl b h in
          let ih =
            passes-le who start rest (count_attempt (lookup who m) who now m).1 hs (rw e at fits)
              c.began in
          rw (same, reg_rate_limited-small ip now m room, e)
            (Counted-le start _ (lookup who m) _ _ c ih)
      | inr differs ↦
          let kept =
            count_attempt-other (lookup ip m) ip who now m
              (λ e. ground (arith, ip_eq_iff ip who)) in
          rw (differs, reg_rate_limited-small ip now m room)
            (rw (← kept) (passes-le who start rest m' hs fits (rw kept b)))
    ]

-- Of all the attempts that one address makes within fifteen minutes, whatever other addresses do in
-- between, at most five get through, if the address is new to the table and the table does not fill
-- up meanwhile.
pub at_most_five :
    (who : IpAddr) (start : ℕ) (events : List (IpAddr × ℕ)) (m : RegAttempts)
    → All (InWindow start) events
    → length m + length events ≤ reg_max_entries
    → lookup who m ≡ none
    → passes who events m ≤ max_reg_attempts
at_most_five who start events m h k e =
    let bound = passes-le who start events m h k (rw e tt) in rw e at bound
