-- ===== src/Auth/Lockout/Laws.antt =====
-- What the login limiter of web/auth.rs guarantees.
use mailserver.Prelude.{
  ℕ, suc, ◌+◌, ◌≤◌, ◌<◌, ◌≡◌, ◌≢◌, refl, ap, ◌∙◌, Bool, true, false, Option, none, some, List, [],
  ◌∷◌, ◌++◌, ltb, if◌then◌else◌, length, All, arith, lookup, lookup-insert_self, lookup-insert_ne,
  lookup-remove_ne,
}
use mailserver.Net.IpAddr.{IpAddr, ip_addr_eq}
use mailserver.Auth.Lockout.{
  FailureRecord, Failures, max_failures, window, ban_duration, judge, keep_if, locked_out_in,
  is_locked_out, add_failure, failed_record, record_failure, clear_failures,
}

-- The failures of one address at the given times, oldest first.
abbrev pub replay : IpAddr → List ℕ → Failures → Failures
replay ip [] m = m
replay ip (t ∷ ts) m = replay ip ts (record_failure ip t m)

abbrev pub locked : FailureRecord → ℕ → Bool
locked rec now = (judge rec now rec.banned_until).0

keep_if_first : (a : Bool × Bool) (ip : IpAddr) (m : Failures) → (keep_if a ip m).0 ≡ a.0
unfolding keep_if
keep_if_first (l, true) ip m = refl
keep_if_first (l, false) ip m = refl

pub is_locked_out-some :
    (ip : IpAddr) (now : ℕ) (m : Failures) (rec : FailureRecord)
    → lookup ip m ≡ some rec
    → (is_locked_out ip now m).0 ≡ locked rec now
unfolding is_locked_out
is_locked_out-some ip now m rec e = rw e (keep_if_first (judge rec now rec.banned_until) ip m)

lookup-record_failure :
    (ip : IpAddr) (now : ℕ) (m : Failures)
    → lookup ip (record_failure ip now m) ≡ some (failed_record (lookup ip m) now)
unfolding record_failure
lookup-record_failure ip now m = lookup-insert_self ip (failed_record (lookup ip m) now) m

-- The record of `n` failures since `first`, of which the last came at `last`.
abbrev pub counted : ℕ → ℕ → ℕ → FailureRecord
counted n first last = record {
  count = if ltb n 5 then n else 5;
  first_at = first;
  banned_until = if ltb n 5 then none else some (last + ban_duration);
}

add_failure-counted :
    (n first last now : ℕ)
    → now ≤ first + window
    → add_failure (counted n first last) now ≡ counted (suc n) first now
unfolding add_failure
add_failure-counted n first last now h = ground arith

record_failure-counted :
    (ip : IpAddr) (n first last now : ℕ) (m : Failures)
    → now ≤ first + window
    → lookup ip m ≡ some (counted n first last)
    → lookup ip (record_failure ip now m) ≡ some (counted (suc n) first now)
unfolding failed_record
record_failure-counted ip n first last now m h e =
    rw (lookup-record_failure ip now m, e, failed_record)
      (ap some (add_failure-counted n first last now h))

replay-counted :
    (ip : IpAddr) (n k first last now : ℕ) (ts : List ℕ) (m : Failures)
    → All (λ t. t ≤ first + window) ts
    → now ≤ first + window
    → k ≡ n + length ts
    → lookup ip m ≡ some (counted n first last)
    → lookup ip (replay ip (ts ++ now ∷ []) m) ≡ some (counted (suc k) first now)
replay-counted ip n k first last now [] m _ h e r =
    let e' : k ≡ n = omega arith in rw e' (record_failure-counted ip n first last now m h r)
replay-counted ip n k first last now (t ∷ ts) m (p, ps) h e r =
    replay-counted ip (suc n) k first t now ts (record_failure ip t m) ps h (omega arith)
      (record_failure-counted ip n first last t m p r)

locked-counted :
    (n first last now : ℕ)
    → (5 ≤ n → locked (counted n first last) now ≡ ltb now (last + ban_duration))
      × (n < 5 → locked (counted n first last) now ≡ false)
unfolding judge
locked-counted n first last now = (λ h. ground arith, λ h. ground arith)

-- Failures of an address that has no record, at the times `first ∷ ts ++ last ∷ []`, none of them
-- later than the window after the first: with five or more of them the address is locked out until
-- the ban time after the last one, and at no other time; with fewer it is not locked out at all.
pub is_locked_out-replay :
    (ip : IpAddr) (first last now : ℕ) (ts : List ℕ) (m : Failures)
    → lookup ip m ≡ none
    → All (λ t. t ≤ first + window) ts
    → last ≤ first + window
    → (max_failures ≤ length ts + 2
        → (is_locked_out ip now (replay ip (first ∷ ts ++ last ∷ []) m)).0
          ≡ ltb now (last + ban_duration))
      × (length ts + 2 < max_failures
          → (is_locked_out ip now (replay ip (first ∷ ts ++ last ∷ []) m)).0 ≡ false)
unfolding failed_record
is_locked_out-replay ip first last now ts m fresh early h = (
  λ many.
      is_locked_out-some ip now _ _ found
      ∙ (locked-counted (suc (1 + length ts)) first last now).0 (omega arith),
  λ few.
      is_locked_out-some ip now _ _ found
      ∙ (locked-counted (suc (1 + length ts)) first last now).1 (omega arith),
)
  where
    one : lookup ip (record_failure ip first m) ≡ some (counted 1 first first)
    one = rw (lookup-record_failure ip first m, fresh, failed_record) refl

    found :
        lookup ip (replay ip (first ∷ ts ++ last ∷ []) m)
        ≡ some (counted (suc (1 + length ts)) first last)
    found = replay-counted ip 1 (1 + length ts) first first last ts _ early h refl one

-- A failure of one address, a check of it and a success of it leave every other address's record.
pub other_address_kept :
    (ip other : IpAddr) (now : ℕ) (m : Failures)
    → ip ≢ other
    → (lookup other (record_failure ip now m) ≡ lookup other m)
      × (lookup other (clear_failures ip m) ≡ lookup other m)
      × (lookup other (is_locked_out ip now m).1 ≡ lookup other m)
unfolding record_failure clear_failures is_locked_out
other_address_kept ip other now m h = (
  lookup-insert_ne ip other (failed_record (lookup ip m) now) m h,
  lookup-remove_ne ip other m h,
  after_check (lookup ip m),
)
  where
    kept : (a : Bool × Bool) → lookup other (keep_if a ip m).1 ≡ lookup other m
    kept (l, true) = refl
    kept (l, false) = lookup-remove_ne ip other m h

    after_check :
        (o : Option FailureRecord) → lookup other (locked_out_in o ip now m).1 ≡ lookup other m
    after_check none = refl
    after_check (some rec) = kept (judge rec now rec.banned_until)

-- A failure recorded for a banned address when the window since its first failure has passed
-- starts a fresh record, so the ban ends there though its time has not come.
pub late_failure_lifts_ban :
    (ip : IpAddr) (until now : ℕ) (rec : FailureRecord) (m : Failures)
    → lookup ip m ≡ some rec
    → rec.banned_until ≡ some until
    → rec.first_at + window < now
    → now < until
    → ((is_locked_out ip now m).0 ≡ true)
      × ((is_locked_out ip now (record_failure ip now m)).0 ≡ false)
unfolding judge add_failure failed_record
late_failure_lifts_ban ip until now rec m e b h k = (
  is_locked_out-some ip now m rec e ∙ ground arith,
  is_locked_out-some ip now _ _ (lookup-record_failure ip now m)
      ∙ rw (e, failed_record) (ground arith),
)
