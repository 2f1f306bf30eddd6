-- ===== src/Auth/Lockout/Invariant.antt =====
-- The invariant of the failure map of web/auth.rs, and what follows for how long a ban lasts.
use mailserver.Prelude.{
  ℕ, ◌+◌, ◌≤◌, ◌<◌, ◌≡◌, refl, Bool, true, false, Option, none, some, arith, lookup, insert, remove,
  lookup-insert, lookup-remove, ◌∙◌, inl, inr, subst, Bool-cases, Option-cases,
}
use mailserver.Net.IpAddr.{IpAddr, ip_addr_eq}
use mailserver.Auth.Lockout.Laws.{is_locked_out-some}
use mailserver.Auth.Lockout.{
  FailureRecord, Failures, max_failures, ban_duration, judge, keep_if, locked_out_in, is_locked_out,
  add_failure, failed_record, record_failure, clear_failures,
}

abbrev BanFits : ℕ → FailureRecord → Option ℕ → Type 0
BanFits clock rec none = rec.count < max_failures
BanFits clock rec (some until) = (rec.count ≡ max_failures) × (until ≤ clock + ban_duration)

-- A record counts one to five failures, has a ban exactly if it counts five, and the ban ends no
-- later than the ban time after the clock.
pub record RecordIsValid (clock : ℕ) (rec : FailureRecord) : Type 0 where
  pub counts : 1 ≤ rec.count
  pub ban : BanFits clock rec rec.banned_until

abbrev pub FailuresAreValid : ℕ → Failures → Type 0
FailuresAreValid clock m =
    (ip : IpAddr) (rec : FailureRecord) → lookup ip m ≡ some rec → RecordIsValid clock rec

BanFits-mono :
    (clock now : ℕ) (rec : FailureRecord) (o : Option ℕ)
    → clock ≤ now
    → BanFits clock rec o
    → BanFits now rec o
BanFits-mono clock now rec none h v = v
BanFits-mono clock now rec (some until) h v = (v.0, omega arith)

RecordIsValid-mono :
    (clock now : ℕ) (rec : FailureRecord)
    → clock ≤ now
    → RecordIsValid clock rec
    → RecordIsValid now rec
RecordIsValid-mono clock now rec h v = record {
  counts = v.counts;
  ban = BanFits-mono clock now rec rec.banned_until h v.ban;
}

add_failure-RecordIsValid :
    (clock now : ℕ) (rec : FailureRecord)
    → clock ≤ now
    → RecordIsValid clock rec
    → RecordIsValid now (add_failure rec now)
unfolding add_failure
add_failure-RecordIsValid clock now rec h v = ground arith

failed_record-RecordIsValid :
    (clock now : ℕ) (o : Option FailureRecord)
    → clock ≤ now
    → ((rec : FailureRecord) → o ≡ some rec → RecordIsValid clock rec)
    → RecordIsValid now (failed_record o now)
unfolding failed_record
failed_record-RecordIsValid clock now none h v = ground arith
failed_record-RecordIsValid clock now (some rec) h v =
    add_failure-RecordIsValid clock now rec h (v rec refl)

later :
    (clock now : ℕ) (m : Failures) → clock ≤ now → FailuresAreValid clock m → FailuresAreValid now m
later clock now m h v ip rec e = RecordIsValid-mono clock now rec h (v ip rec e)

remove-FailuresAreValid :
    (clock : ℕ) (ip : IpAddr) (m : Failures)
    → FailuresAreValid clock m
    → FailuresAreValid clock (remove ip m)
remove-FailuresAreValid clock ip m v other rec e = elim (Bool-cases (ip_addr_eq.beq ip other)) [
  | inl same ↦ ground (arith, lookup-remove ip other m)
  | inr differs ↦ v other rec (ground (arith, lookup-remove ip other m))
]

-- With the clock at `clock` and the next call at `now`: a failure, a check and a success each keep
-- the invariant, at the later clock.
pub operations-FailuresAreValid :
    (clock now : ℕ) (ip : IpAddr) (m : Failures)
    → clock ≤ now
    → FailuresAreValid clock m
    → FailuresAreValid now (record_failure ip now m)
      × FailuresAreValid now (is_locked_out ip now m).1
      × FailuresAreValid now (clear_failures ip m)
unfolding record_failure is_locked_out clear_failures
operations-FailuresAreValid clock now ip m h v =
    (recorded, checked (lookup ip m), remove-FailuresAreValid now ip m (later clock now m h v))
  where
    recorded : FailuresAreValid now (insert ip (failed_record (lookup ip m) now) m)
    recorded other rec e = elim (Bool-cases (ip_addr_eq.beq ip other)) [
      | inl same ↦
          let eq : failed_record (lookup ip m) now ≡ rec =
            ground (arith, lookup-insert ip other (failed_record (lookup ip m) now) m) in
          subst (RecordIsValid now) eq
            (failed_record-RecordIsValid clock now (lookup ip m) h (v ip))
      | inr differs ↦
          later clock now m h v other rec
            (ground (arith, lookup-insert ip other (failed_record (lookup ip m) now) m))
    ]

    kept : (a : Bool × Bool) → FailuresAreValid now (keep_if a ip m).1
    kept (l, true) = later clock now m h v
    kept (l, false) = remove-FailuresAreValid now ip m (later clock now m h v)

    checked : (o : Option FailureRecord) → FailuresAreValid now (locked_out_in o ip now m).1
    checked none = later clock now m h v
    checked (some rec) = kept (judge rec now rec.banned_until)

judge-valid :
    (clock now : ℕ) (rec : FailureRecord)
    → RecordIsValid clock rec
    → clock + ban_duration ≤ now
    → (judge rec now rec.banned_until).0 ≡ false
unfolding judge
judge-valid clock now rec v h = ground arith

-- No lock-out of a valid map outlives the ban time: when that much time has passed since the last
-- call, no address is locked out.
pub lock_expires :
    (clock now : ℕ) (ip : IpAddr) (m : Failures)
    → FailuresAreValid clock m
    → clock + ban_duration ≤ now
    → (is_locked_out ip now m).0 ≡ false
unfolding is_locked_out
lock_expires clock now ip m v h = elim (Option-cases (lookup ip m)) [
  | inl e ↦ rw (e, locked_out_in) refl
  | inr (rec, e) ↦ is_locked_out-some ip now m rec e ∙ judge-valid clock now rec (v ip rec e) h
]
