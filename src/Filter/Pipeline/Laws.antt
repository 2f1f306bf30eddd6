-- ===== src/Filter/Pipeline/Laws.antt =====
-- What `run_filter` of filter.rs promises of a message: where it can end, and what has been sent
-- then.
use mailserver.Prelude.{
  ℕ, ◌≡◌, refl, ◌⊎◌, true, Option, none, some, List, subst, arith, Bool-cases, inl, inr, Text,
  codes,
}
use mailserver.Rules.{Mail}
use mailserver.Filter.Headers.Extract.{extract_header-total}
use mailserver.Filter.Smtp.{ErrorKind, Result, ok, err, Wire, reinject_smtp}
use mailserver.Filter.Stages.{
  Database, World, Arguments, State, Draft, untouched, first_or_empty, or_empty,
}
use mailserver.Filter.Stages.Laws.{FirstUnsubscribed, filter_mail-suppressed}
use mailserver.Filter.Pipeline.{
  Exit, reinjected, fallback_reinjected, suppressed, tempfail, panicked, target_recipients,
  is_timeout, answer_fallback, answer_reinject, reinject, without_signatures, deliver, finish,
  read_headers, filter_or_pass, run_with_headers, run_filter,
}

-- How an attempt to hand a mail back can end, and what the connections have seen then.
pub Attempt : World → Text → Text → Text → List Text → Exit → Type 0
Attempt world sender email modified recipients (reinjected wire) =
    reinject_smtp world.connected modified sender recipients world.wire ≡ (ok tt, wire)
Attempt world sender email modified recipients (fallback_reinjected wire) =
    reinject_smtp world.connected_again email sender recipients world.wire_again ≡ (ok tt, wire)
Attempt world sender email modified recipients tempfail =
    (e : ErrorKind) × (wire : Wire) × (reinject_smtp world.connected modified sender recipients
        world.wire
      ≡ (err e, wire))
Attempt world sender email modified recipients suppressed = ⊥
Attempt world sender email modified recipients panicked = ⊥

reinject-Attempt :
    (world : World) (sender email modified : Text) (recipients : List Text)
    → Attempt world sender email modified recipients
        (reinject world sender recipients email modified)
unfolding reinject answer_reinject answer_fallback Attempt
reinject-Attempt world sender email modified recipients =
    first (reinject_smtp world.connected modified sender recipients world.wire)
      (reinject_smtp world.connected_again email sender recipients world.wire_again) refl refl
  where
    first :
        (r s : Result (Unit {0}) × Wire)
        → reinject_smtp world.connected modified sender recipients world.wire ≡ r
        → reinject_smtp world.connected_again email sender recipients world.wire_again ≡ s
        → Attempt world sender email modified recipients (answer_reinject r (answer_fallback s))
    first (ok u, wire) s e e' = e
    first (err k, wire) (ok u, wire') e e' = elim (Bool-cases (is_timeout k)) [
      | inl slow ↦ rw slow (k, wire, e)
      | inr fast ↦ rw fast e'
    ]
    first (err k, wire) (err k', wire') e e' = elim (Bool-cases (is_timeout k)) [
      | inl slow ↦ rw slow (k, wire, e)
      | inr fast ↦ rw fast (k, wire, e)
    ]

-- What became of a message for which the stages gave `o`: held back for a retry, suppressed, lost to
-- a panic, or handed back in one attempt or two.
abbrev pub Account : World → Arguments → Text → Option Draft → Exit → Type 0
Account world args email o exit =
    ((o ≡ none) × (exit ≡ tempfail))
    ⊎ ((draft : Draft) × (o ≡ some draft)
        × (((without_signatures email draft.modified ≡ none) × (exit ≡ panicked))
            ⊎ ((draft.is_suppressed ≡ true) × (exit ≡ suppressed))
            ⊎ ((modified : Text) × (without_signatures email draft.modified ≡ some modified)
                × Attempt world args.sender email modified
                    (target_recipients world args draft.spambl_hit) exit)))

finish-Account :
    (world : World) (args : Arguments) (email : Text) (o : Option Draft)
    → Account world args email o (finish world args email o)
unfolding finish deliver
finish-Account world args email none = inl (refl, refl)
finish-Account world args email (some draft) =
    inr (draft, refl, handed (without_signatures email draft.modified) refl)
  where
    handed :
        (m : Option Text)
        → without_signatures email draft.modified ≡ m
        → ((without_signatures email draft.modified ≡ none)
            × (deliver world args email draft m ≡ panicked))
          ⊎ ((draft.is_suppressed ≡ true) × (deliver world args email draft m ≡ suppressed))
          ⊎ ((modified : Text) × (without_signatures email draft.modified ≡ some modified)
              × Attempt world args.sender email modified
                  (target_recipients world args draft.spambl_hit)
                  (deliver world args email draft m))
    handed none e = inl (e, refl)
    handed (some modified) e = elim (Bool-cases draft.is_suppressed) [
      | inl gone ↦ inr (inl (gone, rw gone refl))
      | inr wanted ↦ inr (
          inr (
            modified,
            e,
            rw wanted (
                reinject-Attempt world args.sender email modified
                  (target_recipients world args draft.spambl_hit)),
          ))
    ]

-- The names that the run asks for.
read_headers-total : (email : Text) → (h : Text × Text) × (read_headers email ≡ some h)
unfolding read_headers
read_headers-total email =
    let (subject, e1) = extract_header-total email (codes "Subject") (ground arith) in
    let (from, e2) = extract_header-total email (codes "From") (ground arith) in
    let (to, e3) = extract_header-total email (codes "To") (ground arith) in
    let (copy, e4) = extract_header-total email (codes "Cc") (ground arith) in
    let (date, e5) = extract_header-total email (codes "Date") (ground arith) in
    let (id, e6) = extract_header-total email (codes "Message-ID") (ground arith) in
    ((or_empty subject, or_empty id), rw (read_headers, e1, e2, e3, e4, e5, e6) refl)

abbrev pub mail_of : Arguments → Text → ℕ → Mail
mail_of args subject size_bytes = record {
  sender = args.sender;
  recipient = first_or_empty args.recipients;
  subject = subject;
  size_bytes = size_bytes;
}

-- Every run accounts for its message: the exit is that of a refusal by the rate limits, of a panic
-- over the signatures, of a suppression, or of the attempts to hand the message back, where a
-- message reported as sent has been taken by the server and a retry is asked for only after the
-- first attempt has failed.
pub run_filter-Account :
    (opened : Option Database) (world : World) (args : Arguments) (email : Text) (size_bytes : ℕ)
    (st : State)
    → (subject : Text) × (message_id : Text) × (read_headers email ≡ some (subject, message_id))
      × Account world args email
          (filter_or_pass opened world args email message_id (mail_of args subject size_bytes) st).0
          (run_filter opened world args (some (email, size_bytes)) st).0
unfolding run_filter run_with_headers Attempt
run_filter-Account opened world args email size_bytes st =
    let ((subject, message_id), e) = read_headers-total email in
    (
      subject,
      message_id,
      e,
      rw (run_filter, e, run_with_headers)
          (finish-Account world args email
            (filter_or_pass opened world args email message_id (mail_of args subject size_bytes)
              st).0),
    )

filter_or_pass-suppressed :
    (opened : Option Database) (world : World) (args : Arguments) (email message_id : Text)
    (mail : Mail) (st : State) (draft : Draft)
    → (filter_or_pass opened world args email message_id mail st).0 ≡ some draft
    → draft.is_suppressed ≡ true
    → (db : Database) × (opened ≡ some db) × FirstUnsubscribed db world args
unfolding filter_or_pass
filter_or_pass-suppressed none world args email message_id mail st draft e h =
    let same : Path (Option Draft) (some (untouched email)) (some draft) = e in
    absurd (ground (arith, same, h))
filter_or_pass-suppressed (some db) world args email message_id mail st draft e h =
    (db, refl, filter_mail-suppressed db world args email message_id mail st draft e h)

-- A message is dropped without a trace only if the database was there and says that the first
-- recipient has unsubscribed from the sender's domain.
pub run_filter-suppressed :
    (opened : Option Database) (world : World) (args : Arguments) (email : Text) (size_bytes : ℕ)
    (st : State)
    → (run_filter opened world args (some (email, size_bytes)) st).0 ≡ suppressed
    → (db : Database) × (opened ≡ some db) × FirstUnsubscribed db world args
unfolding Attempt
run_filter-suppressed opened world args email size_bytes st h =
    let (subject, message_id, e, account) =
      run_filter-Account opened world args email size_bytes st in
    elim account [
      | inl (_, ended) ↦ cc
      | inr (draft, same, inl (_, ended)) ↦ cc
      | inr (draft, same, inr (inl (gone, _))) ↦
          filter_or_pass-suppressed opened world args email message_id
            (mail_of args subject size_bytes) st draft same gone
      | inr (draft, same, inr (inr (modified, _, attempt))) ↦ absurd (
          subst
            (λ x.
              Attempt world args.sender email modified
                (target_recipients world args draft.spambl_hit) x)
            h attempt)
    ]
