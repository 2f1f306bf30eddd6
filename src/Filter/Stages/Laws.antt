-- ===== src/Filter/Stages/Laws.antt =====
-- What the stages of `run_filter` of filter.rs promise: the registry of messages seen, and who is
-- suppressed.
use mailserver.Prelude.{
  ℕ, ◌-◌, ◌≡◌, refl, sym, ap, ◌∙◌, Bool, true, false, not, ◌&&◌, Option, none, some, List, [], ◌∷◌,
  ◌++◌, ltb, if◌then◌else◌, arith, Bool-cases, Option-cases, inl, inr, Text, is_empty, codes, Map,
  lookup, insert, retain, text_eq_instance, text_eq, text_eq_refl,
}
use mailserver.Rules.{Mail, is_tracking_enabled}
use mailserver.Filter.Body.{inject_pixel}
use mailserver.Filter.Stages.{
  Database, World, Arguments, State, Draft, rate_limit_dedupe_ttl, rate_limit_message_seen,
  sender_domain_of, footer_step, unsubscribe_for, unsubscribe_step, spambl_step, tracking_step,
  change, untouched, filter_mail, filter_limited, rate_step, is_on,
}

lookup-retain :
    (p : ℕ → Bool) (k : Text) (v : ℕ) (m : Map Text ℕ)
    → lookup k m ≡ none
    → lookup k (retain p (insert k v m)) ≡ (if p v then some v else none)
unfolding lookup retain insert
lookup-retain p k v [] h = ground (arith, text_eq_refl k)
lookup-retain p k v ((j, w) ∷ m) h = elim (Bool-cases (text_eq j k)) [
  | inl same ↦ absurd (ground (arith, rw (lookup, same) at h))
  | inr differs ↦
      let ih = lookup-retain p k v m (rw (lookup, differs) at h) in
      elim (Bool-cases (p w)) [
        | inl keeps ↦ rw (differs, retain, keeps, lookup) (rw (lookup, differs) ih)
        | inr drops ↦ rw (differs, retain, drops) ih
      ]
]

retain-none :
    (p : ℕ → Bool) (k : Text) (m : Map Text ℕ) → lookup k m ≡ none → lookup k (retain p m) ≡ none
unfolding lookup retain
retain-none p k [] h = refl
retain-none p k ((j, w) ∷ m) h = elim (Bool-cases (text_eq j k)) [
  | inl same ↦ absurd (ground (arith, rw (lookup, same) at h))
  | inr differs ↦
      let ih = retain-none p k m (rw (lookup, differs) at h) in
      elim (Bool-cases (p w)) [
        | inl keeps ↦ rw (keeps, lookup, differs) ih
        | inr drops ↦ rw drops ih
      ]
]

abbrev young : ℕ → ℕ → Bool
young now first = ltb (now - first) rate_limit_dedupe_ttl

seen-first :
    (message_id : Text) (now : ℕ) (seen : Map Text ℕ)
    → is_empty message_id ≡ false
    → lookup message_id (retain (young now) seen) ≡ none
    → rate_limit_message_seen message_id now seen
      ≡ (false, insert message_id now (retain (young now) seen))
unfolding rate_limit_message_seen
seen-first message_id now seen ne absent = rw (rate_limit_message_seen, ne, absent) refl

seen-known :
    (message_id : Text) (now first : ℕ) (seen : Map Text ℕ)
    → is_empty message_id ≡ false
    → lookup message_id (retain (young now) seen) ≡ some first
    → (rate_limit_message_seen message_id now seen).0 ≡ true
unfolding rate_limit_message_seen
seen-known message_id now first seen ne found = rw (rate_limit_message_seen, ne, found) refl

-- Within one process, a message that has been seen is known again until the dedupe time has passed,
-- and from then on counts as new.
pub rate_limit_message_seen-again :
    (message_id : Text) (now later : ℕ) (seen : Map Text ℕ)
    → is_empty message_id ≡ false
    → lookup message_id seen ≡ none
    → let first = rate_limit_message_seen message_id now seen in
      (first.0 ≡ false)
      × ((rate_limit_message_seen message_id later first.1).0
          ≡ ltb (later - now) rate_limit_dedupe_ttl)
rate_limit_message_seen-again message_id now later seen ne fresh =
    let absent = retain-none (young now) message_id seen fresh in
    let again = lookup-retain (young later) message_id now (retain (young now) seen) absent in
    let step = seen-first message_id now seen ne absent in
    (
      ap (λ r. r.0) step,
      ap (λ r. (rate_limit_message_seen message_id later r.1).0) step ∙ second again,
    )
  where
    known : Map Text ℕ
    known = insert message_id now (retain (young now) seen)

    second :
        lookup message_id (retain (young later) known)
          ≡ (if young later now then some now else none)
        → (rate_limit_message_seen message_id later known).0 ≡ young later now
    second again = elim (Bool-cases (young later now)) [
      | inl recent ↦ seen-known message_id later now known ne (rw recent at again) ∙ sym recent
      | inr old ↦ ap (λ r. r.0) (seen-first message_id later known ne (rw old at again)) ∙ sym old
    ]

module _ (db : Database) (world : World) (args : Arguments) where
  -- The first recipient does not want mail from the sender's domain.
  abbrev pub FirstUnsubscribed : Type 0
  FirstUnsubscribed =
      (primary : Text) × (others : List Text) × (args.recipients ≡ primary ∷ others)
      × (db.is_unsubscribed primary (sender_domain_of world args.sender) ≡ true)

  footer_step-is_suppressed :
      (mail : Mail) (draft : Draft)
      → (footer_step db world args mail draft).is_suppressed ≡ draft.is_suppressed
  unfolding footer_step
  footer_step-is_suppressed mail draft = ground arith

  spambl_step-is_suppressed :
      (email : Text) (draft : Draft)
      → (spambl_step db world args email draft).is_suppressed ≡ draft.is_suppressed
  unfolding spambl_step
  spambl_step-is_suppressed email draft = ground arith

  tracking_step-is_suppressed :
      (mail : Mail) (draft : Draft) (st : State)
      → (tracking_step db world args mail (draft, st)).0.is_suppressed ≡ draft.is_suppressed
  unfolding tracking_step
  tracking_step-is_suppressed mail draft st =
      elim (Bool-cases (is_tracking_enabled db.tracking_patterns db.tracking_rules mail)) [
        | inr off ↦ rw (tracking_step, off) refl
        | inl on ↦
            elim (Option-cases
              (inject_pixel draft.modified (args.pixel_base_url ++ world.pixel_id))) [
                | inl e ↦ rw (tracking_step, on, e) refl
                | inr (with_pixel, e) ↦ rw (tracking_step, on, e) refl
              ]
      ]

  unsubscribe_for-suppressed :
      (recipients : List Text) (draft : Draft) (st : State)
      → args.recipients ≡ recipients
      → draft.is_suppressed ≡ false
      → (unsubscribe_for db world args recipients
          (sender_domain_of world args.sender)
          (draft, st)).0.is_suppressed
        ≡ true
      → FirstUnsubscribed
  unfolding unsubscribe_for
  unsubscribe_for-suppressed [] draft st same fresh h = cc
  unsubscribe_for-suppressed (primary ∷ others) draft st same fresh h =
      elim (Bool-cases (db.is_unsubscribed primary (sender_domain_of world args.sender))) [
        | inl gone ↦ (primary, others, same, gone)
        | inr there ↦ absurd (ground (arith, rw (there, unsubscribe_for) at h, fresh))
      ]

  unsubscribe_step-suppressed :
      (draft : Draft) (st : State)
      → draft.is_suppressed ≡ false
      → (unsubscribe_step db world args (draft, st)).0.is_suppressed ≡ true
      → FirstUnsubscribed
  unfolding unsubscribe_step
  unsubscribe_step-suppressed draft st fresh h =
      let domain = sender_domain_of world args.sender in
      let wanted =
        is_on (db.get_setting (codes "feature_unsubscribe_enabled"))
        && not (is_empty domain)
        && db.is_unsubscribe_enabled_for_domain domain
        && not (is_empty args.unsubscribe_base_url) in
      elim (Bool-cases wanted) [
        | inl on ↦
            unsubscribe_for-suppressed args.recipients draft st refl fresh
              (rw (unsubscribe_step, on) at h)
        | inr off ↦ absurd (ground (arith, rw (unsubscribe_step, off) at h, fresh))
      ]

  change-suppressed :
      (email : Text) (mail : Mail) (st : State)
      → (change db world args email mail st).0.is_suppressed ≡ true
      → FirstUnsubscribed
  unfolding change
  change-suppressed email mail st h =
      let after =
        unsubscribe_step db world args (footer_step db world args mail (untouched email), st) in
      unsubscribe_step-suppressed (footer_step db world args mail (untouched email)) st
        (footer_step-is_suppressed mail (untouched email))
        (sym (spambl_step-is_suppressed email after.0)
          ∙ sym (tracking_step-is_suppressed mail (spambl_step db world args email after.0) after.1)
          ∙ h)

  filter_limited-suppressed :
      (answer : Option Text) (email : Text) (mail : Mail) (st : State) (draft : Draft)
      → (filter_limited db world args answer email mail st).0 ≡ some draft
      → draft.is_suppressed ≡ true
      → FirstUnsubscribed
  unfolding filter_limited
  filter_limited-suppressed (some rule_name) email mail st draft e h = cc
  filter_limited-suppressed none email mail st draft e h =
      let same : (change db world args email mail st).0 ≡ draft = cc in
      change-suppressed email mail st (ap (λ d. d.is_suppressed) same ∙ h)

  -- Whatever the stages do, a mail is suppressed only for a first recipient who has unsubscribed.
  pub filter_mail-suppressed :
      (email message_id : Text) (mail : Mail) (st : State) (draft : Draft)
      → (filter_mail db world args email message_id mail st).0 ≡ some draft
      → draft.is_suppressed ≡ true
      → FirstUnsubscribed
  unfolding filter_mail
  filter_mail-suppressed email message_id mail st draft e h =
      let r = rate_step db world args message_id mail st in
      elim (Bool-cases (is_on (db.get_setting (codes "feature_filter_enabled")))) [
        | inl on ↦ filter_limited-suppressed r.0 email mail r.1 draft (rw (filter_mail, on) at e) h
        | inr off ↦
            let same : Path (Option Draft) (some (untouched email)) (some draft) =
              rw (filter_mail, off) at e in
            absurd (ground (arith, same, h))
      ]
