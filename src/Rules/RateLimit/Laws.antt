-- ===== src/Rules/RateLimit/Laws.antt =====
-- What the rate limits of db.rs promise.
use mailserver.Prelude.{
  ℕ, ◌+◌, ◌≤◌, ◌≡◌, Bool, true, false, ◌&&◌, Option, none, some, List, [], ◌∷◌, ◌++◌, ltb,
  if◌then◌else◌, Text, lookup, lookup-insert, arith, Bool-cases, inl, inr, subst, &&-eq-true,
}
use mailserver.Rules.RateLimit.Key.{CountKey, count_key_eq}
use mailserver.Rules.{Mail, evaluate_rule, with_sender_lower}
use mailserver.Rules.RateLimit.{
  RateLimitRule, Counts, count_of, count_key, upsert, check_rules, check_rate_limit,
}

abbrev pub counted : CountKey → Counts → ℕ
counted key counts = count_of (lookup key counts)

abbrev pub applies_to : RateLimitRule → Mail → Bool
applies_to rule mail = rule.enabled && evaluate_rule rule.match_mode rule.conditions mail

counted-upsert :
    (key other : CountKey) (counts : Counts)
    → (counted other counts ≤ counted other (upsert key counts).1)
      × (counted key (upsert key counts).1 ≡ counted key counts + 1)
      × ((upsert key counts).0 ≡ counted key counts + 1)
unfolding upsert
counted-upsert key other counts =
    let n = counted key counts + 1 in
    ground (
      arith,
      lookup-insert key other n counts,
      lookup-insert key key n counts,
      count_key_eq.beq_iff key other,
      count_key_eq.beq_iff key key,
    )

abbrev is_none {ℓ} : {A : Type ℓ} → Option A → Bool
is_none none = true
is_none (some a) = false

-- No check lowers a count.
counted-check_rules :
    (key : CountKey) (now : ℕ) (mail : Mail) (rules : List RateLimitRule) (counts : Counts)
    → counted key counts ≤ counted key (check_rules true now mail rules counts).1
unfolding check_rules
counted-check_rules key now mail [] counts = omega arith
counted-check_rules key now mail (rule ∷ rules) counts =
    let up = counted-upsert (count_key rule mail now) key counts in
    let next = (upsert (count_key rule mail now) counts).1 in
    elim (Bool-cases (applies_to rule mail)) [
      | inr skips ↦ rw skips (counted-check_rules key now mail rules counts)
      | inl applies ↦ rw applies (ground (arith, up, counted-check_rules key now mail rules next))
    ]

-- A mail that a rule applies to and that is let through raises the count, to at most the limit.
passes-check_rules :
    (now : ℕ) (mail : Mail) (rule : RateLimitRule) (before after : List RateLimitRule)
    (counts : Counts)
    → applies_to rule mail ≡ true
    → is_none (check_rules true now mail (before ++ rule ∷ after) counts).0 ≡ true
    → (counted (count_key rule mail now) counts + 1 ≤ rule.max_messages)
      × (counted (count_key rule mail now) counts + 1
          ≤ counted
              (count_key rule mail now)
              (check_rules true now mail (before ++ rule ∷ after) counts).1)
unfolding check_rules
passes-check_rules now mail rule [] after counts applies passes =
    let key = count_key rule mail now in
    let next = (upsert key counts).1 in
    let up = counted-upsert key key counts in
    let later = counted-check_rules key now mail after next in
    elim (Bool-cases (ltb rule.max_messages (upsert key counts).0)) [
      | inl full ↦ cc (rw (applies, full) at passes)
      | inr room ↦ rw (applies, room) (ground (arith, up, later))
    ]
passes-check_rules now mail rule (first ∷ before) after counts applies passes =
    let key = count_key rule mail now in
    let next = (upsert (count_key first mail now) counts).1 in
    let up = counted-upsert (count_key first mail now) key counts in
    elim (Bool-cases (applies_to first mail)) [
      | inr skips ↦
          rw skips
            (passes-check_rules now mail rule before after counts applies (rw skips at passes))
      | inl hits ↦
          elim (Bool-cases (ltb first.max_messages (upsert (count_key first mail now) counts).0)) [
            | inl full ↦ cc (rw (hits, full) at passes)
            | inr room ↦
                let ih =
                  passes-check_rules now mail rule before after next applies
                    (rw (hits, room) at passes) in
                rw (hits, room) (omega (arith, up, ih))
          ]
    ]

-- A mail that is let through although the rule applies to it, in this window and of this sender.
abbrev pub let_through : RateLimitRule → CountKey → Mail → ℕ → Option Text → Bool
let_through rule key mail now answer =
    is_none answer && applies_to rule mail && count_key_eq.beq (count_key rule mail now) key

-- How many such mails a sequence of checks lets through.
unfoldable pub passed : List RateLimitRule → RateLimitRule → CountKey → List (Mail × ℕ) → Counts → ℕ
passed rules rule key [] counts = 0
passed rules rule key ((mail, now) ∷ mails) counts =
    let (answer, counts') = check_rate_limit true now rules mail counts in
    (if let_through rule key (with_sender_lower mail) now answer then 1 else 0)
    + passed rules rule key mails counts'

let_through-counted :
    (now : ℕ) (mail : Mail) (rule : RateLimitRule) (before after : List RateLimitRule)
    (key : CountKey) (counts : Counts)
    → let r = check_rules true now mail (before ++ rule ∷ after) counts in
      let_through rule key mail now r.0 ≡ true
      → (counted key counts + 1 ≤ rule.max_messages) × (counted key counts + 1 ≤ counted key r.1)
let_through-counted now mail rule before after key counts h =
    let r = check_rules true now mail (before ++ rule ∷ after) counts in
    let (p, q) = &&-eq-true (is_none r.0 && applies_to rule mail) _ h in
    let (passes, applies) = &&-eq-true (is_none r.0) (applies_to rule mail) p in
    subst (λ k. (counted k counts + 1 ≤ rule.max_messages) × (counted k counts + 1 ≤ counted k r.1))
      ((count_key_eq.beq_iff (count_key rule mail now) key).0 q)
      (passes-check_rules now mail rule before after counts applies passes)

passed_from :
    (before after : List RateLimitRule) (rule : RateLimitRule) (key : CountKey)
    (mails : List (Mail × ℕ)) (counts : Counts) (n : ℕ)
    → n ≤ counted key counts
    → n ≤ rule.max_messages
    → n + passed (before ++ rule ∷ after) rule key mails counts ≤ rule.max_messages
unfolding passed check_rate_limit
passed_from before after rule key [] counts n few fits = omega arith
passed_from before after rule key ((mail, now) ∷ mails) counts n few fits =
    let lower = with_sender_lower mail in
    let r = check_rules true now lower (before ++ rule ∷ after) counts in
    let grows = counted-check_rules key now lower (before ++ rule ∷ after) counts in
    elim (Bool-cases (let_through rule key lower now r.0)) [
      | inr not_counted ↦ rw not_counted (
          omega (
            arith,
            grows,
            passed_from before after rule key mails r.1 n (omega (arith, grows)) fits,
          ))
      | inl counts_it ↦
          let step = let_through-counted now lower rule before after key counts counts_it in
          rw counts_it (
            omega (
              arith,
              passed_from before after rule key mails r.1 (n + 1) (omega (arith, step))
                  (omega (arith, step)),
            ))
    ]

-- As long as the counting statements succeed, a rate-limit rule is kept: of the mails that it
-- applies to, no more than its maximum are let through for one sender in one window, whatever the
-- other rules and mails are.
pub passed_within_limit :
    (before after : List RateLimitRule) (rule : RateLimitRule) (key : CountKey)
    (mails : List (Mail × ℕ)) (counts : Counts)
    → passed (before ++ rule ∷ after) rule key mails counts ≤ rule.max_messages
passed_within_limit before after rule key mails counts =
    omega (arith, passed_from before after rule key mails counts 0 (omega arith) (omega arith))
