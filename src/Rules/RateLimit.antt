-- ===== src/Rules/RateLimit.antt =====
-- `check_rate_limit` of db.rs: fixed windows, counted for each rule and sender in a table.
use mailserver.Prelude.{
  ℕ, ◌+◌, ◌*◌, ◌/◌, Bool, true, false, not, ◌&&◌, Option, none, some, List, [], ◌∷◌, ltb, ◌==◌,
  if◌then◌else◌, Text, text_eq, Map, lookup, insert, Eq,
}
use mailserver.Rules.RateLimit.Key.{CountKey, count_key_eq}
use mailserver.Rules.{TrackingCondition, Mail, evaluate_rule, with_sender_lower}
pub mod Key
pub mod Laws

-- Less the columns that the check does not read. The forms keep both numbers at one or more.
pub record RateLimitRule : Type 0 where
  pub id : ℕ
  pub name : Text
  pub match_mode : Text
  pub conditions : List TrackingCondition
  pub max_messages : ℕ
  pub window_seconds : ℕ
  pub enabled : Bool

-- The table rate_limit_counts with its unique key.
abbrev pub Counts : Type 0
Counts = Map CountKey ℕ

abbrev pub count_of : Option ℕ → ℕ
count_of none = 0
count_of (some n) = n

-- A window is written by its start: the greatest multiple of its length up to now.
unfoldable pub window_start : ℕ → ℕ → ℕ
window_start window_seconds now_secs = now_secs / window_seconds * window_seconds

abbrev pub count_key : RateLimitRule → Mail → ℕ → CountKey
count_key rule mail now_secs = record {
  rule_id = rule.id;
  sender = mail.sender;
  window_start = window_start rule.window_seconds now_secs;
}

-- `INSERT ... ON CONFLICT DO UPDATE SET count = count + 1 RETURNING count`
unfoldable pub upsert : CountKey → Counts → ℕ × Counts
upsert key counts = let count = count_of (lookup key counts) + 1 in (count, insert key count counts)

-- The loop over the rules, `mail` with its sender in lower case. `online` is false where the
-- statement fails: the count is then taken for zero.
unfoldable pub check_rules : Bool → ℕ → Mail → List RateLimitRule → Counts → Option Text × Counts
unfolding evaluate_rule upsert
check_rules online now_secs mail [] counts = (none, counts)
check_rules online now_secs mail (rule ∷ rules) counts =
    let applies = rule.enabled && evaluate_rule rule.match_mode rule.conditions mail in
    let (count, counts') =
      if applies && online then upsert (count_key rule mail now_secs) counts else (0, counts) in
    let rest = check_rules online now_secs mail rules counts' in
    if applies && ltb rule.max_messages count then (some rule.name, counts') else rest

unfoldable pub check_rate_limit :
    Bool → ℕ → List RateLimitRule → Mail → Counts → Option Text × Counts
unfolding check_rules
check_rate_limit online now_secs rules mail counts =
    check_rules online now_secs (with_sender_lower mail) rules counts
