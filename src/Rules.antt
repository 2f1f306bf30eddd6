-- ===== src/Rules.antt =====
-- The rules of db.rs that decide on a mail: the sender patterns and conditions of
-- `matches_from_pattern`, `evaluate_condition` and `evaluate_rule`, and what tracking, footers and
-- rate limits make of them.
use mailserver.Prelude.{
  ℕ, Bool, true, false, not, ◌||◌, Option, none, some, List, [], ◌∷◌, ltb, if◌then◌else◌, all, any,
  Text, codes, text_eq, to_ascii_lowercase, trim, strip_prefix, contains, starts_with, ends_with,
  to_string, parse_unsigned, usize_max,
}
pub mod Laws
pub mod RateLimit

pub record TrackingCondition : Type 0 where
  pub field : Text
  pub operator : Text
  pub value : Text

-- `TrackingRule` and `FooterRule`, less the columns that no decision reads.
pub record TrackingRule : Type 0 where
  pub match_mode : Text
  pub conditions : List TrackingCondition

-- What a rule looks at.
pub record Mail : Type 0 where
  pub sender : Text
  pub recipient : Text
  pub subject : Text
  pub size_bytes : ℕ

unfoldable pub matches_from_pattern : Text → Text → Bool
unfolding trim to_ascii_lowercase text_eq strip_prefix ends_with
matches_from_pattern pattern sender =
    let p = to_ascii_lowercase (trim pattern) in
    if text_eq p (codes "*") then true else elim (strip_prefix (codes "*@") p) [
      | some domain ↦ ends_with (b'@' ∷ domain) sender
      | none ↦ text_eq p sender
    ]

-- `none` is a field that no mail has.
unfoldable pub field_value : Text → Mail → Option Text
unfolding text_eq to_ascii_lowercase to_string
field_value field mail =
    if text_eq field (codes "sender")
    then some (to_ascii_lowercase mail.sender)
    else if text_eq field (codes "recipient")
    then some (to_ascii_lowercase mail.recipient)
    else if text_eq field (codes "subject")
    then some (to_ascii_lowercase mail.subject)
    else if text_eq field (codes "size")
    then some (to_string mail.size_bytes)
    else none

abbrev unwrap_or_zero : Option ℕ → ℕ
unwrap_or_zero none = 0
unwrap_or_zero (some n) = n

-- `parse().unwrap_or(0)`
unfoldable pub parse_or_zero : Text → ℕ
unfolding parse_unsigned
parse_or_zero s = unwrap_or_zero (parse_unsigned usize_max s)

unfoldable pub apply_operator : Text → Text → Text → Bool
unfolding text_eq contains starts_with ends_with parse_or_zero
apply_operator operator field_value cond_value =
    if text_eq operator (codes "contains")
    then contains cond_value field_value
    else if text_eq operator (codes "not_contains")
    then not (contains cond_value field_value)
    else if text_eq operator (codes "equals")
    then text_eq field_value cond_value
    else if text_eq operator (codes "not_equals")
    then not (text_eq field_value cond_value)
    else if text_eq operator (codes "starts_with")
    then starts_with cond_value field_value
    else if text_eq operator (codes "ends_with")
    then ends_with cond_value field_value
    else if text_eq operator (codes "larger_than")
    then ltb (parse_or_zero cond_value) (parse_or_zero field_value)
    else if text_eq operator (codes "smaller_than")
    then ltb (parse_or_zero field_value) (parse_or_zero cond_value)
    else false

unfoldable pub evaluate_condition : TrackingCondition → Mail → Bool
unfolding field_value apply_operator to_ascii_lowercase
evaluate_condition condition mail = elim (field_value condition.field mail) [
  | none ↦ false
  | some v ↦ apply_operator condition.operator v (to_ascii_lowercase condition.value)
]

abbrev no_conditions : List TrackingCondition → Bool
no_conditions [] = true
no_conditions (c ∷ cs) = false

unfoldable pub evaluate_rule : Text → List TrackingCondition → Mail → Bool
unfolding text_eq evaluate_condition
evaluate_rule match_mode conditions mail =
    if no_conditions conditions
    then false
    else if text_eq match_mode (codes "OR")
    then any (λ c. evaluate_condition c mail) conditions
    else all (λ c. evaluate_condition c mail) conditions

-- `mail` as the rules see it: with the sender in lower case.
abbrev pub with_sender_lower : Mail → Mail
with_sender_lower mail = record mail { sender = to_ascii_lowercase mail.sender }

-- `is_tracking_enabled`, and `is_footer_enabled`, whose body is the same on the footer tables.
unfoldable pub is_tracking_enabled : List Text → List TrackingRule → Mail → Bool
unfolding matches_from_pattern evaluate_rule to_ascii_lowercase
is_tracking_enabled patterns rules mail =
    if any (λ p. matches_from_pattern p (to_ascii_lowercase mail.sender)) patterns
    then true
    else any (λ r. evaluate_rule r.match_mode r.conditions (with_sender_lower mail)) rules

unfoldable pub is_footer_enabled : List Text → List TrackingRule → Mail → Bool
unfolding matches_from_pattern evaluate_rule to_ascii_lowercase
is_footer_enabled patterns rules mail =
    if any (λ p. matches_from_pattern p (to_ascii_lowercase mail.sender)) patterns
    then true
    else any (λ r. evaluate_rule r.match_mode r.conditions (with_sender_lower mail)) rules
