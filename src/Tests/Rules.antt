-- ===== src/Tests/Rules.antt =====
-- Runs of the rules of db.rs at concrete mails.
use mailserver.Prelude.{insert, lookup, ◌≤◌, ◌≡◌, refl, true, [], ◌∷◌, codes}
use mailserver.Rules.{TrackingCondition, Mail}
use mailserver.Rules.RateLimit.{RateLimitRule, check_rate_limit, count_key}
use mailserver.Rules.RateLimit.Laws.{passed, passed_within_limit}
use mailserver.Rules.RateLimit.{window_start}

abbrev mail : Mail
mail = record {
  sender = codes "ann@example.org";
  recipient = codes "bob@example.net";
  subject = codes "Report";
  size_bytes = 2000;
}

abbrev from_ann : TrackingCondition
from_ann = record { field = codes "sender"; operator = codes "starts_with"; value = codes "ANN@" }

abbrev one_a_minute : RateLimitRule
one_a_minute = record {
  id = 7;
  name = codes "slow";
  match_mode = codes "AND";
  conditions = from_ann ∷ [];
  max_messages = 1;
  window_seconds = 60;
  enabled = true;
}

-- The first of two mails in one minute passes, and one of the next minute.
passes_two :
    passed
      (one_a_minute ∷ [])
      one_a_minute
      (count_key one_a_minute mail 120)
      ((mail, 121) ∷ (mail, 130) ∷ (mail, 185) ∷ [])
      []
    ≡ 1
unfolding passed check_rate_limit lookup window_start insert
passes_two = refl

passed_within_limit_example :
    passed
      (one_a_minute ∷ [])
      one_a_minute
      (count_key one_a_minute mail 120)
      ((mail, 121) ∷ (mail, 130) ∷ [])
      []
    ≤ 1
passed_within_limit_example =
    passed_within_limit [] [] one_a_minute (count_key one_a_minute mail 120)
      ((mail, 121) ∷ (mail, 130) ∷ []) []
