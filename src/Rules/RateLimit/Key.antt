-- ===== src/Rules/RateLimit/Key.antt =====
-- The unique key of the table rate_limit_counts of db.rs.
use mailserver.Prelude.{ℕ, ◌≡◌, ◌↔◌, Bool, true, ◌&&◌, ◌==◌, arith, Text, text_eq, text_eq_iff, Eq}

pub record CountKey : Type 0 where
  pub rule_id : ℕ
  pub sender : Text
  pub window_start : ℕ

abbrev key_eq : CountKey → CountKey → Bool
key_eq a b = a.rule_id == b.rule_id && text_eq a.sender b.sender && a.window_start == b.window_start

pub key_eq_iff : (a b : CountKey) → (key_eq a b ≡ true) ↔ (a ≡ b)
key_eq_iff a b = ground (arith, text_eq_iff a.sender b.sender)

instance abbrev pub count_key_eq : Eq CountKey
count_key_eq = record { beq = key_eq; beq_iff = key_eq_iff }
