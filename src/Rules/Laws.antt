-- ===== src/Rules/Laws.antt =====
-- What the rules of db.rs promise.
use mailserver.Prelude.{
  ℕ, ◌<◌, ◌≤◌, ◌≡◌, refl, ◌↔◌, true, false, some, [], ◌∷◌, ◌++◌, arith, Text, codes, text_eq,
  text_eq_iff, ends_with, strip_prefix, trim, to_ascii_lowercase, usize_max, parse_unsigned,
  parse_unsigned-to_string, Lacks, contains_char,
}
use mailserver.Rules.{
  TrackingCondition, Mail, matches_from_pattern, field_value, apply_operator, parse_or_zero,
  evaluate_condition,
}

ends_with-Lacks : (at : ℕ) (p s : Text) → Lacks at s → ends_with (at ∷ p) s ≡ false
unfolding ends_with text_eq contains_char
ends_with-Lacks at p [] h = refl
ends_with-Lacks at p (c ∷ s) h = ground (arith, ends_with-Lacks at p s)

text_eq-Lacks :
    (at : ℕ) (p local domain : Text) → Lacks at p → text_eq p (local ++ at ∷ domain) ≡ false
unfolding text_eq contains_char
text_eq-Lacks at [] [] domain h = refl
text_eq-Lacks at [] (c ∷ local) domain h = refl
text_eq-Lacks at (x ∷ p) [] domain h = ground arith
text_eq-Lacks at (x ∷ p) (c ∷ local) domain h = ground (arith, text_eq-Lacks at p local domain)

ends_with-at :
    (at : ℕ) (p local domain : Text)
    → Lacks at p
    → Lacks at domain
    → (ends_with (at ∷ p) (local ++ at ∷ domain) ≡ true) ↔ (p ≡ domain)
unfolding ends_with text_eq contains_char
ends_with-at at p [] domain h k =
    ground (arith, text_eq_iff p domain, ends_with-Lacks at p domain k)
ends_with-at at p (c ∷ local) domain h k =
    ground (arith, text_eq-Lacks at p local domain h, ends_with-at at p local domain h k)

abbrev pub size_condition : Text → Text → TrackingCondition
size_condition operator value = record { field = codes "size"; operator = operator; value = value }

-- A condition on the size of a mail whose value is a number compares the two numbers; a size that a
-- machine word holds is never misread.
pub evaluate_condition-size :
    (value : Text) (threshold : ℕ) (mail : Mail)
    → mail.size_bytes ≤ usize_max
    → parse_unsigned usize_max (to_ascii_lowercase value) ≡ some threshold
    → ((evaluate_condition (size_condition (codes "larger_than") value) mail ≡ true)
        ↔ (threshold < mail.size_bytes))
      × ((evaluate_condition (size_condition (codes "smaller_than") value) mail ≡ true)
          ↔ (mail.size_bytes < threshold))
unfolding evaluate_condition field_value apply_operator parse_or_zero text_eq
evaluate_condition-size value threshold mail fits e =
    let size = parse_unsigned-to_string mail.size_bytes fits in rw (e, size) (ground arith)

-- A pattern `*@domain` matches exactly the senders at that domain, in whatever case the pattern is
-- written; the sender comes in lower case here.
pub matches_from_pattern-domain :
    (pattern domain local sender_domain : Text)
    → to_ascii_lowercase (trim pattern) ≡ b'*' ∷ b'@' ∷ domain
    → Lacks b'@' domain
    → Lacks b'@' sender_domain
    → (matches_from_pattern pattern (local ++ b'@' ∷ sender_domain) ≡ true)
      ↔ (domain ≡ sender_domain)
unfolding matches_from_pattern text_eq strip_prefix
matches_from_pattern-domain pattern domain local sender_domain e h k =
    rw e (ends_with-at b'@' domain local sender_domain h k)
