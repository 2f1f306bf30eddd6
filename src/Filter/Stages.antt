-- ===== src/Filter/Stages.antt =====
-- The stages of `run_filter` of filter.rs, with `rate_limit_message_seen`: the rate limits and the
-- changes to the mail. The answers of the database are those at the time of the run; the webhook
-- thread and the log are left out.
use mailserver.Prelude.{
  ℕ, ◌-◌, ◌*◌, Bool, true, false, not, ◌&&◌, Option, none, some, List, [], ◌∷◌, ◌++◌, map, ltb,
  if◌then◌else◌, Text, codes, text_eq, is_empty, is_ascii_uppercase, split_char, Map, lookup,
  insert, retain, text_eq_instance, any,
}
use mailserver.Rules.{TrackingRule, Mail, is_tracking_enabled, is_footer_enabled}
use mailserver.Rules.RateLimit.{RateLimitRule, Counts, check_rate_limit}
use mailserver.Filter.Headers.{
  inject_headers, extract_header, strip_dkim_signatures, extract_sender_ip, to_lowercase, crlf,
}
use mailserver.Filter.Body.{inject_footer, inject_pixel}
use mailserver.Filter.Junk.{move_recipient_to_junk, trim_end_slash}
use mailserver.Filter.Smtp.{ErrorKind, timed_out, would_block, Result, ok, err, Wire, reinject_smtp}
pub mod Laws

-- What the run reads from the database.
pub record Database : Type 0 where
  pub get_setting : Text → Option Text
  pub list_rate_limit_rules : List RateLimitRule
  pub online : Bool
  pub tracking_patterns : List Text
  pub tracking_rules : List TrackingRule
  pub footer_patterns : List Text
  pub footer_rules : List TrackingRule
  pub is_unsubscribe_enabled_for_domain : Text → Bool
  pub is_unsubscribed : Text → Text → Bool
  pub list_enabled_spambl_hostnames : List Text

-- The rest of the surroundings: `str::to_lowercase` over the whole of Unicode, clocks, fresh
-- identifiers, the DNS, the file system, and the two connections that a run can open.
pub record World : Type 0 where
  pub to_lowercase : Text → Text
  pub now : ℕ
  pub now_secs : ℕ
  pub unsubscribe_token : Text
  pub pixel_id : Text
  pub check_rbl : Text → Text → Bool
  pub create_dir : Text → Bool
  pub chown : Text → Bool
  pub connected : Result (Unit {0})
  pub wire : Wire
  pub connected_again : Result (Unit {0})
  pub wire_again : Wire

pub record Arguments : Type 0 where
  pub sender : Text
  pub recipients : List Text
  pub pixel_base_url : Text
  pub unsubscribe_base_url : Text
  pub incoming : Bool

-- The registry of the process and the rows that a run writes.
pub record State : Type 0 where
  pub seen : Map Text ℕ
  pub counts : Counts
  pub unsubscribe_tokens : List (Text × Text × Text)
  pub tracked_messages : List (Text × Text × Text × Text)

abbrev rate_limit_dedupe_ttl : ℕ
rate_limit_dedupe_ttl = 86400 * 1_000_000_000

abbrev seen_in : Option ℕ → Text → ℕ → Map Text ℕ → Bool × Map Text ℕ
seen_in (some first) message_id now seen = (true, seen)
seen_in none message_id now seen = (false, insert message_id now seen)

unfoldable pub rate_limit_message_seen : Text → ℕ → Map Text ℕ → Bool × Map Text ℕ
unfolding is_empty lookup insert retain
rate_limit_message_seen message_id now seen =
    if is_empty message_id
    then (false, seen)
    else let seen = retain (λ first. ltb (now - first) rate_limit_dedupe_ttl) seen in
      seen_in (lookup message_id seen) message_id now seen

abbrev is_on : Option Text → Bool
is_on none = true
is_on (some v) = not (text_eq v (codes "false"))

abbrev pub or_empty : Option Text → Text
or_empty none = []
or_empty (some s) = s

abbrev pub first_or_empty : List Text → Text
first_or_empty [] = []
first_or_empty (r ∷ rs) = r

abbrev second_or_empty : List Text → Text
second_or_empty (a ∷ b ∷ ws) = b
second_or_empty _ = []

unfoldable pub sender_domain_of : World → Text → Text
unfolding split_char
sender_domain_of world sender = world.to_lowercase (second_or_empty (split_char b'@' sender))

-- The mail as the filter changes it.
pub record Draft : Type 0 where
  pub modified : Text
  pub is_suppressed : Bool
  pub spambl_hit : Bool

abbrev pub untouched : Text → Draft
untouched email = record { modified = email; is_suppressed = false; spambl_hit = false }

module _ (db : Database) (world : World) (args : Arguments) where
  unfoldable pub footer_step : Mail → Draft → Draft
  unfolding is_footer_enabled is_empty inject_footer
  footer_step mail draft =
      let footer_html =
        if is_footer_enabled db.footer_patterns db.footer_rules mail
        then or_empty (db.get_setting (codes "footer_html"))
        else [] in
      if is_empty footer_html
      then draft
      else record draft { modified = inject_footer draft.modified footer_html }

  unfoldable pub unsubscribe_headers : Text
  unsubscribe_headers =
      codes "List-Unsubscribe: <"
      ++ (trim_end_slash args.unsubscribe_base_url
          ++ (codes "/unsubscribe?token="
              ++ (world.unsubscribe_token
                  ++ (codes ">"
                      ++ (crlf ++ codes "List-Unsubscribe-Post: List-Unsubscribe=One-Click")))))

  unsubscribe_for : List Text → Text → Draft × State → Draft × State
  unfolding inject_headers unsubscribe_headers
  unsubscribe_for [] domain (draft, st) = (draft, st)
  unsubscribe_for (primary ∷ others) domain (draft, st) =
      if db.is_unsubscribed primary domain then (record draft { is_suppressed = true }, st) else (
        record draft { modified = inject_headers draft.modified unsubscribe_headers },
        record st {
          unsubscribe_tokens =
              st.unsubscribe_tokens ++ (world.unsubscribe_token, primary, domain) ∷ [];
        },
      )

  unfoldable pub unsubscribe_step : Draft × State → Draft × State
  unfolding unsubscribe_for sender_domain_of is_empty
  unsubscribe_step (draft, st) =
      let domain = sender_domain_of world args.sender in
      if is_on (db.get_setting (codes "feature_unsubscribe_enabled"))
        && not (is_empty domain)
        && db.is_unsubscribe_enabled_for_domain domain
        && not (is_empty args.unsubscribe_base_url)
      then unsubscribe_for args.recipients domain (draft, st)
      else (draft, st)

  abbrev is_listed : Option Text → Bool
  is_listed none = false
  is_listed (some ip) = any (λ host. world.check_rbl ip host) db.list_enabled_spambl_hostnames

  unfoldable pub spambl_step : Text → Draft → Draft
  unfolding extract_sender_ip inject_headers
  spambl_step email draft =
      if is_listed (extract_sender_ip email)
      then record draft {
        modified = inject_headers draft.modified (codes "X-Spam-Flag: YES");
        spambl_hit = true;
      }
      else draft

  unfoldable pub tracking_step : Mail → Draft × State → Draft × State
  unfolding is_tracking_enabled inject_pixel
  tracking_step mail (draft, st) =
      if is_tracking_enabled db.tracking_patterns db.tracking_rules mail
      then elim (inject_pixel draft.modified (args.pixel_base_url ++ world.pixel_id)) [
        | none ↦ (draft, st)
        | some with_pixel ↦ (
          record draft { modified = with_pixel },
          record st {
            tracked_messages =
                st.tracked_messages
                ++ (world.pixel_id, args.sender, first_or_empty args.recipients, mail.subject) ∷ [];
          },
        )
      ]
      else (draft, st)

  -- The changes to a mail that is within its rate limits, in their order.
  unfoldable pub change : Text → Mail → State → Draft × State
  unfolding footer_step unsubscribe_step spambl_step tracking_step
  change email mail st =
      let (draft, st) = unsubscribe_step (footer_step mail (untouched email), st) in
      tracking_step mail (spambl_step email draft, st)

  -- The answer of the rate limits, and what a first sight of the message writes.
  unfoldable pub rate_step : Text → Mail → State → Option Text × State
  unfolding rate_limit_message_seen check_rate_limit
  rate_step message_id mail st =
      let (was_seen, seen) = rate_limit_message_seen message_id world.now st.seen in
      let (answer, counts) =
        check_rate_limit db.online world.now_secs db.list_rate_limit_rules mail st.counts in
      if was_seen
      then (none, record st { seen = seen })
      else (answer, record st { seen = seen; counts = counts })

  -- `none` is the exit with EX_TEMPFAIL.
  filter_limited : Option Text → Text → Mail → State → Option Draft × State
  unfolding change
  filter_limited (some rule_name) email mail st = (none, st)
  filter_limited none email mail st = let (draft, st) = change email mail st in (some draft, st)

  unfoldable pub filter_mail : Text → Text → Mail → State → Option Draft × State
  unfolding rate_step filter_limited
  filter_mail email message_id mail st =
      let (answer, st') = rate_step message_id mail st in
      if is_on (db.get_setting (codes "feature_filter_enabled"))
      then filter_limited answer email mail st'
      else (some (untouched email), st)
