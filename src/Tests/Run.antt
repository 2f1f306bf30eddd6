-- ===== src/Tests/Run.antt =====
-- Runs of the insertions and of the whole content filter of filter.rs at concrete mails.
use mailserver.Prelude.{
  ◌≡◌, refl, ◌⊎◌, true, false, none, some, [], ◌∷◌, ◌++◌, Text, codes, contains, to_ascii_lowercase,
  byte_len,
}
use mailserver.Filter.Body.{inject_footer, footer_block, strip_html_tags}
use mailserver.Filter.Body.Encoded.{IsEncodedAt}
use mailserver.Filter.Body.Laws.{IsTagAt, IsLeft, inject_footer-keeps}
use mailserver.Filter.Smtp.{other, err, other, Wire}
use mailserver.Filter.Stages.{Database, World, Arguments, State}
use mailserver.Filter.Stages.Laws.{FirstUnsubscribed}
use mailserver.Filter.Pipeline.{read_headers, filter_or_pass, run_filter}
use mailserver.Filter.Pipeline.Laws.{Account, mail_of, run_filter-Account, run_filter-suppressed}

abbrev html : Text
html = codes "A: 1\n\n<html><body>x</BODY></html>"

puts_footer_in :
    inject_footer (codes "A: 1\n\nx") (codes "<b>bye</b>") ≡ codes "A: 1\n\nx\n\n-- \nbye"
unfolding inject_footer
puts_footer_in = refl

inject_footer-keeps_example :
    ((inject_footer html (codes "<b>bye</b>") ≡ html) × IsLeft html (codes "<b>bye</b>"))
    ⊎ ((before : Text) × (rest : Text) × IsTagAt html before rest
        × (¬ IsEncodedAt html (byte_len before))
        × (inject_footer html (codes "<b>bye</b>")
            ≡ before ++ (footer_block (codes "<b>bye</b>") ++ rest)))
    ⊎ ((contains (codes "<html") (to_ascii_lowercase html) ≡ false)
        × (¬ IsEncodedAt html (byte_len html))
        × (inject_footer html (codes "<b>bye</b>")
            ≡ html ++ (codes "\n\n-- \n" ++ strip_html_tags (codes "<b>bye</b>"))))
inject_footer-keeps_example = inject_footer-keeps html (codes "<b>bye</b>")

abbrev with_pixel : Text
with_pixel =
    codes
      "A: 1\n\n<html><body>x<img src=\"u\" width=\"1\" height=\"1\" style=\"display:none\" alt=\"\" /></BODY></html>"

abbrev closed : Wire
closed = record {
  incoming = [];
  outgoing = [];
  writable = 0;
  write_error = other;
  cut = 0;
  unfinished = [];
}

abbrev world : World
world = record {
  to_lowercase = to_ascii_lowercase;
  now = 0;
  now_secs = 0;
  unsubscribe_token = codes "t";
  pixel_id = codes "p";
  check_rbl = λ ip host. false;
  create_dir = λ d. true;
  chown = λ d. true;
  connected = err other;
  wire = closed;
  connected_again = err other;
  wire_again = closed;
}

abbrev db : Database
db = record {
  get_setting = λ key. none;
  list_rate_limit_rules = [];
  online = true;
  tracking_patterns = [];
  tracking_rules = [];
  footer_patterns = [];
  footer_rules = [];
  is_unsubscribe_enabled_for_domain = λ domain. true;
  is_unsubscribed = λ email domain. true;
  list_enabled_spambl_hostnames = [];
}

abbrev args : Arguments
args = record {
  sender = codes "news@b.c";
  recipients = codes "ann@d.e" ∷ codes "bob@d.e" ∷ [];
  pixel_base_url = codes "u/";
  unsubscribe_base_url = codes "https://b.c";
  incoming = false;
}

abbrev start : State
start = record { seen = []; counts = []; unsubscribe_tokens = []; tracked_messages = [] }

abbrev message : Text
message = codes "Subject: hi\n\nx"

run_filter-Account_example :
    (subject : Text) × (message_id : Text) × (read_headers message ≡ some (subject, message_id))
    × Account world args message
        (filter_or_pass (some db) world args message message_id (mail_of args subject 14) start).0
        (run_filter (some db) world args (some (message, 14)) start).0
run_filter-Account_example = run_filter-Account (some db) world args message 14 start

-- The second recipient has no say: the message is dropped for both.
run_filter-suppressed_example : (d : Database) × (some db ≡ some d) × FirstUnsubscribed d world args
unfolding run_filter
run_filter-suppressed_example = run_filter-suppressed (some db) world args message 14 start refl
