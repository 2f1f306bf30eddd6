-- ===== src/Filter/Pipeline.antt =====
-- `run_filter` of filter.rs: the whole run for one message, from the decoded text to the exit.
use mailserver.Prelude.{
  ℕ, Bool, true, false, ◌&&◌, Option, none, some, List, [], ◌∷◌, map, if◌then◌else◌, Text, codes,
  text_eq,
}
use mailserver.Rules.{Mail}
use mailserver.Filter.Headers.{extract_header, strip_dkim_signatures}
use mailserver.Filter.Junk.{move_recipient_to_junk}
use mailserver.Filter.Smtp.{ErrorKind, timed_out, would_block, Result, ok, err, Wire, reinject_smtp}
use mailserver.Filter.Stages.{
  Database, World, Arguments, State, Draft, untouched, or_empty, first_or_empty, filter_mail,
}
pub mod Laws

-- How a run ends, with what has been sent where a message was.
pub data Exit : Type 0 where
  reinjected fallback_reinjected : Wire → Exit
  suppressed tempfail panicked : Exit

abbrev or_same : Text → Option Text → Text
or_same rcpt none = rcpt
or_same rcpt (some junk) = junk

unfoldable pub target_recipients : World → Arguments → Bool → List Text
unfolding move_recipient_to_junk
target_recipients world args spambl_hit =
    if args.incoming && spambl_hit
    then map
        (λ rcpt.
          or_same rcpt
            (move_recipient_to_junk world.create_dir world.chown rcpt (codes "/data/mail")))
        args.recipients
    else args.recipients

abbrev is_timeout : ErrorKind → Bool
is_timeout timed_out = true
is_timeout would_block = true
is_timeout _ = false

answer_fallback : Result (Unit {0}) × Wire → Exit
answer_fallback (ok u, wire) = fallback_reinjected wire
answer_fallback (err e, wire) = tempfail

answer_reinject : Result (Unit {0}) × Wire → Exit → Exit
answer_reinject (ok u, wire) fallback = reinjected wire
answer_reinject (err e, wire) fallback = if is_timeout e then tempfail else fallback

-- The message as changed, and the unmodified one if that fails other than by a timeout.
unfoldable pub reinject : World → Text → List Text → Text → Text → Exit
unfolding reinject_smtp answer_reinject answer_fallback
reinject world sender recipients email modified =
    answer_reinject (reinject_smtp world.connected modified sender recipients world.wire) (
      answer_fallback
        (reinject_smtp world.connected_again email sender recipients world.wire_again))

-- The signatures of a changed mail are stripped; `none` is a panic.
unfoldable pub without_signatures : Text → Text → Option Text
unfolding text_eq strip_dkim_signatures
without_signatures email modified =
    if text_eq modified email then some modified else strip_dkim_signatures modified

deliver : World → Arguments → Text → Draft → Option Text → Exit
unfolding target_recipients reinject
deliver world args email draft none = panicked
deliver world args email draft (some modified) =
    if draft.is_suppressed
    then suppressed
    else reinject world args.sender (target_recipients world args draft.spambl_hit) email modified

unfoldable pub finish : World → Arguments → Text → Option Draft → Exit
unfolding without_signatures deliver
finish world args email none = tempfail
finish world args email (some draft) =
    deliver world args email draft (without_signatures email draft.modified)

infixl 5 ◌>>=◌
abbrev ◌>>=◌ : {A B : Type 0} → Option A → (A → Option B) → Option B
none >>= f = none
some a >>= f = f a

-- The subject and the message identifier; the run reads the other headers only for the webhook.
unfoldable pub read_headers : Text → Option (Text × Text)
unfolding extract_header
read_headers email = do
  subject ← extract_header email (codes "Subject")
  from ← extract_header email (codes "From")
  to ← extract_header email (codes "To")
  cc_ ← extract_header email (codes "Cc")
  date ← extract_header email (codes "Date")
  message_id ← extract_header email (codes "Message-ID")
  some (or_empty subject, or_empty message_id)

-- `opened` is what opening the database gave.
unfoldable pub filter_or_pass :
    Option Database → World → Arguments → Text → Text → Mail → State → Option Draft × State
unfolding filter_mail
filter_or_pass none world args email message_id mail st = (some (untouched email), st)
filter_or_pass (some db) world args email message_id mail st =
    filter_mail db world args email message_id mail st

unfoldable pub run_with_headers :
    Option Database → World → Arguments → Text → ℕ → Option (Text × Text) → State → Exit × State
unfolding filter_or_pass finish
run_with_headers opened world args email size_bytes none st = (panicked, st)
run_with_headers opened world args email size_bytes (some (subject, message_id)) st =
    let mail : Mail = record {
      sender = args.sender;
      recipient = first_or_empty args.recipients;
      subject = subject;
      size_bytes = size_bytes;
    } in
    let (draft, st) = filter_or_pass opened world args email message_id mail st in
    (finish world args email draft, st)

-- The input is the decoded text of the message and how many bytes it had, `none` where reading it
-- fails.
unfoldable pub run_filter :
    Option Database → World → Arguments → Option (Text × ℕ) → State → Exit × State
unfolding run_with_headers read_headers
run_filter opened world args none st = (tempfail, st)
run_filter opened world args (some (email, size_bytes)) st =
    run_with_headers opened world args email size_bytes (read_headers email) st
