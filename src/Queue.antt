-- ===== src/Queue.antt =====
-- The pages of the mail queue in web/routes/queue.rs: what they run, and how the list is read. The
-- regular expression of an entry is that of a third party; which binaries exist is an argument.
pub mod Commands
use mailserver.Prelude.{
  ℕ, Bool, true, false, not, ◌&&◌, ◌||◌, Option, none, some, List, [], ◌∷◌, ◌++◌, ◌==◌, leb,
  if◌then◌else◌, Text, codes, text_eq, byte_len, is_empty, is_ascii_alphanumeric,
  to_ascii_lowercase, starts_with, split_at, split_once, rsplit_once, lines, trim, parse_unsigned,
  all,
}

pub record HeaderMap : Type 0 where
  pub host : Option Text
  pub origin : Option Text
  pub referer : Option Text

pub record World : Type 0 where
  pub postqueue_bin : Option Text
  pub postsuper_bin : Option Text

-- The status, and the commands that were run.
abbrev pub Outcome : Type 0
Outcome = ℕ × List (Text × List Text)

unfoldable pub is_valid_queue_id : Text → Bool
is_valid_queue_id id = not (is_empty id) && leb (byte_len id) 20 && all is_ascii_alphanumeric id

abbrev pub before_slash : Text → Text
before_slash rest = elim (split_once b'/' rest) [ none ↦ rest | some (a, b) ↦ a ]

abbrev pub after_at : Text → Text
after_at a = elim (rsplit_once b'@' a) [ none ↦ a | some (user, host) ↦ host ]

unfoldable pub matches_host : Text → Text → Bool
unfolding split_at split_once rsplit_once text_eq
matches_host host value = elim (split_at (codes "://") value) [
  | none ↦ false
  | some (scheme, rest) ↦
      text_eq (to_ascii_lowercase (after_at (before_slash rest))) (to_ascii_lowercase host)
]

-- Origin goes before Referer.
unfoldable pub same_origin : HeaderMap → Bool
unfolding matches_host
same_origin headers = elim headers.host [
  | none ↦ false
  | some host ↦ elim headers.origin [
    | some origin ↦ matches_host host origin
    | none ↦ elim headers.referer [ some referer ↦ matches_host host referer | none ↦ false ]
  ]
]

-- The answer is the same whatever the command says.
abbrev pub run_post_command : Option Text → List Text → Outcome
run_post_command none args = (303, [])
run_post_command (some bin) args = (303, (bin, args) ∷ [])

unfoldable pub flush : World → HeaderMap → Outcome
unfolding same_origin
flush world headers =
    if same_origin headers
    then run_post_command world.postqueue_bin (codes "-f" ∷ [])
    else (403, [])

unfoldable pub purge : World → HeaderMap → Outcome
unfolding same_origin
purge world headers =
    if same_origin headers
    then run_post_command world.postsuper_bin (codes "-d" ∷ codes "ALL" ∷ [])
    else (403, [])

unfoldable pub delete_message : World → HeaderMap → Text → Outcome
unfolding same_origin is_valid_queue_id
delete_message world headers id =
    if not (same_origin headers)
    then (403, [])
    else if is_valid_queue_id id
    then run_post_command world.postsuper_bin (codes "-d" ∷ id ∷ [])
    else (400, [])

unfoldable pub flush_message : World → HeaderMap → Text → Outcome
unfolding same_origin is_valid_queue_id
flush_message world headers id =
    if not (same_origin headers)
    then (403, [])
    else if is_valid_queue_id id
    then run_post_command world.postqueue_bin (codes "-i" ∷ id ∷ [])
    else (400, [])

pub record QueueEntry : Type 0 where
  pub id : Text
  pub size : ℕ
  pub arrival_time : Text
  pub sender : Text
  pub recipients : List Text

-- The four groups of the expression.
pub record Captures : Type 0 where
  pub id : Text
  pub size : Text
  pub arrival_time : Text
  pub sender : Text

abbrev pub u64_max : ℕ
u64_max = 18446744073709551615

abbrev pub entry_of : Captures → QueueEntry
entry_of caps = record {
  id = caps.id;
  size = elim (parse_unsigned u64_max caps.size) [ none ↦ 0 | some n ↦ n ];
  arrival_time = caps.arrival_time;
  sender = caps.sender;
  recipients = [];
}

abbrev is_ascii_whitespace : ℕ → Bool
is_ascii_whitespace c = c == b' ' || c == b'\t' || c == b'\n' || c == 12 || c == b'\r'

abbrev pub is_indented : Text → Bool
is_indented [] = false
is_indented (c ∷ s) = is_ascii_whitespace c

pub data LineKind : Type 0 where
  skipped blank : LineKind
  recipient : Text → LineKind
  start : QueueEntry → LineKind

unfoldable pub kind_of : (Text → Option Captures) → Text → LineKind
unfolding starts_with trim
kind_of captures line =
    if starts_with (codes "-") line
    then skipped
    else if is_empty (trim line)
    then blank
    else if is_indented line
    then recipient (trim line)
    else elim (captures line) [ none ↦ skipped | some caps ↦ start (entry_of caps) ]

abbrev pub flushed : Option QueueEntry → List QueueEntry → List QueueEntry
flushed none entries = entries
flushed (some e) entries = e ∷ entries

abbrev pub with_recipient : Text → Option QueueEntry → Option QueueEntry
with_recipient t none = none
with_recipient t (some e) = some (record e { recipients = e.recipients ++ t ∷ [] })

unfoldable pub parse_lines :
    (Text → Option Captures) → Option QueueEntry → List Text → List QueueEntry
unfolding kind_of
parse_lines captures current [] = flushed current []
parse_lines captures current (line ∷ rest) = elim (kind_of captures line) [
  | skipped ↦ parse_lines captures current rest
  | blank ↦ flushed current (parse_lines captures none rest)
  | recipient t ↦ parse_lines captures (with_recipient t current) rest
  | start e ↦ flushed current (parse_lines captures (some e) rest)
]

unfoldable pub parse_queue_output : (Text → Option Captures) → Text → List QueueEntry
unfolding parse_lines lines
parse_queue_output captures output = parse_lines captures none (lines output)
