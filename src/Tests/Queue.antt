-- ===== src/Tests/Queue.antt =====
-- The pages of the mail queue on concrete inputs.
use mailserver.Prelude.{
  parse_unsigned, is_ascii_alphanumeric, byte_len, to_ascii_lowercase, ◌≡◌, refl, Option, none,
  some, [], ◌∷◌, Text, codes, is_empty,
}
use mailserver.Queue.{
  HeaderMap, World, Captures, QueueEntry, delete_message, flush_message, parse_queue_output,
}
use mailserver.Queue.Commands.{IsSafeRun, message_commands_safe}

abbrev world : World
world = record { postqueue_bin = none; postsuper_bin = some (codes "/usr/sbin/postsuper") }

abbrev headers : HeaderMap
headers = record {
  host = some (codes "mail.b.org");
  origin = some (codes "https://Mail.b.org");
  referer = none;
}

delete_message_test :
    delete_message world headers (codes "4F2A")
    ≡ (303, (codes "/usr/sbin/postsuper", codes "-d" ∷ codes "4F2A" ∷ []) ∷ [])
unfolding delete_message to_ascii_lowercase is_empty byte_len is_ascii_alphanumeric
delete_message_test = refl

message_commands_safe_example :
    IsSafeRun
      (some (codes "/usr/sbin/postsuper"))
      (codes "-d")
      (codes "4F2A")
      headers
      (delete_message world headers (codes "4F2A")).1
    × IsSafeRun none
        (codes "-i")
        (codes "4F2A")
        headers
        (flush_message world headers (codes "4F2A")).1
message_commands_safe_example = message_commands_safe world headers (codes "4F2A")

-- An expression that takes any line for an entry.
abbrev captures : Text → Option Captures
captures line =
    some (record {
      id = line;
      size = codes "12";
      arrival_time = codes "Mon";
      sender = codes "s@b.org";
    })

abbrev entry : QueueEntry
entry = record {
  id = codes "A1";
  size = 12;
  arrival_time = codes "Mon";
  sender = codes "s@b.org";
  recipients = codes "r@c.org" ∷ [];
}

parse_queue_output_test :
    parse_queue_output captures (codes "-Queue ID-\nA1\n  r@c.org\n\n-- 1 Kbytes") ≡ entry ∷ []
unfolding parse_queue_output parse_unsigned
parse_queue_output_test = refl
