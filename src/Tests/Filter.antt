-- ===== src/Tests/Filter.antt =====
-- The content filter on concrete inputs.
use Prim.Native.String.{String}
use mailserver.Prelude.{
  contains_char, ◌≡◌, refl, ap, ◌↔◌, ◌++◌, true, some, List, [], ◌∷◌, Text, codes, lines,
  starts_with, is_empty, strip_prefix, byte_len, as_bytes,
}
use mailserver.Filter.Envelope.{is_safe_smtp_addr}
use mailserver.Filter.Envelope.Laws.{IsSafeAddr, is_safe_smtp_addr_iff}
use mailserver.Filter.Smtp.{
  other, ErrorKind, Result, ok, err, Wire, reinject_smtp, transfer, read_smtp_response, command,
  send_mail_from, send_recipients, send_lines, mail_params, is_ascii, smtp_expect, write_all,
  converse, quit, answer_mail_from, read_response_from, is_final_line,
}
use mailserver.Filter.Smtp.Session.{AreLines, reinject_smtp-AreLines}
use mailserver.Filter.Smtp.Transcript.{reinject_smtp-ok, accepted_and_failed}
use mailserver.Filter.Smtp.DotStuffing.{receive, data_of, receive-data_of-lines}

-- An address outside ASCII is taken for safe.
accepts_non_ascii : is_safe_smtp_addr (codes "jürgen@example.org") ≡ true
unfolding is_safe_smtp_addr
accepts_non_ascii = refl

is_safe_smtp_addr_iff_example :
    (is_safe_smtp_addr (codes "a@b.c") ≡ true) ↔ IsSafeAddr (codes "a@b.c")
is_safe_smtp_addr_iff_example = is_safe_smtp_addr_iff (codes "a@b.c")

abbrev email : Text
email = codes "Subject: hi\r\n\r\n.dot\r\n"

abbrev sender : Text
sender = codes "a@b.c"

abbrev recipients : List Text
recipients = codes "d@e.f" ∷ []

abbrev reply : String → Result Text
reply s = ok (codes s)

-- A server that accepts all; the last reply is that to QUIT.
abbrev replies : List (Result Text)
replies =
    reply "220 ready\r\n"
    ∷ reply "250-hello\r\n"
    ∷ reply "250 SIZE\r\n"
    ∷ reply "250 ok\r\n"
    ∷ reply "250 ok\r\n"
    ∷ reply "354 go\r\n"
    ∷ reply "250 queued\r\n"
    ∷ []

abbrev polite : Wire
polite = record {
  incoming = replies ++ reply "221 bye\r\n" ∷ [];
  outgoing = [];
  writable = 100;
  write_error = other;
  cut = 0;
  unfinished = [];
}

abbrev abrupt : Wire
abrupt = record {
  incoming = replies;
  outgoing = [];
  writable = 100;
  write_error = other;
  cut = 0;
  unfinished = [];
}

reinject_smtp-AreLines_example : AreLines (reinject_smtp (ok tt) email sender recipients polite).1
unfolding contains_char
reinject_smtp-AreLines_example =
    reinject_smtp-AreLines (ok tt) email sender recipients polite
      (tt, (codes "\r\n", ([], refl, refl)))

-- The client with all that it calls.
converse_here : Result (Unit {0}) → Wire → Result (Unit {0}) × Wire
unfolding reinject_smtp is_safe_smtp_addr converse transfer quit read_smtp_response
    read_response_from is_final_line command send_mail_from send_recipients send_lines mail_params
    is_ascii smtp_expect write_all answer_mail_from starts_with strip_prefix byte_len as_bytes
    is_empty lines
converse_here connected w = reinject_smtp connected email sender recipients w

ok_run : (reinject_smtp (ok tt) email sender recipients polite).0 ≡ ok tt
unfolding converse_here
ok_run = refl

reinject_smtp-ok_example : is_safe_smtp_addr sender ≡ true
reinject_smtp-ok_example =
    (reinject_smtp-ok (ok tt) email sender recipients polite
      (reinject_smtp (ok tt) email sender recipients polite).1
      (ap (λ r. (r, (reinject_smtp (ok tt) email sender recipients polite).1)) ok_run)).0

accepted_and_failed_example :
    (e : ErrorKind) × ((reinject_smtp (ok tt) email sender recipients abrupt).0 ≡ err e)
unfolding converse_here
accepted_and_failed_example =
    accepted_and_failed email sender recipients abrupt (transfer email sender recipients abrupt).1
      refl refl refl refl

receive-data_of-lines_example :
    receive [] (data_of (lines email) ++ (codes ".\r\n" ++ codes "QUIT\r\n"))
    ≡ some (lines email, codes "QUIT\r\n")
receive-data_of-lines_example = receive-data_of-lines email (codes "QUIT\r\n")
