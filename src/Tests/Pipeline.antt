-- ===== src/Tests/Pipeline.antt =====
-- Runs of the content filter of filter.rs at concrete mails.
use mailserver.Prelude.{
  is_empty, split_at, ◌≡◌, refl, true, false, Option, some, List, [], ◌∷◌, ◌++◌, arith, Text, codes,
}
use mailserver.Filter.Headers.{
  extract_header, strip_dkim_signatures, extract_sender_ip, split_from, is_dkim_line,
  is_continuation,
}
use mailserver.Filter.Headers.Dkim.{Field, without_dkim, strip_dkim_signatures-fields}
use mailserver.Filter.Headers.Extract.{extract_header-total}
use mailserver.Filter.Headers.{eol_of}

abbrev signed : Text
signed = codes "A: 1\r\nDkim-Signature: v\r\n\tx\r\nB: 2\r\n\r\nbody"

abbrev fields : List Field
fields =
    record { first = codes "A: 1"; folded = [] }
    ∷ record { first = codes "Dkim-Signature: v"; folded = codes "\tx" ∷ [] }
    ∷ record { first = codes "B: 2"; folded = [] }
    ∷ []

strip_dkim_signatures-fields_example :
    strip_dkim_signatures signed ≡ some (without_dkim (codes "\r\n") fields ++ codes "\r\nbody")
unfolding is_continuation is_dkim_line split_at eol_of split_from is_empty
strip_dkim_signatures-fields_example =
    strip_dkim_signatures-fields signed (codes "A: 1\r\nDkim-Signature: v\r\n\tx\r\nB: 2")
      (codes "body") fields refl refl
      (
        (refl, tt, (false, refl)),
        ((refl, ((refl, refl), tt), (true, refl)), ((refl, tt, (false, refl)), tt)),
      )

abbrev hops : Text
hops = codes "Received: from a [1.2.3.4]\n\tby b\nReceived: from c [5.6.7.8]\n\nx"

takes_the_last : extract_sender_ip hops ≡ some (codes "5.6.7.8")
unfolding extract_sender_ip
takes_the_last = refl

extract_header-total_example :
    (r : Option Text) × (extract_header (codes "Subject: hi\n\nx") (codes "Subject") ≡ some r)
extract_header-total_example =
    extract_header-total (codes "Subject: hi\n\nx") (codes "Subject") (ground arith)
