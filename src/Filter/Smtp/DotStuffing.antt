-- ===== src/Filter/Smtp/DotStuffing.antt =====
-- What an SMTP server makes of the data that filter.rs sends.
use mathlib.Core.List.{append_assoc, append-nil}
use mailserver.Prelude.{
  ℕ, ◌≡◌, refl, ap, ◌∙◌, inl, inr, true, false, ◌&&◌, Option, none, some, List, [], ◌∷◌, ◌++◌, ◌==◌,
  if◌then◌else◌, All, Text, codes, starts_with, contains_char, lines, Lacks, Lacks-cons,
  lines-All-Lacks, text_eq, Bool-cases, arith,
}
use mailserver.Filter.Smtp.{crlf, stuffed}

abbrev with_line : Text → Option (List Text × Text) → Option (List Text × Text)
with_line line none = none
with_line line (some (ls, rest)) = some (line ∷ ls, rest)

-- RFC 5321, 4.5.2: a line that is a dot alone ends the data, and of another line a dot in front is
-- dropped.
abbrev pub unstuffed : Text → Text
unstuffed [] = []
unstuffed (c ∷ s) = if c == b'.' then s else c ∷ s

-- A line that is read whole, in front of what the rest gives.
abbrev pub finish : Text → Text → Option (List Text × Text) → Option (List Text × Text)
finish line rest more = elim (text_eq line (codes ".")) [
  | true ↦ some ([], rest)
  | false ↦ with_line (unstuffed line) more
]

-- A server that reads the data: `cur` is the line read so far, a line ends at CR LF. The result is
-- the lines of the message and what is left of the input; `none` if the input ends before the data.
pub receive : Text → Text → Option (List Text × Text)
receive cur [] = none
receive cur (c ∷ []) = none
receive cur (c ∷ d ∷ s) = elim (c == b'\r' && d == b'\n') [
  | true ↦ finish cur s (receive [] s)
  | false ↦ receive (cur ++ c ∷ []) (d ∷ s)
]

-- All that is written for the lines of a message.
abbrev pub data_of : List Text → Text
data_of [] = []
data_of (line ∷ rest) = stuffed line ++ data_of rest

receive-crlf : (cur s : Text) → receive cur (crlf ++ s) ≡ finish cur s (receive [] s)
unfolding receive
receive-crlf cur s = refl

receive-char :
    (cur s : Text) (c d : ℕ)
    → (d == b'\n') ≡ false
    → receive cur (c ∷ d ∷ s) ≡ receive (cur ++ c ∷ []) (d ∷ s)
unfolding receive
receive-char cur s c d h = ground arith

-- A line with no line feed is read whole.
receive-line :
    (cur line s : Text)
    → Lacks b'\n' line
    → receive cur (line ++ (crlf ++ s)) ≡ finish (cur ++ line) s (receive [] s)
receive-line cur [] s h = rw (append-nil cur) (receive-crlf cur s)
receive-line cur (c ∷ []) s h =
    receive-char cur (b'\n' ∷ s) c b'\r' refl ∙ receive-crlf (cur ++ c ∷ []) s
receive-line cur (c ∷ d ∷ line) s h =
    let rest = (Lacks-cons b'\n' c (d ∷ line) h).1 in
    receive-char cur (line ++ (crlf ++ s)) c d (Lacks-cons b'\n' d line rest).0
    ∙ receive-line (cur ++ c ∷ []) (d ∷ line) s rest
    ∙ ap (λ t. finish t s (receive [] s)) (append_assoc cur (c ∷ []) (d ∷ line))

-- A whole line with its end, in front of the rest of the input.
receive-whole :
    (line s : Text)
    → Lacks b'\n' line
    → receive [] ((line ++ crlf) ++ s) ≡ finish line s (receive [] s)
receive-whole line s h = ap (receive []) (append_assoc line crlf s) ∙ receive-line [] line s h

dot-Lacks : (s : Text) → Lacks b'\n' s → Lacks b'\n' (b'.' ∷ s)
unfolding contains_char
dot-Lacks s h = h

receive-stuffed :
    (line s : Text)
    → Lacks b'\n' line
    → receive [] (stuffed line ++ s) ≡ with_line line (receive [] s)
unfolding starts_with text_eq
receive-stuffed [] s h = receive-whole [] s h
receive-stuffed (c ∷ line) s h = elim (Bool-cases (b'.' == c)) [
  | inl dot ↦ rw dot (receive-whole (b'.' ∷ c ∷ line) s (dot-Lacks (c ∷ line) h))
  | inr plain ↦ rw plain (receive-whole (c ∷ line) s h ∙ ground arith)
]

-- A server that reads what is written for the lines of a message, then the final dot and anything
-- behind it, gets those lines and stops at that dot.
pub receive-data_of :
    (ls : List Text) (s : Text)
    → All (Lacks b'\n') ls
    → receive [] (data_of ls ++ (codes ".\r\n" ++ s)) ≡ some (ls, s)
unfolding contains_char text_eq
receive-data_of [] s h = receive-line [] (codes ".") s refl
receive-data_of (line ∷ ls) s (p, h) =
    ap (receive []) (append_assoc (stuffed line) (data_of ls) (codes ".\r\n" ++ s))
    ∙ receive-stuffed line (data_of ls ++ (codes ".\r\n" ++ s)) p
    ∙ ap (with_line line) (receive-data_of ls s h)

-- Dot-stuffing is transparent: a server that reads the data of any email and what follows it gets
-- the lines of the email and stops at the final dot.
pub receive-data_of-lines :
    (email s : Text)
    → receive [] (data_of (lines email) ++ (codes ".\r\n" ++ s)) ≡ some (lines email, s)
receive-data_of-lines email s = receive-data_of (lines email) s (lines-All-Lacks email)
