-- ===== src/Filter/Smtp.antt =====
-- The SMTP client of filter.rs: `read_smtp_response`, `smtp_expect` and `reinject_smtp`. The socket
-- is explicit: what reading a line gives, one after the other, what has been written, and how many
-- writes still succeed. How the connection is made is not modelled: `connected` is its result.
use mailserver.Prelude.{
  ℕ, zero, suc, ◌+◌, ◌-◌, Bool, true, false, not, ◌&&◌, ◌||◌, Option, none, some, List, [], ◌∷◌,
  ◌++◌, leb, ltb, ◌==◌, if◌then◌else◌, all, take, Text, codes, byte_len, as_bytes, starts_with,
  trim_start, split_at, is_empty, lines,
}
use mailserver.Filter.Envelope.{is_safe_smtp_addr}
pub mod Session
pub mod Sends
pub mod Transcript
pub mod DotStuffing

pub data ErrorKind : Type 0 where
  invalid_input addr_not_available unexpected_eof timed_out would_block other : ErrorKind

pub data Result {ℓ} (A : Type ℓ) : Type ℓ where
  ok : A → Result A
  err : ErrorKind → Result A

pub record Wire : Type 0 where
  pub incoming : List (Result Text)
  pub outgoing : List Text
  pub writable : ℕ
  pub write_error : ErrorKind  -- what the write fails with that comes after those
  pub cut : ℕ  -- how many characters of its text are written before
  pub unfinished : Text

abbrev pub M : Type 0 → Type 0
M A = Wire → Result A × Wire

abbrev then_run {ℓ} : {A : Type ℓ} {B : Type 0} → Result A × Wire → (A → M B) → Result B × Wire
then_run (ok a, w) f = f a w
then_run (err e, w) f = (err e, w)

infixl 5 ◌>>=◌ ◌>>◌
abbrev pub ◌>>=◌ : {A B : Type 0} → M A → (A → M B) → M B
◌>>=◌ m f w = then_run (m w) f

abbrev pub ◌>>◌ : {B : Type 0} → M (Unit {0}) → M B → M B
m >> k = m >>= λ _. k

abbrev pub done : M (Unit {0})
done w = (ok tt, w)

abbrev nth : List ℕ → ℕ → ℕ
nth [] i = 0
nth (x ∷ xs) zero = x
nth (x ∷ xs) (suc i) = nth xs i

-- A response ends with the line that has a space behind its code.
unfoldable pub is_final_line : Text → Bool
is_final_line line = leb 4 (byte_len line) && nth (as_bytes line) 3 == b' '

-- The loop of `read_smtp_response` with what it has read. No line at all, or an empty one, is the
-- end of the input.
unfoldable pub read_response_from : Text → List (Result Text) → Result Text × List (Result Text)
read_response_from response [] = (err unexpected_eof, [])
read_response_from response (err e ∷ rest) = (err e, rest)
read_response_from response (ok line ∷ rest) =
    let more = read_response_from (response ++ line) rest in
    if is_empty line
    then (err unexpected_eof, rest)
    else if is_final_line line
    then (ok (response ++ line), rest)
    else more

unfoldable pub read_smtp_response : M Text
unfolding read_response_from
read_smtp_response w =
    let (response, rest) = read_response_from [] w.incoming in
    (response, record w { incoming = rest })

unfoldable pub smtp_expect : Text → Text → M (Unit {0})
smtp_expect response expected_code w =
    (if starts_with expected_code response then ok tt else err other, w)

-- `write_all` of one command or line. One that fails, a timeout among the reasons, may have written a
-- part, which stands apart from the whole texts.
write_some : ℕ → Text → M (Unit {0})
write_some zero text w = (err w.write_error, record w { unfinished = take w.cut text })
write_some (suc n) text w = (ok tt, record w { outgoing = w.outgoing ++ text ∷ []; writable = n })

unfoldable pub write_all : Text → M (Unit {0})
unfolding write_some
write_all text w = write_some w.writable text w

abbrev pub crlf : Text
crlf = codes "\r\n"

unfoldable pub is_ascii : Text → Bool
is_ascii s = all (λ c. ltb c 0x80) s

abbrev before_or : Option (Text × Text) → Text → Text
before_or none s = s
before_or (some (a, b)) s = a

-- The text before the first blank line.
unfoldable pub header_section : Text → Text
header_section email = elim (split_at (codes "\r\n\r\n") email) [
  | some (a, b) ↦ a
  | none ↦ before_or (split_at (codes "\n\n") email) email
]

unfoldable pub mail_params : Text → Text
mail_params email =
    if is_ascii email
    then []
    else if is_ascii (header_section email)
    then codes " BODY=8BITMIME"
    else codes " BODY=8BITMIME SMTPUTF8"

abbrev pub mail_from : Text → Text → Text
mail_from sender params = codes "MAIL FROM:<" ++ (sender ++ (codes ">" ++ (params ++ crlf)))

abbrev pub rcpt_to : Text → Text
rcpt_to rcpt = codes "RCPT TO:<" ++ (rcpt ++ (codes ">" ++ crlf))

abbrev pub stuffed : Text → Text
stuffed line = if starts_with (codes ".") line then codes "." ++ (line ++ crlf) else line ++ crlf

-- Writes a command and expects a code in the response.
unfoldable pub command : Text → Text → M (Unit {0})
command text code = do write_all text; resp ← read_smtp_response; smtp_expect resp code

-- A refusal of the parameters is answered by the envelope without them.
unfoldable pub answer_mail_from : Text → Text → Text → M (Unit {0})
answer_mail_from sender params resp =
    if not (is_empty params) && starts_with (codes "5") (trim_start resp)
    then command (mail_from sender []) (codes "250")
    else smtp_expect resp (codes "250")

unfoldable pub send_mail_from : Text → Text → M (Unit {0})
send_mail_from sender params = do
  write_all (mail_from sender params)
  resp ← read_smtp_response
  answer_mail_from sender params resp

unfoldable pub send_recipients : List Text → M (Unit {0})
send_recipients [] = done
send_recipients (rcpt ∷ rcpts) = do command (rcpt_to rcpt) (codes "250"); send_recipients rcpts

unfoldable pub send_lines : List Text → M (Unit {0})
send_lines [] = done
send_lines (line ∷ rest) = do write_all (stuffed line); send_lines rest

-- The conversation up to the answer to the final dot: then the server has the message.
unfoldable pub transfer : Text → Text → List Text → M (Unit {0})
transfer email sender recipients = do
  greeting ← read_smtp_response
  smtp_expect greeting (codes "220")
  command (codes "EHLO localhost\r\n") (codes "250")
  send_mail_from sender (mail_params email)
  send_recipients recipients
  command (codes "DATA\r\n") (codes "354")
  send_lines (lines email)
  command (codes ".\r\n") (codes "250")

-- The answer to QUIT is read and not looked at.
unfoldable pub quit : M (Unit {0})
quit = do write_all (codes "QUIT\r\n"); resp ← read_smtp_response; done

unfoldable pub converse : Text → Text → List Text → M (Unit {0})
converse email sender recipients = do transfer email sender recipients; quit

-- `connected` is what connecting to the listener gave.
start : Result (Unit {0}) → M (Unit {0}) → M (Unit {0})
start (err e) m w = (err e, w)
start (ok u) m w = m w

unfoldable pub reinject_smtp : Result (Unit {0}) → Text → Text → List Text → M (Unit {0})
unfolding start
reinject_smtp connected email sender recipients w =
    if not (is_safe_smtp_addr sender)
    then (err invalid_input, w)
    else if not (all is_safe_smtp_addr recipients)
    then (err invalid_input, w)
    else start connected (converse email sender recipients) w
