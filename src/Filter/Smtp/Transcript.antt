-- ===== src/Filter/Smtp/Transcript.antt =====
-- The exact transcript of a successful run of the SMTP client of filter.rs, and its refusals.
use mailserver.Prelude.{
  ℕ, zero, suc, ◌≡◌, refl, ap, ◌∙◌, inl, inr, true, false, ◌&&◌, List, [], ◌∷◌, ◌++◌, map, all,
  Text, codes, lines, Bool-cases, arith,
}
use mailserver.Filter.Envelope.{is_safe_smtp_addr}
use mailserver.Filter.Smtp.{
  ErrorKind, invalid_input, unexpected_eof, Result, ok, err, Wire, M, ◌>>=◌, ◌>>◌, then_run, done,
  read_smtp_response, read_response_from, smtp_expect, write_some, write_all, mail_params,
  mail_from, rcpt_to, stuffed, command, answer_mail_from, send_mail_from, send_recipients,
  send_lines, transfer, quit, converse, start, reinject_smtp,
}
use mailserver.Filter.Smtp.Sends.{
  Sends, SendsSome, Retry, bind-Sends, bind-SendsSome, bind_SendsSome-Sends, read-Sends,
  expect-Sends, write-Sends, command-Sends, send_recipients-Sends, send_lines-Sends, quit-Sends,
  answer-SendsSome,
}

-- The commands behind the envelope sender, up to the final dot.
abbrev pub payload : Text → List Text → List Text
payload email recipients =
    map rcpt_to recipients ++ (codes "DATA\r\n" ∷ (map stuffed (lines email) ++ codes ".\r\n" ∷ []))

-- All that a successful transfer writes.
abbrev pub Transcript : Text → Text → List Text → List Text → Type 0
Transcript email sender recipients ts =
    (retry : List Text) × Retry sender retry
    × (ts
        ≡ codes "EHLO localhost\r\n"
          ∷ mail_from sender (mail_params email)
          ∷ (retry ++ payload email recipients))

send_mail_from-SendsSome :
    (sender params : Text)
    → SendsSome
        (send_mail_from sender params)
        (λ ts. (retry : List Text) × Retry sender retry × (ts ≡ mail_from sender params ∷ retry))
unfolding send_mail_from
send_mail_from-SendsSome sender params =
    bind-SendsSome (write_all (mail_from sender params)) _ (Retry sender) _
      (mail_from sender params ∷ []) (write-Sends (mail_from sender params))
      (λ _.
        bind-SendsSome read_smtp_response (answer_mail_from sender params) (Retry sender) _ []
          read-Sends (answer-SendsSome sender params) (λ us p. p))
      (λ us p. (us, p, refl))

payload-Sends :
    (email : Text) (recipients : List Text)
    → Sends
        (do
          send_recipients recipients
          command (codes "DATA\r\n") (codes "354")
          send_lines (lines email)
          command (codes ".\r\n") (codes "250"))
        (payload email recipients)
payload-Sends email recipients =
    bind-Sends (send_recipients recipients) _ (map rcpt_to recipients) _
      (send_recipients-Sends recipients)
      λ _.
        bind-Sends (command (codes "DATA\r\n") (codes "354")) _ (codes "DATA\r\n" ∷ []) _
          (command-Sends _ _)
          λ _.
            bind-Sends (send_lines (lines email)) _ (map stuffed (lines email)) _
              (send_lines-Sends (lines email)) λ _. command-Sends _ _

transfer-SendsSome :
    (email sender : Text) (recipients : List Text)
    → SendsSome (transfer email sender recipients) (Transcript email sender recipients)
unfolding transfer
transfer-SendsSome email sender recipients =
    bind-SendsSome read_smtp_response _ Whole Whole [] read-Sends
      (λ greeting.
        bind-SendsSome (smtp_expect greeting (codes "220")) _ Whole Whole []
          (expect-Sends greeting (codes "220"))
          (λ _.
            bind-SendsSome (command ehlo (codes "250")) _ Behind Whole (ehlo ∷ [])
              (command-Sends ehlo (codes "250"))
              (λ _.
                bind_SendsSome-Sends (send_mail_from sender (mail_params email)) _ From Behind
                  (payload email recipients) (send_mail_from-SendsSome sender (mail_params email))
                  (λ _. payload-Sends email recipients)
                  (λ ts (retry, p, e). (retry, p, ap (λ xs. xs ++ payload email recipients) e)))
              (λ us (retry, p, e). (retry, p, ap (λ xs. ehlo ∷ xs) e)))
          (λ us p. p))
      (λ us p. p)
  where
    ehlo : Text
    ehlo = codes "EHLO localhost\r\n"

    Whole : List Text → Type 0
    Whole = Transcript email sender recipients

    From : List Text → Type 0
    From ts =
        (retry : List Text) × Retry sender retry
        × (ts ≡ mail_from sender (mail_params email) ∷ retry)

    Behind : List Text → Type 0
    Behind ts =
        (retry : List Text) × Retry sender retry
        × (ts ≡ mail_from sender (mail_params email) ∷ (retry ++ payload email recipients))

abbrev WholeTranscript : Text → Text → List Text → List Text → Type 0
WholeTranscript email sender recipients us =
    (ts : List Text) × Transcript email sender recipients ts × (us ≡ ts ++ codes "QUIT\r\n" ∷ [])

converse-SendsSome :
    (email sender : Text) (recipients : List Text)
    → SendsSome (converse email sender recipients) (WholeTranscript email sender recipients)
unfolding converse
converse-SendsSome email sender recipients =
    bind_SendsSome-Sends (transfer email sender recipients) (λ _. quit)
      (Transcript email sender recipients) (WholeTranscript email sender recipients)
      (codes "QUIT\r\n" ∷ []) (transfer-SendsSome email sender recipients) (λ _. quit-Sends)
      (λ ts p. (ts, p, refl))

start-SendsSome :
    (c : Result (Unit {0})) (m : M (Unit {0})) (P : List Text → Type 0)
    → SendsSome m P
    → SendsSome (start c m) P
unfolding start SendsSome
start-SendsSome (ok u) m P h w w' a e = h w w' a e
start-SendsSome (err x) m P h w w' a e = cc

-- A success means that the sender and all recipients are safe addresses and that exactly this was
-- written: EHLO, the envelope sender, the envelope sender once more without its parameters or not, a
-- command for each recipient, DATA, the dot-stuffed lines of the email, the final dot, and QUIT.
pub reinject_smtp-ok :
    (connected : Result (Unit {0})) (email sender : Text) (recipients : List Text) (w w' : Wire)
    → reinject_smtp connected email sender recipients w ≡ (ok tt, w')
    → (is_safe_smtp_addr sender ≡ true)
      × (all is_safe_smtp_addr recipients ≡ true)
      × ((ts : List Text) × Transcript email sender recipients ts
          × (w'.outgoing ≡ w.outgoing ++ (ts ++ codes "QUIT\r\n" ∷ [])))
unfolding reinject_smtp SendsSome
reinject_smtp-ok connected email sender recipients w w' e =
    elim (Bool-cases (is_safe_smtp_addr sender)) [
      | inr unsafe ↦ cc (rw unsafe at e)
      | inl safe ↦ elim (Bool-cases (all is_safe_smtp_addr recipients)) [
        | inr unsafe ↦ cc (rw (safe, unsafe) at e)
        | inl all_safe ↦
            let (us, (ts, p, q), o) =
              start-SendsSome connected (converse email sender recipients)
                (WholeTranscript email sender recipients)
                (converse-SendsSome email sender recipients) w w' tt (rw (safe, all_safe) at e) in
            (safe, all_safe, (ts, p, o ∙ ap (λ xs. w.outgoing ++ xs) q))
      ]
    ]

-- An envelope with an unsafe address is refused before anything is written or read.
pub reinject_smtp-refuses :
    (connected : Result (Unit {0})) (email sender : Text) (recipients : List Text) (w : Wire)
    → (is_safe_smtp_addr sender && all is_safe_smtp_addr recipients) ≡ false
    → reinject_smtp connected email sender recipients w ≡ (err invalid_input, w)
unfolding reinject_smtp
reinject_smtp-refuses connected email sender recipients w h = ground arith

write_some-closed :
    (n : ℕ) (text : Text) (w : Wire)
    → w.incoming ≡ []
    → (e : ErrorKind) × ((then_run
          (write_some n text w)
          (λ _. read_smtp_response >>= λ resp. done)).0
        ≡ err e)
unfolding write_some read_smtp_response read_response_from
write_some-closed zero text w closed = (w.write_error, refl)
write_some-closed (suc n) text w closed = (unexpected_eof, rw (closed, read_response_from) refl)

quit-closed : (w : Wire) → w.incoming ≡ [] → (e : ErrorKind) × ((quit w).0 ≡ err e)
unfolding quit write_all
quit-closed w closed = write_some-closed w.writable (codes "QUIT\r\n") w closed

-- For safe addresses: the server has taken the message, and closes the connection in place of an
-- answer to QUIT: the
-- client reports a failure all the same.
pub accepted_and_failed :
    (email sender : Text) (recipients : List Text) (w w' : Wire)
    → is_safe_smtp_addr sender ≡ true
    → all is_safe_smtp_addr recipients ≡ true
    → transfer email sender recipients w ≡ (ok tt, w')
    → w'.incoming ≡ []
    → (e : ErrorKind) × ((reinject_smtp (ok tt) email sender recipients w).0 ≡ err e)
unfolding reinject_smtp converse start
accepted_and_failed email sender recipients w w' s r t closed = rw (s, r, t) (quit-closed w' closed)
