-- ===== src/Filter/Smtp/Session.antt =====
-- What filter.rs writes to the socket, on every run of the SMTP client.
use mathlib.Core.List.{append_assoc}
use mailserver.Prelude.{
  ℕ, zero, suc, ◌≡◌, refl, sym, ap, subst, take, inl, inr, true, not, ◌&&◌, List, [], ◌∷◌, ◌++◌,
  all, All, All-append, Text, codes, starts_with, trim_start, is_empty, lines, Lacks, Lacks-append,
  lines-All-Lacks, contains_char, Bool-cases, &&-eq-true, arith,
}
use mailserver.Filter.Envelope.{is_safe_smtp_addr}
use mailserver.Filter.Envelope.Laws.{is_safe_smtp_addr-Lacks}
use mailserver.Filter.Smtp.{
  Result, ok, err, Wire, M, ◌>>=◌, then_run, done, read_smtp_response, smtp_expect, write_some,
  write_all, crlf, mail_params, mail_from, rcpt_to, stuffed, command, answer_mail_from,
  send_mail_from, send_recipients, send_lines, transfer, quit, converse, start, reinject_smtp,
}

-- One line, with its only line feed in the CR LF at the end.
abbrev pub IsOneLine : Text → Type 0
IsOneLine text = (body : Text) × (text ≡ body ++ crlf) × Lacks b'\n' body

-- A part of one line, from its beginning.
abbrev pub StartsLine : Text → Type 0
StartsLine text = (rest : Text) × IsOneLine (text ++ rest)

abbrev pub AreLines : Wire → Type 0
AreLines w = All IsOneLine w.outgoing × StartsLine w.unfinished

take-joins : (n : ℕ) (text : Text) → (rest : Text) × (take n text ++ rest ≡ text)
take-joins zero text = (text, refl)
take-joins (suc n) [] = ([], refl)
take-joins (suc n) (c ∷ text) = let (rest, e) = take-joins n text in (rest, ap (λ t. c ∷ t) e)

-- The run writes nothing but whole single lines.
Keeps : {A : Type 0} → M A → Type 0
Keeps m = (w : Wire) → AreLines w → AreLines (m w).1

module _ {A B : Type 0} where
  then_run-Keeps :
      (r : Result A × Wire) (f : A → M B)
      → AreLines r.1
      → ((a : A) → Keeps (f a))
      → AreLines (then_run r f).1
  unfolding Keeps
  then_run-Keeps (ok a, w) f h k = k a w h
  then_run-Keeps (err e, w) f h k = h

  bind-Keeps : (m : M A) (f : A → M B) → Keeps m → ((a : A) → Keeps (f a)) → Keeps (m >>= f)
  unfolding Keeps
  bind-Keeps m f h k w v = then_run-Keeps (m w) f (h w v) k

read-Keeps : Keeps read_smtp_response
unfolding Keeps read_smtp_response
read-Keeps w v = v

expect-Keeps : (resp code : Text) → Keeps (smtp_expect resp code)
unfolding Keeps smtp_expect
expect-Keeps resp code w v = v

done-Keeps : Keeps done
unfolding Keeps
done-Keeps w v = v

write_some-Keeps : (n : ℕ) (text : Text) → IsOneLine text → Keeps (write_some n text)
unfolding Keeps write_some
write_some-Keeps zero text h w (v, part) =
    let (rest, e) = take-joins w.cut text in (v, (rest, subst IsOneLine (sym e) h))
write_some-Keeps (suc n) text h w (v, part) =
    (All-append IsOneLine w.outgoing (text ∷ []) v (h, tt), part)

write-Keeps : (text : Text) → IsOneLine text → Keeps (write_all text)
unfolding write_all Keeps
write-Keeps text h w v = write_some-Keeps w.writable text h w v

command-Keeps : (text code : Text) → IsOneLine text → Keeps (command text code)
unfolding command
command-Keeps text code h =
    bind-Keeps _ _ (write-Keeps text h)
      (λ _. bind-Keeps _ _ read-Keeps (λ resp. expect-Keeps resp code))

mail_from-IsOneLine :
    (sender params : Text)
    → Lacks b'\n' sender
    → Lacks b'\n' params
    → IsOneLine (mail_from sender params)
unfolding contains_char
mail_from-IsOneLine sender params h k = (
  codes "MAIL FROM:<" ++ (sender ++ (codes ">" ++ params)),
  simp append_assoc,
  Lacks-append b'\n' (codes "MAIL FROM:<") (sender ++ (codes ">" ++ params)) refl (
      Lacks-append b'\n' sender (codes ">" ++ params) h
        (Lacks-append b'\n' (codes ">") params refl k)),
)

rcpt_to-IsOneLine : (rcpt : Text) → Lacks b'\n' rcpt → IsOneLine (rcpt_to rcpt)
unfolding contains_char
rcpt_to-IsOneLine rcpt h = (
  codes "RCPT TO:<" ++ (rcpt ++ codes ">"),
  simp append_assoc,
  Lacks-append b'\n' (codes "RCPT TO:<") (rcpt ++ codes ">") refl
      (Lacks-append b'\n' rcpt (codes ">") h refl),
)

stuffed-IsOneLine : (line : Text) → Lacks b'\n' line → IsOneLine (stuffed line)
unfolding contains_char
stuffed-IsOneLine line h = elim (Bool-cases (starts_with (codes ".") line)) [
  | inl dot ↦ rw dot (b'.' ∷ line, refl, h)
  | inr plain ↦ rw plain (line, refl, h)
]

mail_params-Lacks : (email : Text) → Lacks b'\n' (mail_params email)
unfolding mail_params contains_char
mail_params-Lacks email = ground arith

answer-Keeps :
    (sender params resp : Text) → Lacks b'\n' sender → Keeps (answer_mail_from sender params resp)
unfolding answer_mail_from contains_char
answer-Keeps sender params resp h =
    elim (Bool-cases (not (is_empty params) && starts_with (codes "5") (trim_start resp))) [
      | inl refused ↦
          rw refused (
            command-Keeps (mail_from sender []) (codes "250")
              (mail_from-IsOneLine sender [] h refl))
      | inr differs ↦ rw differs (expect-Keeps resp (codes "250"))
    ]

send_mail_from-Keeps :
    (sender params : Text)
    → Lacks b'\n' sender
    → Lacks b'\n' params
    → Keeps (send_mail_from sender params)
unfolding send_mail_from
send_mail_from-Keeps sender params h k =
    bind-Keeps _ _ (write-Keeps (mail_from sender params) (mail_from-IsOneLine sender params h k))
      (λ _. bind-Keeps _ _ read-Keeps (λ resp. answer-Keeps sender params resp h))

send_recipients-Keeps :
    (rcpts : List Text) → All (Lacks b'\n') rcpts → Keeps (send_recipients rcpts)
unfolding send_recipients
send_recipients-Keeps [] h = done-Keeps
send_recipients-Keeps (rcpt ∷ rcpts) (p, h) =
    bind-Keeps _ _ (command-Keeps (rcpt_to rcpt) (codes "250") (rcpt_to-IsOneLine rcpt p))
      (λ _. send_recipients-Keeps rcpts h)

send_lines-Keeps : (ls : List Text) → All (Lacks b'\n') ls → Keeps (send_lines ls)
unfolding send_lines
send_lines-Keeps [] h = done-Keeps
send_lines-Keeps (line ∷ ls) (p, h) =
    bind-Keeps _ _ (write-Keeps (stuffed line) (stuffed-IsOneLine line p))
      (λ _. send_lines-Keeps ls h)

transfer-Keeps :
    (email sender : Text) (rcpts : List Text)
    → Lacks b'\n' sender
    → All (Lacks b'\n') rcpts
    → Keeps (transfer email sender rcpts)
unfolding transfer contains_char
transfer-Keeps email sender rcpts h k = bind-Keeps _ _ read-Keeps λ greeting.
    bind-Keeps _ _ (expect-Keeps greeting (codes "220")) λ _.
      bind-Keeps _ _
        (command-Keeps (codes "EHLO localhost\r\n") (codes "250")
          (codes "EHLO localhost", refl, refl))
        λ _.
          bind-Keeps _ _
            (send_mail_from-Keeps sender (mail_params email) h (mail_params-Lacks email))
            λ _. bind-Keeps _ _ (send_recipients-Keeps rcpts k) λ _.
              bind-Keeps _ _
                (command-Keeps (codes "DATA\r\n") (codes "354") (codes "DATA", refl, refl))
                λ _.
                  bind-Keeps _ _ (send_lines-Keeps (lines email) (lines-All-Lacks email))
                    λ _. command-Keeps (codes ".\r\n") (codes "250") (codes ".", refl, refl)

quit-Keeps : Keeps quit
unfolding quit contains_char
quit-Keeps =
    bind-Keeps _ _ (write-Keeps (codes "QUIT\r\n") (codes "QUIT", refl, refl))
      (λ _. bind-Keeps _ _ read-Keeps (λ _. done-Keeps))

All-Lacks : (rcpts : List Text) → all is_safe_smtp_addr rcpts ≡ true → All (Lacks b'\n') rcpts
All-Lacks [] h = tt
All-Lacks (rcpt ∷ rcpts) h =
    let (p, q) = &&-eq-true (is_safe_smtp_addr rcpt) (all is_safe_smtp_addr rcpts) h in
    ((is_safe_smtp_addr-Lacks rcpt p).1, All-Lacks rcpts q)

-- Where what has been written before is whole single lines, no run of the client, whatever the
-- server answers and wherever it fails, writes anything else: each write is one line, with its only
-- line feed in the CR LF at its end, and a write that fails leaves at most the beginning of such a
-- line.
pub reinject_smtp-AreLines :
    (connected : Result (Unit {0})) (email sender : Text) (recipients : List Text) (w : Wire)
    → AreLines w
    → AreLines (reinject_smtp connected email sender recipients w).1
unfolding reinject_smtp converse Keeps
reinject_smtp-AreLines connected email sender recipients w v =
    elim (Bool-cases (is_safe_smtp_addr sender)) [
      | inr unsafe ↦ rw unsafe v
      | inl safe ↦ elim (Bool-cases (all is_safe_smtp_addr recipients)) [
        | inr unsafe ↦ rw (safe, unsafe) v
        | inl all_safe ↦ rw (safe, all_safe) (run connected safe all_safe)
      ]
    ]
  where
    run :
        (c : Result (Unit {0}))
        → is_safe_smtp_addr sender ≡ true
        → all is_safe_smtp_addr recipients ≡ true
        → AreLines (start c (converse email sender recipients) w).1
    run (err e) safe all_safe = v
    run (ok u) safe all_safe =
        bind-Keeps (transfer email sender recipients) (λ _. quit)
          (transfer-Keeps email sender recipients (is_safe_smtp_addr-Lacks sender safe).1
            (All-Lacks recipients all_safe))
          (λ _. quit-Keeps) w v
