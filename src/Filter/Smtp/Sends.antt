-- ===== src/Filter/Smtp/Sends.antt =====
-- What the steps of the SMTP client of filter.rs have written when they succeed.
use mathlib.Core.List.{append_assoc, append-nil}
use mailserver.Prelude.{
  ℕ, zero, suc, ◌≡◌, refl, sym, ap, ◌∙◌, ◌⊎◌, inl, inr, not, ◌&&◌, List, [], ◌∷◌, ◌++◌, map, Text,
  codes, starts_with, trim_start, is_empty, Bool-cases,
}
use mailserver.Filter.Smtp.{
  Result, ok, err, Wire, M, ◌>>=◌, then_run, done, read_smtp_response, smtp_expect, write_some,
  write_all, mail_from, rcpt_to, stuffed, command, answer_mail_from, send_recipients, send_lines,
  quit,
}

-- A run that succeeds has written these texts, in this order, and nothing else.
unfoldable pub Sends : {A : Type 0} → M A → List Text → Type 0
Sends {A} m ts = (w w' : Wire) (a : A) → m w ≡ (ok a, w') → w'.outgoing ≡ w.outgoing ++ ts

module _ {A B : Type 0} where
  pub then_run-ok :
      (r : Result A × Wire) (f : A → M B) (b : B) (w' : Wire)
      → then_run r f ≡ (ok b, w')
      → (a : A) × (w1 : Wire) × (r ≡ (ok a, w1)) × (f a w1 ≡ (ok b, w'))
  then_run-ok (ok a, w) f b w' h = (a, w, refl, h)
  then_run-ok (err e, w) f b w' h = cc

  pub bind-Sends :
      (m : M A) (f : A → M B) (ts us : List Text)
      → Sends m ts
      → ((a : A) → Sends (f a) us)
      → Sends (m >>= f) (ts ++ us)
  unfolding Sends
  bind-Sends m f ts us h k w w' b e =
      let (a, w1, first, second) = then_run-ok (m w) f b w' e in
      k a w1 w' b second ∙ ap (λ o. o ++ us) (h w w1 a first) ∙ append_assoc w.outgoing ts us

-- The texts written, read off an equation between results.
pub written : {A : Type 0} {r t : Result A × Wire} → r ≡ t → r.1.outgoing ≡ t.1.outgoing
written e = ap (λ p. p.1.outgoing) e

pub read-Sends : Sends read_smtp_response []
unfolding Sends read_smtp_response
read-Sends w w' a e = sym (written e) ∙ sym (append-nil w.outgoing)

pub expect-Sends : (resp code : Text) → Sends (smtp_expect resp code) []
unfolding Sends smtp_expect
expect-Sends resp code w w' a e = sym (written e) ∙ sym (append-nil w.outgoing)

pub done-Sends : Sends done []
unfolding Sends
done-Sends w w' a e = sym (written e) ∙ sym (append-nil w.outgoing)

write_some-Sends : (n : ℕ) (text : Text) → Sends (write_some n text) (text ∷ [])
unfolding Sends write_some
write_some-Sends zero text w w' a e = cc
write_some-Sends (suc n) text w w' a e = sym (written e)

pub write-Sends : (text : Text) → Sends (write_all text) (text ∷ [])
unfolding Sends write_all
write-Sends text w w' a e = write_some-Sends w.writable text w w' a e

pub command-Sends : (text code : Text) → Sends (command text code) (text ∷ [])
unfolding command
command-Sends text code =
    bind-Sends (write_all text) _ (text ∷ []) [] (write-Sends text)
      (λ _. bind-Sends read_smtp_response _ [] [] read-Sends (λ resp. expect-Sends resp code))

pub send_recipients-Sends : (rcpts : List Text) → Sends (send_recipients rcpts) (map rcpt_to rcpts)
unfolding send_recipients
send_recipients-Sends [] = done-Sends
send_recipients-Sends (rcpt ∷ rcpts) =
    bind-Sends (command (rcpt_to rcpt) (codes "250")) _ (rcpt_to rcpt ∷ []) (map rcpt_to rcpts)
      (command-Sends (rcpt_to rcpt) (codes "250")) (λ _. send_recipients-Sends rcpts)

pub send_lines-Sends : (ls : List Text) → Sends (send_lines ls) (map stuffed ls)
unfolding send_lines
send_lines-Sends [] = done-Sends
send_lines-Sends (line ∷ ls) =
    bind-Sends (write_all (stuffed line)) _ (stuffed line ∷ []) (map stuffed ls)
      (write-Sends (stuffed line)) (λ _. send_lines-Sends ls)

pub quit-Sends : Sends quit (codes "QUIT\r\n" ∷ [])
unfolding quit
quit-Sends =
    bind-Sends (write_all (codes "QUIT\r\n")) _ (codes "QUIT\r\n" ∷ []) [] (write-Sends _)
      (λ _. bind-Sends read_smtp_response _ [] [] read-Sends (λ _. done-Sends))

-- The envelope sender once more without parameters, or nothing more.
abbrev pub Retry : Text → List Text → Type 0
Retry sender retry = (retry ≡ []) ⊎ (retry ≡ mail_from sender [] ∷ [])

-- A run that succeeds has written some list with the property.
unfoldable pub SendsSome : {A : Type 0} → M A → (List Text → Type 0) → Type 0
SendsSome {A} m P =
    (w w' : Wire) (a : A)
    → m w ≡ (ok a, w')
    → (ts : List Text) × P ts × (w'.outgoing ≡ w.outgoing ++ ts)

pub answer-SendsSome :
    (sender params resp : Text) → SendsSome (answer_mail_from sender params resp) (Retry sender)
unfolding SendsSome Sends answer_mail_from
answer-SendsSome sender params resp w w' a e =
    elim (Bool-cases (not (is_empty params) && starts_with (codes "5") (trim_start resp))) [
      | inl refused ↦ (
        mail_from sender [] ∷ [],
        inr refl,
        command-Sends (mail_from sender []) (codes "250") w w' a (rw refused at e),
      )
      | inr differs ↦ ([], inl refl, expect-Sends resp (codes "250") w w' a (rw differs at e))
    ]

module _ {A B : Type 0} (m : M A) (f : A → M B) (P Q : List Text → Type 0) where
  pub bind-SendsSome :
      (ts : List Text)
      → Sends m ts
      → ((a : A) → SendsSome (f a) P)
      → ((us : List Text) → P us → Q (ts ++ us))
      → SendsSome (m >>= f) Q
  unfolding SendsSome Sends
  bind-SendsSome ts h k q w w' b e =
      let (a, w1, first, second) = then_run-ok (m w) f b w' e in
      let (us, p, o) = k a w1 w' b second in
      (ts ++ us, q us p, o ∙ ap (λ xs. xs ++ us) (h w w1 a first) ∙ append_assoc w.outgoing ts us)

  pub bind_SendsSome-Sends :
      (us : List Text)
      → SendsSome m P
      → ((a : A) → Sends (f a) us)
      → ((ts : List Text) → P ts → Q (ts ++ us))
      → SendsSome (m >>= f) Q
  unfolding SendsSome Sends
  bind_SendsSome-Sends us h k q w w' b e =
      let (a, w1, first, second) = then_run-ok (m w) f b w' e in
      let (ts, p, o) = h w w1 a first in
      (ts ++ us, q ts p, k a w1 w' b second ∙ ap (λ xs. xs ++ us) o ∙ append_assoc w.outgoing ts us)
