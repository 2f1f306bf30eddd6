-- ===== src/Registration/Answers.antt =====
-- What handle_form of web/routes/registration.rs answers, and what it leaves in the tables.
use mailserver.Prelude.{
  ℕ, refl, inl, inr, ◌++◌, codes, trim, to_ascii_lowercase, arith, Bool-cases, Option-cases,
}
use mailserver.Net.IpAddr.{IpAddr}
use mailserver.Registration.Tables.{Domain, Tables, World, use_invite_code}
use mailserver.Registration.Limiter.{RegAttempts, reg_rate_limited}
use mailserver.Registration.Form.{
  RegisterForm, form_is_valid, register, claim_and_create, is_open, find_domain, answer_form,
  handle_form,
}
use mailserver.Registration.Codes.{
  Balanced, stopped-Balanced, hash_and_create-Created, use_invite_code-accounts,
  use_invite_code-claimed, use_invite_code-refused,
}

claim_and_create-Balanced :
    (world : World) (form : RegisterForm) (d : Domain) (t : Tables)
    → Balanced t (claim_and_create world form d t)
unfolding claim_and_create
claim_and_create-Balanced world form d t =
    let code = trim form.invite_code in
    let user = to_ascii_lowercase (trim form.username) ++ codes "@" ++ d.domain in
    elim (Bool-cases (use_invite_code world code user t).0) [
      | inl taken ↦
          rw (claim_and_create, taken)
            (let made =
                hash_and_create-Created world form d (use_invite_code world code user t).1 in
              ground (
                arith,
                made.counted,
                made.at_most_one,
                made.codes_kept,
                use_invite_code-claimed world code user t,
                use_invite_code-accounts world code user t,
              ))
      | inr refused ↦
          rw (claim_and_create, refused)
            (stopped-Balanced t _ refl (use_invite_code-refused world code user t refused))
    ]

register-Balanced :
    (world : World) (form : RegisterForm) (d : Domain) (t : Tables)
    → Balanced t (register world form d t)
unfolding register
register-Balanced world form d t = elim (Bool-cases (form_is_valid world form d t)) [
  | inl valid ↦ rw (register, valid) (claim_and_create-Balanced world form d t)
  | inr invalid ↦ rw (register, invalid) (stopped-Balanced t _ refl refl)
]

answer_form-Balanced :
    (world : World) (form : RegisterForm) (t : Tables) → Balanced t (answer_form world form t)
unfolding answer_form
answer_form-Balanced world form t = elim (Option-cases (find_domain world form t)) [
  | inl e ↦ rw (answer_form, e) (stopped-Balanced t _ refl refl)
  | inr (d, e) ↦ elim (Bool-cases (is_open d)) [
    | inl open_domain ↦ rw (answer_form, e, open_domain) (register-Balanced world form d t)
    | inr shut ↦ rw (answer_form, e, shut) (stopped-Balanced t _ refl refl)
  ]
]

-- A request makes an account exactly if it answers with the success page and hands one pair to the
-- thread; with an account made it takes at least one free code, and it never makes a code free.
pub handle_form-Balanced :
    (world : World) (ip : IpAddr) (now : ℕ) (form : RegisterForm) (m : RegAttempts) (t : Tables)
    → Balanced t (handle_form world ip now form (m, t)).1
unfolding handle_form
handle_form-Balanced world ip now form m t = elim (Bool-cases (reg_rate_limited ip now m).0) [
  | inl limited ↦ rw (handle_form, limited) (stopped-Balanced t _ refl refl)
  | inr passes ↦ rw (handle_form, passes) (answer_form-Balanced world form t)
]
