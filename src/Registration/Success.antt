-- ===== src/Registration/Success.antt =====
-- When a registration succeeds, and that a request which does not leaves the tables alone.
use mailserver.Prelude.{
  ℕ, ◌≡◌, refl, ◌≢◌, ◌↔◌, inl, inr, Bool, true, false, none, some, ◌∷◌, ◌++◌, Text, codes, trim,
  to_ascii_lowercase, arith, Bool-cases, Option-cases, any,
}
use mailserver.Net.IpAddr.{IpAddr}
use mailserver.Registration.Tables.{
  Domain, Account, Tables, World, is_claimable, use_invite_code, create_account, violates_unique,
  username_exists,
}
use mailserver.Registration.Limiter.{RegAttempts, reg_rate_limited}
use mailserver.Registration.Form.{
  RegisterForm, Outcome, redirect, unavailable, form_is_valid, register, claim_and_create,
  hash_and_create, create, success_page, is_open, find_domain, answer_form, handle_form,
}
use mailserver.Registration.Codes.{
  use_invite_code-accounts, use_invite_code-refused, claim-pos, violates_unique-username_exists,
}

-- The account that a form asks for.
abbrev pub account_of : RegisterForm → Domain → Text → Tables → Account
account_of form d hash t = record {
  id = t.next_account;
  domain_id = d.id;
  username = to_ascii_lowercase (trim form.username);
  password_hash = hash;
  name = trim form.name;
  quota = 1048576;
}

-- The success page, the pair for the thread, and the new account before the old ones.
abbrev pub Registered : RegisterForm → Domain → Text → Tables → Outcome → Type 0
Registered form d hash t o =
    let name = to_ascii_lowercase (trim form.username) in
    (o.answer ≡ redirect (success_page name d.domain))
    × (o.registered ≡ some (name, d.domain))
    × (o.tables.accounts ≡ account_of form d hash t ∷ t.accounts)

create-Registered :
    (world : World) (form : RegisterForm) (d : Domain) (hash : Text) (t t' : Tables)
    → world.insert_fails ≡ false
    → violates_unique d.id (to_ascii_lowercase (trim form.username)) t'.accounts ≡ false
    → t'.accounts ≡ t.accounts
    → t'.next_account ≡ t.next_account
    → Registered form d hash t (create world form d hash t')
unfolding create create_account
create-Registered world form d hash t t' runs unique same next = ground arith

form_is_valid-username :
    (world : World) (form : RegisterForm) (d : Domain) (t : Tables)
    → form_is_valid world form d t ≡ true
    → username_exists world d.id (to_ascii_lowercase (trim form.username)) t ≡ false
unfolding form_is_valid
form_is_valid-username world form d t h = ground arith

-- The statements and bcrypt run in one request.
pub record Runs (world : World) (form : RegisterForm) : Type 0 where
  pub hash : Text
  pub hashed : world.hash_password form.password ≡ some hash
  pub inserted : world.insert_fails ≡ false

unique_after :
    (world : World) (form : RegisterForm) (d : Domain) (t : Tables) (code user : Text)
    → form_is_valid world form d t ≡ true
    → violates_unique d.id
        (to_ascii_lowercase (trim form.username))
        (use_invite_code world code user t).1.accounts
      ≡ false
unique_after world form d t code user valid =
    rw (use_invite_code-accounts world code user t)
      (violates_unique-username_exists world d.id _ t (form_is_valid-username world form d t valid))

use_invite_code-next :
    (world : World) (code user : Text) (t : Tables)
    → (use_invite_code world code user t).1.next_account ≡ t.next_account
unfolding use_invite_code
use_invite_code-next world code user t = ground arith

claim_and_create-Registered :
    (world : World) (form : RegisterForm) (d : Domain) (t : Tables) (hash : Text)
    → world.hash_password form.password ≡ some hash
    → world.insert_fails ≡ false
    → form_is_valid world form d t ≡ true
    → (use_invite_code world
        (trim form.invite_code)
        (to_ascii_lowercase (trim form.username) ++ codes "@" ++ d.domain)
        t).0
      ≡ true
    → Registered form d hash t (claim_and_create world form d t)
unfolding claim_and_create hash_and_create
claim_and_create-Registered world form d t hash hashed runs valid taken =
    let code = trim form.invite_code in
    let name = to_ascii_lowercase (trim form.username) in
    let user = name ++ codes "@" ++ d.domain in
    rw (claim_and_create, taken, hash_and_create, hashed)
      (create-Registered world form d hash t (use_invite_code world code user t).1 runs
        (unique_after world form d t code user valid) (use_invite_code-accounts world code user t)
        (use_invite_code-next world code user t))

-- A request that made no account leaves the tables as they were, when its statements run.
claim_and_create-unchanged :
    (world : World) (form : RegisterForm) (d : Domain) (t : Tables)
    → Runs world form
    → form_is_valid world form d t ≡ true
    → (claim_and_create world form d t).registered ≡ none
    → (claim_and_create world form d t).tables ≡ t
unfolding claim_and_create
claim_and_create-unchanged world form d t runs valid e =
    let code = trim form.invite_code in
    let user = to_ascii_lowercase (trim form.username) ++ codes "@" ++ d.domain in
    elim (Bool-cases (use_invite_code world code user t).0) [
      | inl taken ↦
          let (page, pair, rows) =
            claim_and_create-Registered world form d t runs.hash runs.hashed runs.inserted valid
              taken in
          cc
      | inr refused ↦
          rw (claim_and_create, refused) (use_invite_code-refused world code user t refused)
    ]

register-unchanged :
    (world : World) (form : RegisterForm) (d : Domain) (t : Tables)
    → Runs world form
    → (register world form d t).registered ≡ none
    → (register world form d t).tables ≡ t
unfolding register
register-unchanged world form d t runs e = elim (Bool-cases (form_is_valid world form d t)) [
  | inl valid ↦
      rw (register, valid)
        (claim_and_create-unchanged world form d t runs valid (rw (register, valid) at e))
  | inr invalid ↦ rw (register, invalid) refl
]

answer_form-unchanged :
    (world : World) (form : RegisterForm) (t : Tables)
    → Runs world form
    → (answer_form world form t).registered ≡ none
    → (answer_form world form t).tables ≡ t
unfolding answer_form
answer_form-unchanged world form t runs h = elim (Option-cases (find_domain world form t)) [
  | inl e ↦ rw (answer_form, e) refl
  | inr (d, e) ↦ elim (Bool-cases (is_open d)) [
    | inl open_domain ↦
        rw (answer_form, e, open_domain)
          (register-unchanged world form d t runs (rw (answer_form, e, open_domain) at h))
    | inr shut ↦ rw (answer_form, e, shut) refl
  ]
]

-- No failed check burns an invite code: if the statements of the request run and the password is
-- hashed, a request for which no account is made leaves every table as it was.
pub handle_form-unchanged :
    (world : World) (ip : IpAddr) (now : ℕ) (form : RegisterForm) (m : RegAttempts) (t : Tables)
    → Runs world form
    → (handle_form world ip now form (m, t)).1.registered ≡ none
    → (handle_form world ip now form (m, t)).1.tables ≡ t
unfolding handle_form
handle_form-unchanged world ip now form m t runs h =
    elim (Bool-cases (reg_rate_limited ip now m).0) [
      | inl limited ↦ rw (handle_form, limited) refl
      | inr passes ↦
          rw (handle_form, passes)
            (answer_form-unchanged world form t runs (rw (handle_form, passes) at h))
    ]

use_invite_code-free :
    (world : World) (code user : Text) (t : Tables)
    → world.claim_fails ≡ false
    → any (is_claimable code) t.invite_codes ≡ true
    → (use_invite_code world code user t).0 ≡ true
unfolding use_invite_code
use_invite_code-free world code user t runs h =
    ground (arith, claim-pos world code user t.invite_codes)

-- A person with a free code gets an account: if the address is not limited, the domain takes
-- registrations, every check of the form passes and the statements run, the answer is the success
-- page, and the account stands in the table with the hash of the password.
pub handle_form-Registered :
    (world : World) (ip : IpAddr) (now : ℕ) (form : RegisterForm) (m : RegAttempts) (t : Tables)
    (d : Domain) (runs : Runs world form)
    → world.claim_fails ≡ false
    → (reg_rate_limited ip now m).0 ≡ false
    → find_domain world form t ≡ some d
    → is_open d ≡ true
    → form_is_valid world form d t ≡ true
    → any (is_claimable (trim form.invite_code)) t.invite_codes ≡ true
    → Registered form d runs.hash t (handle_form world ip now form (m, t)).1
unfolding handle_form answer_form register
handle_form-Registered world ip now form m t d runs claims passes found open_domain valid code =
    rw (handle_form, passes, answer_form, found, open_domain, register, valid)
      (claim_and_create-Registered world form d t runs.hash runs.hashed runs.inserted valid
        (use_invite_code-free world (trim form.invite_code) _ t claims code))

abbrev pub has_open_domain : World → RegisterForm → Tables → Bool
has_open_domain world form t = elim (find_domain world form t) [ none ↦ false | some d ↦ is_open d ]

create-answer :
    (world : World) (form : RegisterForm) (d : Domain) (hash : Text) (t : Tables)
    → (create world form d hash t).answer ≢ unavailable
unfolding create
create-answer world form d hash t h = ground arith

register-answer :
    (world : World) (form : RegisterForm) (d : Domain) (t : Tables)
    → (register world form d t).answer ≢ unavailable
unfolding register claim_and_create hash_and_create
register-answer world form d t h = ground (arith, create-answer world form d)

answer_form-unavailable_iff :
    (world : World) (form : RegisterForm) (t : Tables)
    → ((answer_form world form t).answer ≡ unavailable) ↔ (has_open_domain world form t ≡ false)
unfolding answer_form
answer_form-unavailable_iff world form t = elim (Option-cases (find_domain world form t)) [
  | inl e ↦ rw (answer_form, has_open_domain, e) (λ h. refl, λ h. refl)
  | inr (d, e) ↦ elim (Bool-cases (is_open d)) [
    | inl open_domain ↦
        rw (answer_form, has_open_domain, e, open_domain)
          (λ h. absurd (register-answer world form d t h), λ h. cc)
    | inr shut ↦ rw (answer_form, has_open_domain, e, shut) (λ h. refl, λ h. refl)
  ]
]

-- The answer of a request that is not limited tells whether the domain takes registrations, whatever
-- else is in the form: the error page with status 200 comes exactly for a domain that does not.
pub handle_form-unavailable_iff :
    (world : World) (ip : IpAddr) (now : ℕ) (form : RegisterForm) (m : RegAttempts) (t : Tables)
    → (reg_rate_limited ip now m).0 ≡ false
    → ((handle_form world ip now form (m, t)).1.answer ≡ unavailable)
      ↔ (has_open_domain world form t ≡ false)
unfolding handle_form answer_form
handle_form-unavailable_iff world ip now form m t passes =
    rw (handle_form, passes) (answer_form-unavailable_iff world form t)
