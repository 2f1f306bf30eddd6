-- ===== src/CalDav/Access.antt =====
-- Who gets access in web/routes/caldav.rs: from the header to the tables.
use mailserver.Prelude.{
  ◌≡◌, sym, ap, ◌∙◌, ◌⊎◌, inl, inr, true, Option, some, ◌∷◌, Text, arith, Option-cases, ℕ,
}
use mailserver.WebDav.Files.{DavAccount}
use mailserver.WebDav.Lockout.{is_locked}
use mailserver.CalDav.Tables.{get_caldav_calendar_by_slug}
use mailserver.CalDav.Auth.{
  World, State, Request, authenticate_caldav_account, check_account, credentials,
  get_account_by_email, with_failures,
}
use mailserver.CalDav.Handler.{is_own, dispatch, serve_account, protocol_handler}
use mailserver.CalDav.Ownership.{
  SameTables, Allowed, same, touched, made, other_calendars, other_objects, dispatch-Allowed,
}

pub serve_account-cases :
    (world : World) (account : DavAccount) (req : Request) (s : State)
    → ((serve_account world (some account) req s).1 ≡ s)
      ⊎ ((serve_account world (some account) req s ≡ dispatch world account req s)
          × (is_own world account req.path ≡ true))
unfolding serve_account
serve_account-cases world account req s = ground arith

-- Failures are counted, and no more, before a request is served.
pub authenticate-SameTables :
    (world : World) (authorization : Option Text) (s : State)
    → SameTables s (authenticate_caldav_account world authorization s).1
unfolding authenticate_caldav_account check_account
authenticate-SameTables world authorization s = (ground arith, ground arith)

-- The sender of a request: the account of the name in the header, active and with the password of the
-- header, whose path the request is for.
pub record IsSender (world : World) (req : Request) (s : State) (account : DavAccount)
    : Type 0 where
  pub email : Text
  pub password : Text
  pub named : credentials world req.authorization ≡ some (email, password)
  pub found : get_account_by_email world email s.accounts ≡ some account
  pub active : account.active ≡ true
  pub verified : world.verify_password password account.password_hash ≡ true
  pub own : is_own world account req.path ≡ true

check_account-some :
    (world : World) (email password : Text) (s : State) {account : DavAccount}
    → (check_account world email password s).0 ≡ some account
    → (get_account_by_email world email s.accounts ≡ some account)
      × (account.active ≡ true)
      × (world.verify_password password account.password_hash ≡ true)
unfolding check_account
check_account-some world email password s {account} h =
    elim (Option-cases (get_account_by_email world email s.accounts)) [
      | inl missing ↦ absurd (ground (arith, missing))
      | inr (found, e) ↦ ground (arith, e)
    ]

Allowed-from :
    (account : ℕ) (s s1 s2 : State) → SameTables s s1 → Allowed account s1 s2 → Allowed account s s2
Allowed-from account s s1 s2 (e, f) (same (p, q)) = same (p ∙ e, q ∙ f)
Allowed-from account s s1 s2 (e, f) (touched cal slug there (p, q)) =
    touched cal slug
      (ap (λ calendars. get_caldav_calendar_by_slug account slug calendars) (sym e) ∙ there)
      (
        p ∙ ap (λ calendars. other_calendars cal.id calendars) e,
        q ∙ ap (λ objects. other_objects cal.id objects) f,
      )
Allowed-from account s s1 s2 (e, f) (made cal owned p q) =
    made cal owned (p ∙ ap (λ calendars. cal ∷ calendars) e) (q ∙ f)

authenticate-some :
    (world : World) (req : Request) (s : State) {account : DavAccount}
    → (authenticate_caldav_account world req.authorization s).0 ≡ some account
    → is_own world account req.path ≡ true
    → IsSender world req s account
unfolding authenticate_caldav_account
authenticate-some world req s {account} h own =
    elim (Option-cases (credentials world req.authorization)) [
      | inl missing ↦ absurd (ground (arith, missing))
      | inr ((email, password), e) ↦
          let s' = with_failures (is_locked email world.now s.failures).1 s in
          let checked : (check_account world email password s').0 ≡ some account =
            ground (arith, e) in
          let (found, active, verified) = check_account-some world email password s' checked in
          record {
            email = email;
            password = password;
            named = e;
            found = found;
            active = active;
            verified = verified;
            own = own;
          }
    ]

-- Only the sender's own calendars change: after any request the tables of calendars and objects are as
-- before, or the request carries the name and the password of an active account and a path below this
-- account's own, and at most one calendar is new, which is the account's, or one calendar that was the
-- account's and its objects differ.
pub protocol_handler-Allowed :
    (world : World) (req : Request) (s : State)
    → SameTables s (protocol_handler world req s).1
      ⊎ ((account : DavAccount) × IsSender world req s account
          × Allowed account.id s (protocol_handler world req s).1)
unfolding protocol_handler serve_account
protocol_handler-Allowed world req s =
    let s1 = (authenticate_caldav_account world req.authorization s).1 in
    let kept = authenticate-SameTables world req.authorization s in
    elim (Option-cases (authenticate_caldav_account world req.authorization s).0) [
      | inl refused ↦ inl (rw (protocol_handler, refused) kept)
      | inr (account, e) ↦ elim (serve_account-cases world account req s1) [
        | inl unchanged ↦ inl (rw (protocol_handler, e, unchanged) kept)
        | inr (served, own) ↦ inr (
          account,
          authenticate-some world req s e own,
          rw (protocol_handler, e, served)
              (Allowed-from account.id s s1 (dispatch world account req s1).1 kept
                (dispatch-Allowed world account req s1)),
        )
      ]
    ]
