-- ===== src/WebDav/Authentic.antt =====
-- What require_webdav_auth of web/routes/webdav.rs shows of the sender of a request, and that it
-- touches no file.
use mailserver.Prelude.{
  ℕ, ◌≡◌, refl, inl, inr, true, Option, some, List, Text, arith, Bool-cases, Option-cases,
  text_eq_instance,
}
use mailserver.WebDav.Lockout.{is_locked}
use mailserver.WebDav.Files.{DavAccount, get_account_for_webdav_auth}
use mailserver.WebDav.Auth.{
  Request, World, State, parse_basic_auth, check_password, require_webdav_auth,
}

-- The sender has shown the password of an account that may use the server.
pub record Authentic (world : World) (req : Request) (accounts : List DavAccount) (id : ℕ)
    (email : Text) : Type 0 where
  pub password : Text
  pub hash : Text
  pub given : parse_basic_auth world req.authorization ≡ some (email, password)
  pub known : get_account_for_webdav_auth email accounts ≡ some (id, hash)
  pub verified : world.verify_password password hash ≡ true

check_password-Authentic :
    (world : World) (req : Request) (email password : Text) (s : State) (id : ℕ) (who : Text)
    → parse_basic_auth world req.authorization ≡ some (email, password)
    → (check_password world email password s).0 ≡ some (id, who)
    → (email ≡ who) × Authentic world req s.accounts id who
unfolding check_password
check_password-Authentic world req email password s id who given h =
    elim (Option-cases (get_account_for_webdav_auth email s.accounts)) [
      | inl e ↦ absurd (let k = rw (check_password, e) at h in ground arith)
      | inr ((n, hash), e) ↦ elim (Bool-cases (world.verify_password password hash)) [
        | inr wrong ↦ absurd (let k = rw (check_password, e, wrong) at h in ground arith)
        | inl right ↦
            let k = rw (check_password, e, right) at h in
            let same : email ≡ who = ground arith in
            let same_id : n ≡ id = ground arith in
            (
              same,
              record {
                password = password;
                hash = hash;
                given = rw (← same) given;
                known = rw (← same, ← same_id) e;
                verified = right;
              },
            )
      ]
    ]

pub require_webdav_auth-Authentic :
    (world : World) (req : Request) (s : State) (id : ℕ) (who : Text)
    → (require_webdav_auth world req.authorization s).0 ≡ some (id, who)
    → Authentic world req s.accounts id who
unfolding require_webdav_auth
require_webdav_auth-Authentic world req s id who h =
    elim (Option-cases (parse_basic_auth world req.authorization)) [
      | inl e ↦ absurd (let k = rw (require_webdav_auth, e) at h in ground arith)
      | inr ((email, password), e) ↦ elim (Bool-cases (is_locked email world.now s.failures).0) [
        | inl locked ↦ absurd (let k = rw (require_webdav_auth, e, locked) at h in ground arith)
        | inr passes ↦
            (check_password-Authentic world req email password
              (record s { failures = (is_locked email world.now s.failures).1 }) id who e
              (rw (require_webdav_auth, e, passes) at h)).1
      ]
    ]

-- Authentication touches the failures alone.
abbrev pub SameStore : State → State → Type 0
SameStore s t = (s.files ≡ t.files) × (s.disk ≡ t.disk)

check_password-SameStore :
    (world : World) (email password : Text) (s : State)
    → SameStore (check_password world email password s).1 s
unfolding check_password
check_password-SameStore world email password s = ground arith

pub require_webdav_auth-SameStore :
    (world : World) (authorization : Option Text) (s : State)
    → SameStore (require_webdav_auth world authorization s).1 s
unfolding require_webdav_auth
require_webdav_auth-SameStore world authorization s =
    elim (Option-cases (parse_basic_auth world authorization)) [
      | inl e ↦ rw (require_webdav_auth, e) (refl, refl)
      | inr ((email, password), e) ↦
          let s' : State = record s { failures = (is_locked email world.now s.failures).1 } in
          let (files, disk) = check_password-SameStore world email password s' in
          elim (Bool-cases (is_locked email world.now s.failures).0) [
            | inl locked ↦ rw (require_webdav_auth, e, locked) (refl, refl)
            | inr passes ↦ rw (require_webdav_auth, e, passes) (files, disk)
          ]
    ]
