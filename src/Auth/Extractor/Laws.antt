-- ===== src/Auth/Extractor/Laws.antt =====
-- Who is let in by the request extractor of web/auth.rs, and what a rejected request leaves behind.
use mailserver.Prelude.{
  ℕ, ◌-◌, ◌≤◌, ◌≡◌, refl, ap, subst, ◌∙◌, ◌⊎◌, inl, inr, Bool-cases, Option-cases, true, false,
  Option, none, some, List, Text, codes, byte_len, trim, strip_prefix, split_bytes, split_once,
  as_bytes, arith,
}
use mailserver.Net.IpAddr.{IpAddr}
use mailserver.Auth.Secrets.{verify_api_token, verify_totp}
use mailserver.Auth.Extractor.{
  Admin, Services, granted, State, check_totp, check_parts, check_password, check_user,
  check_header, succeed,
}

-- The password of an account without one-time codes; or with them, the password and behind it, in
-- the last six bytes, a code of the stored secret.
abbrev pub PasswordProves : Services → Admin → Text → Type 0
PasswordProves sv admin password =
    ((admin.totp_enabled ≡ false) × (sv.bcrypt_verify password admin.password_hash ≡ some true))
    ⊎ ((admin.totp_enabled ≡ true)
        × (6 ≤ byte_len password)
        × ((base : Text) × (code : Text) × (secret : Text) × (split_bytes (byte_len password - 6)
                password
              ≡ some (base, code))
            × (sv.bcrypt_verify base admin.password_hash ≡ some true)
            × (admin.totp_secret ≡ some secret)
            × (verify_totp sv.hmac_sha1 (sv.base32_decode (as_bytes secret)) sv.clock code ≡ true)))

-- The stored bearer token, for the first administrator; or the user name of an administrator and a
-- password that proves it.
abbrev pub HeaderProves : Services → Text → Admin → Type 0
HeaderProves sv header admin =
    ((token : Text) × (strip_prefix (codes "Bearer ") header ≡ some token)
      × (verify_api_token sv.api_token (trim token) ≡ true)
      × (sv.first_admin ≡ some admin))
    ⊎ ((encoded : Text) × (decoded : List ℕ) × (credentials : Text) × (username : Text)
        × (password : Text) × (strip_prefix (codes "Bearer ") header ≡ none)
        × (strip_prefix (codes "Basic ") header ≡ some encoded)
        × (sv.base64_decode encoded ≡ some decoded)
        × (sv.from_utf8 decoded ≡ some credentials)
        × (split_once b':' credentials ≡ some (username, password))
        × (sv.admin_by_username username ≡ some admin)
        × PasswordProves sv admin password)

module _ (sv : Services) (ip : IpAddr) (now : ℕ) where
  check_totp-granted :
      (admin found : Admin) (username code : Text) (o : Option Text) (st : State)
      → admin.totp_secret ≡ o
      → (check_totp sv ip now admin username code st).0 ≡ granted found
      → (admin ≡ found)
        × ((secret : Text) × (o ≡ some secret)
            × (verify_totp sv.hmac_sha1 (sv.base32_decode (as_bytes secret)) sv.clock code ≡ true))
  unfolding check_totp
  check_totp-granted admin found username code none st e h = absurd (ground arith)
  check_totp-granted admin found username code (some secret) st e h =
      (ground arith, (secret, refl, ground arith))

  check_parts-granted :
      (admin found : Admin) (username : Text) (o : Option (Text × Text)) (st : State)
      → (check_parts sv ip now admin username o st).0 ≡ granted found
      → (admin ≡ found)
        × ((base : Text) × (code : Text) × (secret : Text) × (o ≡ some (base, code))
            × (sv.bcrypt_verify base admin.password_hash ≡ some true)
            × (admin.totp_secret ≡ some secret)
            × (verify_totp sv.hmac_sha1 (sv.base32_decode (as_bytes secret)) sv.clock code ≡ true))
  unfolding check_parts
  check_parts-granted admin found username none st h = absurd (ground arith)
  check_parts-granted admin found username (some (base, code)) st h =
      let verified : sv.bcrypt_verify base admin.password_hash ≡ some true = ground arith in
      let reached : (check_totp sv ip now admin username code st).0 ≡ granted found =
        ground arith in
      let (same, (secret, stored, valid)) =
        check_totp-granted admin found username code admin.totp_secret st refl reached in
      (same, (base, code, secret, refl, verified, stored, valid))

  check_password-granted :
      (admin found : Admin) (username password : Text) (st : State)
      → (check_password sv ip now admin username password st).0 ≡ granted found
      → (admin ≡ found) × PasswordProves sv admin password
  unfolding check_password
  check_password-granted admin found username password st h = elim (Bool-cases admin.totp_enabled) [
    | inl on ↦
        let long : 6 ≤ byte_len password = ground arith in
        let reached : (check_parts sv ip now admin username
              (split_bytes (byte_len password - 6) password) st).0
            ≡ granted found =
          ground arith in
        let (same, proof) = check_parts-granted admin found username _ st reached in
        (same, inr (on, long, proof))
    | inr off ↦ (ground arith, inl (off, ground arith))
  ]

  check_user-granted :
      (found : Admin) (o : Option (Text × Text)) (st : State)
      → (check_user sv ip now o st).0 ≡ granted found
      → (username : Text) × (password : Text) × (o ≡ some (username, password))
        × (sv.admin_by_username username ≡ some found)
        × PasswordProves sv found password
  unfolding check_user
  check_user-granted found none st h = absurd (ground arith)
  check_user-granted found (some (username, password)) st h =
      elim (Option-cases (sv.admin_by_username username)) [
        | inl e ↦ absurd (ground arith)
        | inr (admin, e) ↦
            let reached : (check_password sv ip now admin username password st).0 ≡ granted found =
              ground arith in
            let (same, proof) = check_password-granted admin found username password st reached in
            (
              username,
              password,
              refl,
              e ∙ ap some same,
              subst (λ a. PasswordProves sv a password) same proof,
            )
      ]

  granted-check_password :
      (admin : Admin) (username password : Text) (st : State)
      → PasswordProves sv admin password
      → check_password sv ip now admin username password st ≡ succeed ip admin st
  unfolding check_password
  granted-check_password admin username password st h = ground arith

  pub check_header-granted :
      (found : Admin) (header : Text) (st : State)
      → (check_header sv ip now header st).0 ≡ granted found
      → HeaderProves sv header found
  unfolding check_header
  check_header-granted found header st h =
      elim (Option-cases (strip_prefix (codes "Bearer ") header)) [
        | inr (token, e) ↦ inl (token, e, ground arith, ground arith)
        | inl e ↦ elim (Option-cases (strip_prefix (codes "Basic ") header)) [
          | inl e' ↦ absurd (ground arith)
          | inr (encoded, e') ↦ elim (Option-cases (sv.base64_decode encoded)) [
            | inl d ↦ absurd (ground arith)
            | inr (decoded, d) ↦ elim (Option-cases (sv.from_utf8 decoded)) [
              | inl c ↦ absurd (ground arith)
              | inr (credentials, c) ↦
                  let (username, password, split, known, proof) =
                    check_user-granted found (split_once b':' credentials) st (ground arith) in
                  inr (
                    encoded, decoded, credentials, username, password, e, e', d, c, split, known,
                    proof,
                  )
            ]
          ]
        ]
      ]

  pub granted-check_header :
      (found : Admin) (header : Text) (st : State)
      → HeaderProves sv header found
      → check_header sv ip now header st ≡ succeed ip found st
  unfolding check_header
  granted-check_header found header st (inl h) = ground arith
  granted-check_header found header st
        (inr
          (encoded, decoded, credentials, username, password, e, e', d, c, split, known, proof)) =
      ground (arith, granted-check_password found username password st proof)
