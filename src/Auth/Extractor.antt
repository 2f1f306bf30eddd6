-- ===== src/Auth/Extractor.antt =====
-- `AuthAdmin::from_request_parts` and `get_client_ip` of web/auth.rs. What the handler asks of the
-- database, of third-party code and of the standard library's parsers is the record `Services`; the
-- answers of the database are those at the time of the request.
use mailserver.Prelude.{
  ℕ, ◌-◌, Bool, true, false, not, Option, none, some, List, [], ◌∷◌, ◌++◌, ltb, if◌then◌else◌, Text,
  codes, byte_len, trim, strip_prefix, split_char, split_bytes, split_once, is_control, as_bytes,
}
use mailserver.Net.IpAddr.{IpAddr, ipv4}
use mailserver.Auth.Secrets.{verify_api_token, verify_totp}
use mailserver.Auth.Lockout.{Failures, is_locked_out, record_failure, clear_failures}
pub mod Laws
pub mod Access

pub record Admin : Type 0 where
  pub id : ℕ
  pub username : Text
  pub password_hash : Text
  pub totp_secret : Option Text
  pub totp_enabled : Bool

-- The header values are `none` where the header is missing or not readable as text.
pub record Request : Type 0 where
  pub x_real_ip : Option Text
  pub x_forwarded_for : Option Text
  pub socket_addr : Option IpAddr
  pub authorization : Option Text

pub record Services : Type 0 where
  pub parse_ip : Text → Option IpAddr
  pub base64_decode : Text → Option (List ℕ)
  pub from_utf8 : List ℕ → Option Text
  pub bcrypt_verify : Text → Text → Option Bool
  pub base32_decode : List ℕ → Option (List ℕ)
  pub hmac_sha1 : List ℕ → ℕ → List ℕ
  pub clock : Option ℕ
  pub api_token : Option Text
  pub first_admin : Option Admin
  pub admin_by_username : Text → Option Admin

pub data Outcome : Type 0 where
  granted : Admin → Outcome
  rate_limited unauthorized panicked : Outcome

-- The failure map and the lines that the handler has written for fail2ban.
pub record State : Type 0 where
  pub failures : Failures
  pub log : List (IpAddr × Text)

abbrev or_else {ℓ} : {A : Type ℓ} → Option A → Option A → Option A
or_else (some a) b = some a
or_else none b = b

abbrev default_ip : Option IpAddr → IpAddr
default_ip none = ipv4 127 0 0 1
default_ip (some ip) = ip

abbrev parsed : (Text → Option IpAddr) → Option Text → Option IpAddr
parsed parse none = none
parsed parse (some s) = parse (trim s)

-- `str::split(',').next_back()`
unfoldable pub last_piece : List Text → Option Text
last_piece [] = none
last_piece (s ∷ []) = some s
last_piece (s ∷ t ∷ ts) = last_piece (t ∷ ts)

abbrev last_entry : Option Text → Option Text
last_entry none = none
last_entry (some s) = last_piece (split_char b',' s)

unfoldable pub get_client_ip : (Text → Option IpAddr) → Request → IpAddr
get_client_ip parse r = default_ip (
    or_else (parsed parse r.x_real_ip)
      (or_else (parsed parse (last_entry r.x_forwarded_for)) r.socket_addr))

-- `auth::verify_password`
abbrev verify_password : Services → Text → Text → Bool
verify_password sv password hash = elim (sv.bcrypt_verify password hash) [
  | none ↦ false
  | some b ↦ b
]

unfoldable pub keep_printable : Text → Text
unfolding is_control
keep_printable [] = []
keep_printable (c ∷ s) = let rest = keep_printable s in if is_control c then rest else c ∷ rest

-- `record_failure` and `fail2ban::record_web_auth_failure`, then the 401 answer.
unfoldable pub fail_with : IpAddr → ℕ → Text → State → Outcome × State
unfolding keep_printable
fail_with ip now username st = (
  unauthorized,
  record {
    failures = record_failure ip now st.failures;
    log = st.log ++ (ip, keep_printable username) ∷ [];
  },
)

unfoldable pub succeed : IpAddr → Admin → State → Outcome × State
succeed ip admin st = (granted admin, record st { failures = clear_failures ip st.failures })

module _ (sv : Services) (ip : IpAddr) (now : ℕ) where
  -- After the password: `admin.totp_secret` and the one-time code.
  unfoldable pub check_totp : Admin → Text → Text → State → Outcome × State
  unfolding fail_with succeed
  check_totp admin username code st = elim admin.totp_secret [
    | none ↦ (unauthorized, st)
    | some secret ↦
        if verify_totp sv.hmac_sha1 (sv.base32_decode (as_bytes secret)) sv.clock code
        then succeed ip admin st
        else fail_with ip now username st
  ]

  unfoldable pub check_parts : Admin → Text → Option (Text × Text) → State → Outcome × State
  unfolding check_totp fail_with
  check_parts admin username none st = (panicked, st)
  check_parts admin username (some (base_password, totp_code)) st =
      if verify_password sv base_password admin.password_hash
      then check_totp admin username totp_code st
      else fail_with ip now username st

  unfoldable pub check_password : Admin → Text → Text → State → Outcome × State
  unfolding check_parts fail_with succeed
  check_password admin username password st =
      if admin.totp_enabled
      then if ltb (byte_len password) 6
        then fail_with ip now username st
        else check_parts admin username (split_bytes (byte_len password - 6) password) st
      else if verify_password sv password admin.password_hash
      then succeed ip admin st
      else fail_with ip now username st

  unfoldable pub check_user : Option (Text × Text) → State → Outcome × State
  unfolding check_password fail_with
  check_user none st = fail_with ip now (codes "unknown") st
  check_user (some (username, password)) st = elim (sv.admin_by_username username) [
    | none ↦ fail_with ip now username st
    | some admin ↦ check_password admin username password st
  ]

  unfoldable pub check_basic : Text → State → Outcome × State
  unfolding check_user fail_with
  check_basic encoded st = elim (sv.base64_decode encoded) [
    | none ↦ fail_with ip now (codes "unknown") st
    | some decoded ↦ elim (sv.from_utf8 decoded) [
      | none ↦ fail_with ip now (codes "unknown") st
      | some credentials ↦ check_user (split_once b':' credentials) st
    ]
  ]

  unfoldable pub check_bearer : Text → State → Outcome × State
  unfolding fail_with succeed
  check_bearer token st =
      if verify_api_token sv.api_token (trim token)
      then elim sv.first_admin [ none ↦ (unauthorized, st) | some admin ↦ succeed ip admin st ]
      else fail_with ip now (codes "bearer") st

  unfoldable pub check_header : Text → State → Outcome × State
  unfolding check_bearer check_basic
  check_header header st = elim (strip_prefix (codes "Bearer ") header) [
    | some token ↦ check_bearer token st
    | none ↦ elim (strip_prefix (codes "Basic ") header) [
      | none ↦ (unauthorized, st)
      | some encoded ↦ check_basic encoded st
    ]
  ]

  unfoldable pub check_request : Option Text → State → Outcome × State
  unfolding check_header
  check_request none st = (unauthorized, st)
  check_request (some header) st = check_header header st

admit : Bool → Services → Request → ℕ → State → Outcome × State
unfolding check_request get_client_ip
admit true sv r now st = (rate_limited, st)
admit false sv r now st = check_request sv (get_client_ip sv.parse_ip r) now r.authorization st

-- `now` is the time of the check of the limiter, `later` that of a failure recorded.
unfoldable pub from_request_parts : Services → Request → ℕ → ℕ → State → Outcome × State
unfolding get_client_ip admit
from_request_parts sv r now later st =
    let (locked, failures) = is_locked_out (get_client_ip sv.parse_ip r) now st.failures in
    admit locked sv r later (record st { failures = failures })
