-- ===== src/Tests/Auth.antt =====
-- The authentication models on concrete inputs.
use Prim.Native.String.{String}
use mailserver.Prelude.{
  ℕ, ◌≡◌, refl, inl, inr, true, false, none, some, List, [], ◌∷◌, ◌++◌, Text, codes, lookup, arith,
  strip_prefix, split_once,
}
use mailserver.Net.IpAddr.{IpAddr, ipv4, ip_addr_eq}
use mailserver.Auth.Secrets.{verify_totp, totp_code}
use mailserver.Auth.Secrets.Laws.{verify_totp_iff}
use mailserver.Auth.Lockout.{secs, FailureRecord, is_locked_out, record_failure, clear_failures}
use mailserver.Auth.Lockout.Laws.{replay, is_locked_out-replay}
use mailserver.Auth.Lockout.Invariant.{FailuresAreValid, operations-FailuresAreValid}
use mailserver.Auth.Extractor.{
  Admin, Request, Services, granted, State, get_client_ip, from_request_parts,
}
use mailserver.Auth.Extractor.Access.{from_request_parts-granted_iff}

abbrev host : IpAddr
host = ipv4 198 51 100 7

abbrev other_host : IpAddr
other_host = ipv4 203 0 113 9

-- Five failures within a minute lock the address out for fifteen minutes.
locked_after_five :
    (is_locked_out host
      (secs 100)
      (replay host (secs 1 ∷ (secs 2 ∷ secs 3 ∷ secs 4 ∷ []) ++ secs 60 ∷ []) [])).0
    ≡ true
unfolding lookup
locked_after_five =
    (is_locked_out-replay host (secs 1) (secs 60) (secs 100) (secs 2 ∷ secs 3 ∷ secs 4 ∷ []) [] refl
        (omega arith) (omega arith)).0
      (omega arith)

abbrev banned_late : FailureRecord
banned_late = record { count = 5; first_at = 0; banned_until = some (secs 1700) }

empty_valid : FailuresAreValid 0 []
unfolding lookup
empty_valid ip rec e = absurd (ground arith)

operations_example :
    FailuresAreValid 7 (record_failure host 7 [])
    × FailuresAreValid 7 (is_locked_out host 7 []).1
    × FailuresAreValid 7 (clear_failures host [])
operations_example = operations-FailuresAreValid 0 7 host [] (omega arith) empty_valid

abbrev left : List ℕ
left = 1 ∷ 2 ∷ []

abbrev right : List ℕ
right = 1 ∷ 3 ∷ []

abbrev token : Text
token = codes "sécret"

-- A hash that gives the step as its last byte but one, and no offset.
abbrev toy_hmac : List ℕ → ℕ → List ℕ
toy_hmac secret step =
    0 ∷ 0 ∷ 0 ∷ step ∷ 0 ∷ 0 ∷ 0 ∷ 0 ∷ 0 ∷ 0 ∷ 0 ∷ 0 ∷ 0 ∷ 0 ∷ 0 ∷ 0 ∷ 0 ∷ 0 ∷ 0 ∷ 0 ∷ []

-- At 100 seconds the step is 3, and the code of step 4 is accepted.
verify_totp_example : verify_totp toy_hmac (some []) (some 100) (codes "000004") ≡ true
unfolding totp_code
verify_totp_example =
    (verify_totp_iff toy_hmac [] 100 (codes "000004") (omega arith) (omega arith)).1
      (inr (inl refl))

abbrev alice : Admin
alice = record {
  id = 1;
  username = codes "alice";
  password_hash = codes "hash";
  totp_secret = some [];
  totp_enabled = true;
}

abbrev plain_alice : Admin
plain_alice = record alice { totp_enabled = false }

-- The credentials stand in the header as they are, and every password is right.
abbrev services : Admin → Services
services admin = record {
  parse_ip = λ s. none;
  base64_decode = λ s. some s;
  from_utf8 = λ bytes. some bytes;
  bcrypt_verify = λ password hash. some true;
  base32_decode = λ s. some s;
  hmac_sha1 = toy_hmac;
  clock = some 100;
  api_token = none;
  first_admin = none;
  admin_by_username = λ s. some admin;
}

abbrev request : String → Request
request header = record {
  x_real_ip = none;
  x_forwarded_for = none;
  socket_addr = some host;
  authorization = some (codes header);
}

abbrev quiet : State
quiet = record { failures = []; log = [] }

abbrev banned : State
banned = record { failures = (host, banned_late) ∷ []; log = [] }

granted_iff_example :
    (from_request_parts (services plain_alice) (request "Basic alice:secret") 5 6 quiet).0
    ≡ granted plain_alice
unfolding lookup is_locked_out strip_prefix split_once get_client_ip
granted_iff_example =
    (from_request_parts-granted_iff (services plain_alice) (request "Basic alice:secret") 5 6 quiet
        plain_alice).1
      (
        refl,
        (
          codes "Basic alice:secret",
          refl,
          inr (
            codes "alice:secret",
            codes "alice:secret",
            codes "alice:secret",
            codes "alice",
            codes "secret",
            refl,
            refl,
            refl,
            refl,
            refl,
            refl,
            inl (refl, refl),
          ),
        ),
      )
