-- ===== src/Auth/Extractor/Access.antt =====
-- The whole request extractor of web/auth.rs: who is let in, what a success and a lock-out do to
-- the state, and the panic on a password that ends inside a character.
use mailserver.Prelude.{
  ℕ, ◌-◌, ◌≤◌, ◌≡◌, refl, ap, ◌↔◌, Bool, true, false, Option, none, some, List, Text, codes,
  byte_len, strip_prefix, split_bytes, split_once, arith, lookup, lookup-remove_self,
}
use mailserver.Net.IpAddr.{IpAddr, ip_addr_eq}
use mailserver.Auth.Lockout.{is_locked_out, clear_failures}
use mailserver.Auth.Extractor.{
  Admin, Request, Services, granted, rate_limited, panicked, State, get_client_ip, check_header,
  check_request, admit, from_request_parts, succeed,
}
use mailserver.Auth.Extractor.Laws.{HeaderProves, check_header-granted, granted-check_header}

module _ (sv : Services) (r : Request) (now later : ℕ) (st : State) where
  abbrev client : IpAddr
  client = get_client_ip sv.parse_ip r

  abbrev checked : State
  checked = record st { failures = (is_locked_out client now st.failures).1 }

  check_request-granted :
      (admin : Admin) (o : Option Text)
      → (check_request sv client later o checked).0 ≡ granted admin
      → (header : Text) × (o ≡ some header) × HeaderProves sv header admin
  unfolding check_request
  check_request-granted admin none h = absurd (ground arith)
  check_request-granted admin (some header) h =
      (header, refl, check_header-granted sv client later admin header checked h)

  admit-granted :
      (admin : Admin) (locked : Bool)
      → (admit locked sv r later checked).0 ≡ granted admin
      → (locked ≡ false)
        × ((header : Text) × (r.authorization ≡ some header) × HeaderProves sv header admin)
  unfolding admit
  admit-granted admin true h = absurd (ground arith)
  admit-granted admin false h = (refl, check_request-granted admin r.authorization h)

  granted-admit :
      (admin : Admin) (header : Text)
      → r.authorization ≡ some header
      → HeaderProves sv header admin
      → admit false sv r later checked ≡ succeed client admin checked
  unfolding admit check_request
  granted-admit admin header e proof =
      rw (e, check_request) (granted-check_header sv client later admin header checked proof)

  -- An administrator is let in exactly if the client's address is not locked out and the
  -- Authorization header proves that administrator.
  pub from_request_parts-granted_iff :
      (admin : Admin)
      → ((from_request_parts sv r now later st).0 ≡ granted admin) ↔ (
          ((is_locked_out client now st.failures).0 ≡ false)
          × ((header : Text) × (r.authorization ≡ some header) × HeaderProves sv header admin))
  unfolding from_request_parts succeed
  from_request_parts-granted_iff admin = (
    λ h. admit-granted admin (is_locked_out client now st.failures).0 h,
    λ (open_, (header, e, proof)). rw open_ (ap (λ t. t.0) (granted-admit admin header e proof)),
  )

  -- A locked-out client gets the rate-limit answer whatever its header says and whatever the
  -- services answer; nothing is written for fail2ban, and the map is as the check left it.
  pub from_request_parts-locked :
      (is_locked_out client now st.failures).0 ≡ true
      → (from_request_parts sv r now later st).0 ≡ rate_limited
        × ((from_request_parts sv r now later st).1.log ≡ st.log)
        × ((from_request_parts sv r now later st).1.failures
            ≡ (is_locked_out client now st.failures).1)
  unfolding from_request_parts admit
  from_request_parts-locked h = rw h (refl, refl, refl)

  -- A client that is let in has no failure record any more, and its success is not written down.
  pub from_request_parts-clears :
      (admin : Admin)
      → (from_request_parts sv r now later st).0 ≡ granted admin
      → (lookup client (from_request_parts sv r now later st).1.failures ≡ none)
        × ((from_request_parts sv r now later st).1.log ≡ st.log)
  unfolding from_request_parts succeed clear_failures
  from_request_parts-clears admin h =
      let (open_, (header, e, proof)) =
        admit-granted admin (is_locked_out client now st.failures).0 h in
      rw (open_, granted-admit admin header e proof)
        (lookup-remove_self client checked.failures, refl)

  -- A client that is not locked out, names an administrator with one-time codes and sends a
  -- password of six bytes or more whose last six bytes begin inside a character makes the handler
  -- panic; no failure is recorded and nothing is written for fail2ban.
  pub from_request_parts-panics :
      (admin : Admin) (header encoded credentials username password : Text) (decoded : List ℕ)
      → (is_locked_out client now st.failures).0 ≡ false
      → r.authorization ≡ some header
      → strip_prefix (codes "Bearer ") header ≡ none
      → strip_prefix (codes "Basic ") header ≡ some encoded
      → sv.base64_decode encoded ≡ some decoded
      → sv.from_utf8 decoded ≡ some credentials
      → split_once b':' credentials ≡ some (username, password)
      → sv.admin_by_username username ≡ some admin
      → admin.totp_enabled ≡ true
      → 6 ≤ byte_len password
      → split_bytes (byte_len password - 6) password ≡ none
      → from_request_parts sv r now later st ≡ (panicked, checked)
  unfolding from_request_parts admit check_request check_header
  from_request_parts-panics admin header encoded credentials username password decoded u e b1 b2 d c
        s a t l n =
      rw u (ground arith)
