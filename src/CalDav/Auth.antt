-- ===== src/CalDav/Auth.antt =====
-- Requests, answers and the state of the calendar server, authenticate_caldav_account and
-- parse_caldav_resource of web/routes/caldav.rs.
use mailserver.Prelude.{
  ℕ, ◌+◌, Bool, not, Option, none, some, List, [], ◌∷◌, ◌++◌, if◌then◌else◌, Text, codes, text_eq,
  is_empty, strip_prefix, starts_with, split_once, split_char, split_bytes, byte_len, ◌&&◌,
}
use mailserver.Registration.Tables.{only}
use mailserver.WebDav.Lockout.{Failures, is_locked, record_failure, clear}
use mailserver.WebDav.Files.{DavAccount}
use mailserver.CalDav.Tables.{CalDavCalendar, CalDavObject}

-- The body is the text it holds (none: no UTF-8) and its number of bytes.
pub record Request : Type 0 where
  pub method : Text
  pub path : Text
  pub authorization : Option Text
  pub content_length : Option ℕ
  pub depth : Text
  pub body : Option Text
  pub body_bytes : ℕ

-- What a request meets: the base-64 decoder (with the UTF-8 decoder), bcrypt, the case of letters in
-- Rust and in the database, the order of rows, the hash of an etag, a fresh ctag, the time, and which
-- statements fail.
pub record World : Type 0 where
  pub decode : Text → Option Text
  pub verify_password : Text → Text → Bool
  pub lower : Text → Text
  pub upper : Text → Text
  pub sql_lower : Text → Text
  pub order_calendars : List CalDavCalendar → List CalDavCalendar
  pub order_objects : List CalDavObject → List CalDavObject
  pub compute_etag : Text → Text
  pub fresh_ctag : Text
  pub now : ℕ
  pub insert_fails : Bool
  pub upsert_fails : Bool
  pub list_fails : Bool

pub record State : Type 0 where
  pub failures : Failures
  pub accounts : List DavAccount
  pub calendars : List CalDavCalendar
  pub objects : List CalDavObject
  pub next_calendar : ℕ
  pub next_object : ℕ

pub data Content : Type 0 where
  nothing page principal no_objects accepted : Content
  home : List CalDavCalendar → Content
  calendar : CalDavCalendar → Content
  calendar_with_objects : CalDavCalendar → List CalDavObject → Content
  object : CalDavObject → Content
  report : List CalDavObject → Content
  ics : Text → Text → Content  -- with its etag
  feed : Text → Content
  stored : Text → Content  -- the etag

pub record Response : Type 0 where
  pub status : ℕ
  pub content : Content

abbrev pub plain : ℕ → Response
plain status = record { status = status; content = nothing }

abbrev pub multistatus : Content → Response
multistatus content = record { status = 207; content = content }

abbrev pub account_named : World → Text → Text → DavAccount → Bool
account_named world username domain a =
    text_eq (world.sql_lower a.username) (world.sql_lower username)
    && text_eq (world.sql_lower a.domain) (world.sql_lower domain)

unfoldable pub accounts_like : World → Text → Text → List DavAccount → List DavAccount
accounts_like world username domain [] = []
accounts_like world username domain (a ∷ accounts) =
    let rest = accounts_like world username domain accounts in
    if account_named world username domain a then a ∷ rest else rest

unfoldable pub get_account_by_email : World → Text → List DavAccount → Option DavAccount
unfolding accounts_like only split_once
get_account_by_email world email accounts = elim (split_once b'@' email) [
  | none ↦ none
  | some (username, domain) ↦ only (accounts_like world username domain accounts)
]

unfoldable pub credentials : World → Option Text → Option (Text × Text)
unfolding strip_prefix split_once
credentials world none = none
credentials world (some auth_header) = elim (strip_prefix (codes "Basic ") auth_header) [
  | none ↦ none
  | some encoded ↦ elim (world.decode encoded) [ none ↦ none | some s ↦ split_once b':' s ]
]

abbrev pub with_failures : Failures → State → State
with_failures m s = record s { failures = m }

-- A name and a password that are not locked out.
unfoldable pub check_account : World → Text → Text → State → Option DavAccount × State
unfolding get_account_by_email
check_account world email password s =
    let failed = with_failures (record_failure email world.now s.failures) s in
    elim (get_account_by_email world email s.accounts) [
      | none ↦ (none, failed)
      | some account ↦
          if not account.active
          then (none, s)
          else if world.verify_password password account.password_hash
          then (some account, with_failures (clear email s.failures) s)
          else (none, failed)
    ]

unfoldable pub authenticate_caldav_account : World → Option Text → State → Option DavAccount × State
unfolding credentials check_account
authenticate_caldav_account world authorization s = elim (credentials world authorization) [
  | none ↦ (none, s)
  | some (email, password) ↦
      let (locked, failures') = is_locked email world.now s.failures in
      let s' = with_failures failures' s in
      if locked then (none, s') else check_account world email password s'
]

abbrev pub account_email : DavAccount → Text
account_email account = account.username ++ codes "@" ++ account.domain

pub data CalDavResource : Type 0 where
  principal_of calendar_home_set : CalDavResource
  calendar_of : Text → CalDavResource
  calendar_object : Text → Text → CalDavResource

abbrev pub non_empty_parts : List Text → List Text
non_empty_parts [] = []
non_empty_parts (p ∷ parts) =
    if is_empty p then non_empty_parts parts else p ∷ non_empty_parts parts

abbrev pub resource_of : List Text → CalDavResource
resource_of (p ∷ []) = if text_eq p (codes "calendars") then calendar_home_set else principal_of
resource_of (p ∷ slug ∷ []) =
    if text_eq p (codes "calendars") then calendar_of slug else principal_of
resource_of (p ∷ slug ∷ filename ∷ []) =
    if text_eq p (codes "calendars") then calendar_object slug filename else principal_of
resource_of parts = principal_of

-- None: the path is cut inside of a character, which panics. Its length is taken from the text in
-- lower case.
unfoldable pub parse_caldav_resource : World → Text → Text → Option CalDavResource
unfolding starts_with split_bytes split_char
parse_caldav_resource world path email =
    let base = codes "/caldav/" ++ world.lower email in
    if starts_with (base ++ codes "/") (world.lower path)
    then elim (split_bytes (byte_len base + 1) path) [
      | none ↦ none
      | some (before, rest) ↦ some (resource_of (non_empty_parts (split_char b'/' rest)))
    ]
    else some principal_of
