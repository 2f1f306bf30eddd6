-- ===== src/WebDav/Auth.antt =====
-- Requests, answers and the state of the WebDAV server, and require_webdav_auth of
-- web/routes/webdav.rs.
use mailserver.Prelude.{
  ℕ, Bool, Option, none, some, List, if◌then◌else◌, Text, codes, strip_prefix, split_once, Map,
  text_eq_instance,
}
use mailserver.WebDav.Lockout.{Failures, is_locked, record_failure, clear}
use mailserver.WebDav.Files.{SumQuery, WebDavFile, DavAccount, get_account_for_webdav_auth}

abbrev pub Bytes : Type 0
Bytes = List ℕ

pub record Request : Type 0 where
  pub method : Text
  pub path : Text
  pub authorization : Option Text
  pub content_type : Option Text
  pub body : Bytes

-- What a request meets: the base-64 decoder (with the UTF-8 decoder), bcrypt, `str::to_lowercase`,
-- ORDER BY in the database, the time, the settings, a fresh token, and which writes fail.
pub record World : Type 0 where
  pub decode : Text → Option Text
  pub verify_password : Text → Text → Bool
  pub lower : Text → Text
  pub order : List WebDavFile → List WebDavFile
  pub now : ℕ
  pub webdav_enabled : Option Text
  pub webdav_max_file_size_mb : Option Text
  pub webdav_quota_mb : Option Text
  pub uuid : Text
  pub directory_fails : Bool
  pub write_fails : Bool
  pub left : Option Bytes  -- what a write that fails leaves in the file (none: what was there)
  pub sum_query : SumQuery
  pub upsert_fails : Bool

pub record State : Type 0 where
  pub failures : Failures
  pub accounts : List DavAccount
  pub files : List WebDavFile
  pub disk : Map Text Bytes
  pub next_file : ℕ

pub data Content : Type 0 where
  nothing : Content
  listing : List WebDavFile → Content
  entry : WebDavFile → Content
  bytes : Bytes → Content

pub record Response : Type 0 where
  pub status : ℕ
  pub content : Content

abbrev pub plain : ℕ → Response
plain status = record { status = status; content = nothing }

unfoldable pub parse_basic_auth : World → Option Text → Option (Text × Text)
unfolding strip_prefix split_once
parse_basic_auth world none = none
parse_basic_auth world (some auth) = elim (strip_prefix (codes "Basic ") auth) [
  | none ↦ none
  | some encoded ↦ elim (world.decode encoded) [ none ↦ none | some s ↦ split_once b':' s ]
]

-- The answer to a name and a password that are not locked out.
unfoldable pub check_password : World → Text → Text → State → Option (ℕ × Text) × State
check_password world email password s =
    let failed : State = record s { failures = record_failure email world.now s.failures } in
    elim (get_account_for_webdav_auth email s.accounts) [
      | none ↦ (none, failed)
      | some (id, hash) ↦
          if world.verify_password password hash
          then (some (id, email), record s { failures = clear email s.failures })
          else (none, failed)
    ]

unfoldable pub require_webdav_auth : World → Option Text → State → Option (ℕ × Text) × State
unfolding parse_basic_auth check_password
require_webdav_auth world authorization s = elim (parse_basic_auth world authorization) [
  | none ↦ (none, s)
  | some (email, password) ↦
      let (locked, failures') = is_locked email world.now s.failures in
      let s' : State = record s { failures = failures' } in
      if locked then (none, s') else check_password world email password s'
]
