-- ===== src/WebDav/Files.antt =====
-- The table webdav_files of db.rs and the statements on it, with the accounts that may use it.
use mailserver.Prelude.{
  ℕ, ◌+◌, Bool, ◌&&◌, Option, none, some, List, [], ◌∷◌, ◌==◌, if◌then◌else◌, Text, text_eq,
  split_once,
}
use mailserver.Registration.Tables.{only}

pub record WebDavFile : Type 0 where
  pub id : ℕ
  pub account_id : Option ℕ
  pub owner : Text
  pub filename : Text
  pub content_type : Text
  pub size : ℕ
  pub token : Text

-- A row of accounts joined with its domain.
pub record DavAccount : Type 0 where
  pub id : ℕ
  pub username : Text
  pub domain : Text
  pub password_hash : Text
  pub active : Bool
  pub domain_active : Bool

abbrev is_account : Text → Text → DavAccount → Bool
is_account username domain a =
    text_eq a.username username && text_eq a.domain domain && a.active && a.domain_active

unfoldable pub accounts_named : Text → Text → List DavAccount → List DavAccount
accounts_named username domain [] = []
accounts_named username domain (a ∷ accounts) =
    let rest = accounts_named username domain accounts in
    if is_account username domain a then a ∷ rest else rest

unfoldable pub get_account_for_webdav_auth : Text → List DavAccount → Option (ℕ × Text)
unfolding accounts_named only
get_account_for_webdav_auth email accounts = elim (split_once b'@' email) [
  | none ↦ none
  | some (username, domain) ↦ elim (only (accounts_named username domain accounts)) [
    | none ↦ none
    | some a ↦ some (a.id, a.password_hash)
  ]
]

abbrev pub is_file : Text → Text → WebDavFile → Bool
is_file owner filename f = text_eq f.owner owner && text_eq f.filename filename

unfoldable pub list_webdav_files_for_owner : Text → List WebDavFile → List WebDavFile
list_webdav_files_for_owner owner [] = []
list_webdav_files_for_owner owner (f ∷ files) =
    let rest = list_webdav_files_for_owner owner files in
    if text_eq f.owner owner then f ∷ rest else rest

-- UNIQUE(owner, filename): there is at most one.
unfoldable pub get_webdav_file_by_owner_and_name : Text → Text → List WebDavFile → Option WebDavFile
get_webdav_file_by_owner_and_name owner filename [] = none
get_webdav_file_by_owner_and_name owner filename (f ∷ files) =
    if is_file owner filename f
    then some f
    else get_webdav_file_by_owner_and_name owner filename files

-- How the query for the sum of sizes ends: an error, a value whose type cannot be read as i64, which
-- panics (SUM of BIGINT is a NUMERIC), or a number.
pub data SumQuery : Type 0 where
  query_fails value_unreadable answers : SumQuery

unfoldable pub sum_sizes : Text → List WebDavFile → ℕ
sum_sizes owner [] = 0
sum_sizes owner (f ∷ files) =
    let rest = sum_sizes owner files in if text_eq f.owner owner then f.size + rest else rest

-- None is the panic; an error counts as no space used.
unfoldable pub count_webdav_usage_for_owner : SumQuery → Text → List WebDavFile → Option ℕ
unfolding sum_sizes
count_webdav_usage_for_owner query_fails owner files = some 0
count_webdav_usage_for_owner value_unreadable owner files = none
count_webdav_usage_for_owner answers owner files = some (sum_sizes owner files)

-- ON CONFLICT (owner, filename) DO UPDATE, else a new row.
unfoldable pub upsert_webdav_file : WebDavFile → List WebDavFile → List WebDavFile
upsert_webdav_file new [] = new ∷ []
upsert_webdav_file new (f ∷ files) =
    let rest = upsert_webdav_file new files in
    if is_file new.owner new.filename f
    then record f { content_type = new.content_type; size = new.size; token = new.token } ∷ files
    else f ∷ rest

unfoldable pub delete_webdav_file_by_owner_and_name :
    Text → Text → List WebDavFile → List WebDavFile
delete_webdav_file_by_owner_and_name owner filename [] = []
delete_webdav_file_by_owner_and_name owner filename (f ∷ files) =
    let rest = delete_webdav_file_by_owner_and_name owner filename files in
    if is_file owner filename f then rest else f ∷ rest

unfoldable pub get_webdav_file_by_token : Text → List WebDavFile → Option WebDavFile
get_webdav_file_by_token token [] = none
get_webdav_file_by_token token (f ∷ files) =
    if text_eq f.token token then some f else get_webdav_file_by_token token files

unfoldable pub delete_webdav_file : ℕ → List WebDavFile → List WebDavFile
delete_webdav_file id [] = []
delete_webdav_file id (f ∷ files) =
    let rest = delete_webdav_file id files in if f.id == id then rest else f ∷ rest
