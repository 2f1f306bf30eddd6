-- ===== src/Tests/WebDav.antt =====
-- The WebDAV server on concrete inputs.
use mailserver.Prelude.{
  parse_unsigned, lookup, ◌*◌, ◌≡◌, refl, ◌⊎◌, ◌≤◌, true, false, none, some, [], ◌∷◌, Text, codes,
  arith, to_ascii_lowercase, text_eq,
}
use mailserver.WebDav.Files.{WebDavFile, DavAccount, sum_sizes, answers}
use mailserver.WebDav.Auth.{Request, World, State, plain, bytes}
use mailserver.WebDav.Methods.{put_file, get_file, store_file, mebibyte}
use mailserver.WebDav.Handler.{parse_path, dav_handler}
use mailserver.WebDav.Authentic.{SameStore}
use mailserver.WebDav.Access.{Allowed, dav_handler-Allowed}
use mailserver.WebDav.Storage.{put_file-within_quota, get_file-put_file, store_file-loses}
use mailserver.WebDav.Lockout.{is_locked}
use mailserver.WebDav.Files.{get_account_for_webdav_auth}
use mailserver.WebDav.Methods.{setting_or}
use mailserver.WebDav.Files.{get_webdav_file_by_owner_and_name}

abbrev world : World
world = record {
  decode = λ t. some t;
  verify_password = λ p h. text_eq p h;
  lower = to_ascii_lowercase;
  order = λ files. files;
  now = 5;
  webdav_enabled = none;
  webdav_max_file_size_mb = none;
  webdav_quota_mb = some (codes "1");
  uuid = codes "5f1c";
  directory_fails = false;
  write_fails = false;
  left = none;
  sum_query = answers;
  upsert_fails = false;
}

abbrev owner : Text
owner = codes "alice@example.org"

abbrev account : DavAccount
account = record {
  id = 3;
  username = codes "alice";
  domain = codes "example.org";
  password_hash = codes "secret";
  active = true;
  domain_active = true;
}

abbrev empty_state : State
empty_state = record {
  failures = [];
  accounts = account ∷ [];
  files = [];
  disk = [];
  next_file = 1;
}

abbrev upload : Request
upload = record {
  method = codes "PUT";
  path = codes "alice@example.org/notes.txt";
  authorization = some (codes "Basic alice@example.org:secret");
  content_type = none;
  body = 104 ∷ 105 ∷ [];
}

dav_handler-Allowed_example :
    SameStore (dav_handler world upload empty_state).1 empty_state
    ⊎ Allowed world upload
        (parse_path upload.path).0
        empty_state
        (dav_handler world upload empty_state).1
dav_handler-Allowed_example = dav_handler-Allowed world upload empty_state

created : (dav_handler world upload empty_state).0 ≡ plain 201
unfolding dav_handler text_eq is_locked lookup get_account_for_webdav_auth to_ascii_lowercase
    parse_unsigned
created = refl

put_file-within_quota_example :
    sum_sizes owner (put_file world 3 owner (codes "notes.txt") upload empty_state).1.files
    ≤ 1 * mebibyte
unfolding setting_or parse_unsigned sum_sizes
put_file-within_quota_example =
    put_file-within_quota world 3 owner (codes "notes.txt") upload empty_state 1 refl (omega arith)
      (λ e. ground (arith, e)) (omega arith)

get_file-put_file_example :
    get_file false owner
      (codes "notes.txt")
      (put_file world 3 owner (codes "notes.txt") upload empty_state).1
    ≡ record { status = 200; content = bytes (104 ∷ 105 ∷ []) }
unfolding put_file parse_unsigned
get_file-put_file_example =
    get_file-put_file world 3 owner (codes "notes.txt") upload empty_state (omega arith)

abbrev notes : WebDavFile
notes = record {
  id = 1;
  account_id = some 3;
  owner = owner;
  filename = codes "notes.txt";
  content_type = codes "text/plain";
  size = 2;
  token = codes "5f1c";
}

abbrev with_notes : State
with_notes = record empty_state { files = notes ∷ []; disk = (codes "5f1c", 1 ∷ 2 ∷ []) ∷ [] }

abbrev failing : World
failing = record world { upsert_fails = true }

store_file-loses_example :
    ((store_file failing 3 owner (codes "notes.txt") upload with_notes).1.files ≡ notes ∷ [])
    × (get_file false owner
          (codes "notes.txt")
          (store_file failing 3 owner (codes "notes.txt") upload with_notes).1
        ≡ plain 404)
unfolding get_webdav_file_by_owner_and_name text_eq
store_file-loses_example =
    store_file-loses failing 3 owner (codes "notes.txt") upload with_notes refl refl refl
