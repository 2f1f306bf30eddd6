-- ===== src/WebDav/Methods.antt =====
-- The methods on files and collections of dav_handler in web/routes/webdav.rs, with the settings that
-- bound an upload. The lock on uploads makes an upload one step.
use mailserver.Prelude.{
  ℕ, ◌+◌, ◌*◌, Bool, true, false, ◌&&◌, Option, none, some, ltb, ◌==◌, if◌then◌else◌, Text, codes,
  text_eq, starts_with, strip_prefix, length, parse_unsigned, lookup, insert, remove, Map,
  text_eq_instance,
}
use mailserver.WebDav.Files.{
  WebDavFile, list_webdav_files_for_owner, get_webdav_file_by_owner_and_name,
  count_webdav_usage_for_owner, upsert_webdav_file, delete_webdav_file_by_owner_and_name,
}
use mailserver.WebDav.Auth.{
  Bytes, Request, World, State, nothing, listing, entry, bytes, Response, plain,
}

-- `parse::<i64>`; the settings are small enough for their bytes to fit the type.
pub data Setting : Type 0 where
  negative : Setting
  nonneg : ℕ → Setting

abbrev pub signed : ℕ → Setting
signed n = if n == 0 then nonneg 0 else negative

unfoldable pub parse_i64 : Text → Option Setting
unfolding strip_prefix starts_with
parse_i64 s = elim (strip_prefix (codes "-") s) [
  | none ↦ elim (parse_unsigned 9223372036854775807 s) [ none ↦ none | some n ↦ some (nonneg n) ]
  | some digits ↦
      if starts_with (codes "+") digits
      then none
      else elim (parse_unsigned 9223372036854775808 digits) [
        | none ↦ none
        | some n ↦ some (signed n)
      ]
]

unfoldable pub setting_or : ℕ → Option Text → Setting
unfolding parse_i64
setting_or default none = nonneg default
setting_or default (some v) = elim (parse_i64 v) [ none ↦ nonneg default | some n ↦ n ]

abbrev pub mebibyte : ℕ
mebibyte = 1048576

abbrev pub exceeds : ℕ → Setting → Bool
exceeds size negative = true
exceeds size (nonneg mb) = ltb (mb * mebibyte) size

-- A quota that is not positive is none.
abbrev pub over_quota : ℕ → Setting → Bool
over_quota size negative = false
over_quota size (nonneg mb) = ltb 0 mb && ltb (mb * mebibyte) size

abbrev pub has_quota : Setting → Bool
has_quota negative = false
has_quota (nonneg mb) = ltb 0 mb

abbrev pub file_row : World → ℕ → Text → Text → Text → Text → ℕ → State → WebDavFile
file_row world account_id owner filename content_type token size s = record {
  id = s.next_file;
  account_id = some account_id;
  owner = owner;
  filename = filename;
  content_type = content_type;
  size = size;
  token = token;
}

abbrev pub token_of : World → Option WebDavFile → Text
token_of world none = world.uuid
token_of world (some f) = f.token

abbrev pub put_status : Option WebDavFile → ℕ
put_status none = 201
put_status (some f) = 204

abbrev pub content_type_of : Request → Text
content_type_of req = elim req.content_type [
  | none ↦ codes "application/octet-stream"
  | some ct ↦ ct
]

-- `fs::write` empties the file before it writes.
abbrev pub after_failed_write : Option Bytes → Text → Map Text Bytes → Map Text Bytes
after_failed_write none token disk = disk
after_failed_write (some part) token disk = insert token part disk

-- The file is on disk when its row is written; when that fails it is removed.
unfoldable pub store_file : World → ℕ → Text → Text → Request → State → Response × State
unfolding get_webdav_file_by_owner_and_name upsert_webdav_file
store_file world account_id owner filename req s =
    let existing = get_webdav_file_by_owner_and_name owner filename s.files in
    let token = token_of world existing in
    let row =
      file_row world account_id owner filename (content_type_of req) token (length req.body) s in
    if world.write_fails
    then (plain 500, record s { disk = after_failed_write world.left token s.disk })
    else if world.upsert_fails
    then (plain 500, record s { disk = remove token s.disk })
    else (
      plain (put_status existing),
      record s {
        disk = insert token req.body s.disk;
        files = upsert_webdav_file row s.files;
        next_file = s.next_file + 1;
      },
    )

-- The task panics and there is no answer, which a number stands for that is no status.
abbrev pub panicked : Response
panicked = plain 1000

-- The use of space is asked for only if there is a quota.
unfoldable pub quota_answer : World → Text → ℕ → State → Option Response
unfolding setting_or count_webdav_usage_for_owner
quota_answer world owner size s =
    let quota = setting_or 0 world.webdav_quota_mb in
    if has_quota quota
    then elim (count_webdav_usage_for_owner world.sum_query owner s.files) [
      | none ↦ some panicked
      | some usage ↦ if over_quota (usage + size) quota then some (plain 507) else none
    ]
    else none

unfoldable pub put_file : World → ℕ → Text → Text → Request → State → Response × State
unfolding store_file setting_or quota_answer
put_file world account_id owner filename req s =
    let size = length req.body in
    if exceeds size (setting_or 50 world.webdav_max_file_size_mb)
    then (plain 413, s)
    else elim (quota_answer world owner size s) [
      | some answer ↦ (answer, s)
      | none ↦
          if world.directory_fails
          then (plain 500, s)
          else store_file world account_id owner filename req s
    ]

-- `serve_file`: the stored bytes, or none of them for HEAD.
unfoldable pub serve_file : Bool → WebDavFile → State → Response
serve_file head_only f s = elim (lookup f.token s.disk) [
  | none ↦ plain 404
  | some content ↦ record { status = 200; content = if head_only then nothing else bytes content }
]

unfoldable pub get_file : Bool → Text → Text → State → Response
unfolding serve_file get_webdav_file_by_owner_and_name
get_file head_only owner filename s =
    elim (get_webdav_file_by_owner_and_name owner filename s.files) [
      | none ↦ plain 404
      | some f ↦ serve_file head_only f s
    ]

unfoldable pub delete_file : Text → Text → State → Response × State
unfolding get_webdav_file_by_owner_and_name delete_webdav_file_by_owner_and_name
delete_file owner filename s = elim (get_webdav_file_by_owner_and_name owner filename s.files) [
  | none ↦ (plain 404, s)
  | some f ↦ (
    plain 204,
    record s {
      files = delete_webdav_file_by_owner_and_name owner filename s.files;
      disk = remove f.token s.disk;
    },
  )
]

unfoldable pub find_entry : Text → Text → State → Response
unfolding get_webdav_file_by_owner_and_name
find_entry owner filename s = elim (get_webdav_file_by_owner_and_name owner filename s.files) [
  | none ↦ plain 404
  | some f ↦ record { status = 207; content = entry f }
]

-- The methods on a collection, and those on a file.
unfoldable pub on_collection : World → Text → Text → State → Response × State
unfolding list_webdav_files_for_owner
on_collection world method owner s =
    if text_eq method (codes "PROPFIND")
    then (
      record {
        status = 207;
        content = listing (world.order (list_webdav_files_for_owner owner s.files));
      },
      s,
    )
    else if text_eq method (codes "MKCOL")
    then (plain 201, s)
    else (plain 405, s)

unfoldable pub on_file : World → ℕ → Text → Text → Request → State → Response × State
unfolding put_file get_file delete_file find_entry
on_file world account_id owner filename req s =
    if text_eq req.method (codes "PROPFIND")
    then (find_entry owner filename s, s)
    else if text_eq req.method (codes "GET")
    then (get_file false owner filename s, s)
    else if text_eq req.method (codes "HEAD")
    then (get_file true owner filename s, s)
    else if text_eq req.method (codes "PUT")
    then put_file world account_id owner filename req s
    else if text_eq req.method (codes "DELETE")
    then delete_file owner filename s
    else (plain 405, s)

unfoldable pub on_resource : World → ℕ → Text → Option Text → Request → State → Response × State
unfolding on_collection on_file
on_resource world account_id owner none req s = on_collection world req.method owner s
on_resource world account_id owner (some filename) req s =
    on_file world account_id owner filename req s
