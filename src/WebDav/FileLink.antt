-- ===== src/WebDav/FileLink.antt =====
-- The FileLink handlers of web/routes/webdav.rs: filelink_upload, filelink_download and
-- filelink_delete. A field of a form is its chunks; `broken` says that reading it ends in an error.
use mailserver.Prelude.{
  ℕ, ◌+◌, ◌*◌, Bool, true, false, ◌||◌, Option, none, some, List, [], ◌∷◌, ◌++◌, ltb, if◌then◌else◌,
  Text, codes, text_eq, length, insert, remove, text_eq_instance,
}
use mailserver.WebDav.Files.{
  get_webdav_file_by_owner_and_name, upsert_webdav_file, get_webdav_file_by_token,
  delete_webdav_file,
}
use mailserver.WebDav.Auth.{Bytes, World, State, entry, Response, plain, require_webdav_auth}
use mailserver.WebDav.Methods.{
  Setting, negative, nonneg, setting_or, mebibyte, quota_answer, after_failed_write, token_of,
  file_row, serve_file,
}
use mailserver.WebDav.Handler.{is_enabled}

pub record Field : Type 0 where
  pub name : Text
  pub file_name : Option Text
  pub content_type : Option Text
  pub chunks : List Bytes
  pub broken : Bool

-- A negative maximum is a very large number of the unsigned type.
abbrev too_long : ℕ → Setting → Bool
too_long size negative = false
too_long size (nonneg mb) = ltb (mb * mebibyte) size

pub data Read : Type 0 where
  whole : Bytes → Read
  too_large failed : Read

unfoldable pub read_chunks : Setting → Bool → Bytes → List Bytes → Read
read_chunks max true data_read [] = failed
read_chunks max false data_read [] = whole data_read
read_chunks max broken data_read (c ∷ chunks) =
    let rest = read_chunks max broken (data_read ++ c) chunks in
    if too_long (length data_read + length c) max then too_large else rest

abbrev or_text : Option Text → Text → Text
or_text none t = t
or_text (some s) t = s

-- The file goes to disk and then to the table.
unfoldable pub keep_upload : World → ℕ → Text → Field → Bytes → State → Response × State
unfolding get_webdav_file_by_owner_and_name upsert_webdav_file
keep_upload world account_id owner field content s =
    let filename = or_text field.file_name (codes "upload") in
    let content_type = or_text field.content_type (codes "application/octet-stream") in
    let token = token_of world (get_webdav_file_by_owner_and_name owner filename s.files) in
    let row = file_row world account_id owner filename content_type token (length content) s in
    if world.directory_fails
    then (plain 500, s)
    else if world.write_fails
    then (plain 500, record s { disk = after_failed_write world.left token s.disk })
    else if world.upsert_fails
    then (plain 500, record s { disk = remove token s.disk })
    else (
      record { status = 200; content = entry row },
      record s {
        disk = insert token content s.disk;
        files = upsert_webdav_file row s.files;
        next_file = s.next_file + 1;
      },
    )

unfoldable pub upload_field : World → ℕ → Text → Field → State → Response × State
unfolding read_chunks keep_upload setting_or quota_answer
upload_field world account_id owner field s =
    elim (read_chunks (setting_or 50 world.webdav_max_file_size_mb) field.broken [] field.chunks) [
      | failed ↦ (plain 400, s)
      | too_large ↦ (plain 413, s)
      | whole content ↦ elim (quota_answer world owner (length content) s) [
        | some answer ↦ (answer, s)
        | none ↦ keep_upload world account_id owner field content s
      ]
    ]

abbrev is_file_field : Field → Bool
is_file_field f = text_eq f.name (codes "file") || text_eq f.name (codes "attachment")

-- The fields are read until the first that holds a file; ten are looked at.
unfoldable pub upload_fields : World → ℕ → Text → ℕ → List Field → State → Response × State
unfolding upload_field
upload_fields world account_id owner count [] s = (plain 400, s)
upload_fields world account_id owner count (f ∷ fields) s =
    let rest = upload_fields world account_id owner (count + 1) fields s in
    if ltb 10 (count + 1)
    then (plain 413, s)
    else if is_file_field f
    then upload_field world account_id owner f s
    else rest

abbrev upload_by : World → Option (ℕ × Text) → List Field → State → Response × State
upload_by world none fields s = (plain 401, s)
upload_by world (some (account_id, owner)) fields s =
    upload_fields world account_id owner 0 fields s

unfoldable pub filelink_upload : World → Option Text → List Field → State → Response × State
unfolding require_webdav_auth upload_fields
filelink_upload world authorization fields s =
    let (auth_result, s') = require_webdav_auth world authorization s in
    if is_enabled world.webdav_enabled
    then upload_by world auth_result fields s'
    else (plain 503, s)

unfoldable pub filelink_download : Text → State → Response
unfolding get_webdav_file_by_token serve_file
filelink_download token s = elim (get_webdav_file_by_token token s.files) [
  | none ↦ plain 404
  | some f ↦ serve_file false f s
]

unfoldable pub delete_link : World → Text → Text → State → Response × State
unfolding get_webdav_file_by_token delete_webdav_file
delete_link world owner token s = elim (get_webdav_file_by_token token s.files) [
  | none ↦ (plain 404, s)
  | some f ↦
      if text_eq (world.lower f.owner) (world.lower owner)
      then (
        plain 204,
        record s { files = delete_webdav_file f.id s.files; disk = remove f.token s.disk },
      )
      else (plain 403, s)
]

abbrev delete_by : World → Option (ℕ × Text) → Text → State → Response × State
delete_by world none token s = (plain 401, s)
delete_by world (some (account_id, owner)) token s = delete_link world owner token s

unfoldable pub filelink_delete : World → Option Text → Text → State → Response × State
unfolding require_webdav_auth delete_link
filelink_delete world authorization token s =
    let (auth_result, s') = require_webdav_auth world authorization s in
    delete_by world auth_result token s'
