-- ===== src/WebDav/Storage.antt =====
-- Quota and contents of the files behind /dav/ in web/routes/webdav.rs.
use mailserver.Prelude.{
  ℕ, ◌+◌, ◌*◌, ◌≤◌, ◌<◌, ◌≡◌, refl, ◌⊎◌, inl, inr, true, false, some, List, [], ◌∷◌, Text,
  text_eq_refl, length, arith, Bool-cases, Option-cases, ◌≢◌, none, insert, remove,
  lookup-insert_self, lookup-remove_self, text_eq_instance,
}
use mailserver.WebDav.Files.{
  WebDavFile, is_file, get_webdav_file_by_owner_and_name, sum_sizes, count_webdav_usage_for_owner,
  SumQuery, query_fails, value_unreadable, answers, upsert_webdav_file,
}
use mailserver.WebDav.Auth.{Bytes, Request, World, State, Response, bytes, plain}
use mailserver.WebDav.Methods.{
  Setting, nonneg, setting_or, exceeds, quota_answer, mebibyte, file_row, token_of, content_type_of,
  store_file, put_file, get_file, serve_file,
}

count-upsert :
    (row : WebDavFile) (files : List WebDavFile)
    → sum_sizes row.owner (upsert_webdav_file row files) ≤ sum_sizes row.owner files + row.size
unfolding sum_sizes upsert_webdav_file
count-upsert row [] = ground (arith, text_eq_refl row.owner)
count-upsert row (f ∷ files) = ground (arith, count-upsert row files)

store_file-usage :
    (world : World) (id : ℕ) (owner filename : Text) (req : Request) (s : State)
    → sum_sizes owner (store_file world id owner filename req s).1.files
      ≤ sum_sizes owner s.files + length req.body
unfolding store_file
store_file-usage world id owner filename req s =
    let existing = get_webdav_file_by_owner_and_name owner filename s.files in
    ground (
      arith,
      count-upsert
          (file_row world id owner filename (content_type_of req) (token_of world existing)
            (length req.body) s)
          s.files,
    )

quota_answer-status :
    (world : World) (owner : Text) (size : ℕ) (s : State) {answer : Response}
    → quota_answer world owner size s ≡ some answer
    → 413 ≤ answer.status
unfolding quota_answer count_webdav_usage_for_owner
quota_answer-status world owner size s {answer} h = ground arith

-- An upload is refused and changes nothing, or no answer about the quota stops it and it is stored.
put_file-cases :
    (world : World) (id : ℕ) (owner filename : Text) (req : Request) (s : State)
    → (((put_file world id owner filename req s).1 ≡ s)
        × (413 ≤ (put_file world id owner filename req s).0.status))
      ⊎ ((put_file world id owner filename req s ≡ store_file world id owner filename req s)
          × (quota_answer world owner (length req.body) s ≡ none))
unfolding put_file
put_file-cases world id owner filename req s =
    let size = length req.body in
    elim (Bool-cases (exceeds size (setting_or 50 world.webdav_max_file_size_mb))) [
      | inl large ↦ inl (rw (put_file, large) (refl, omega arith))
      | inr small ↦ elim (Option-cases (quota_answer world owner size s)) [
        | inr (answer, over) ↦
            inl (rw (put_file, small, over) (refl, quota_answer-status world owner size s over))
        | inl under ↦ elim (Bool-cases world.directory_fails) [
          | inl fails ↦ inl (ground (arith, small, under, fails))
          | inr runs ↦ inr (ground (arith, small, under, runs), under)
        ]
      ]
    ]

-- What no answer about the quota says of the space, by how the query ended.
quota-read :
    (world : World) (owner : Text) (size mb : ℕ) (s : State) (query : SumQuery) (setting : Setting)
    → world.sum_query ≡ query
    → setting_or 0 world.webdav_quota_mb ≡ setting
    → setting ≡ nonneg mb
    → 0 < mb
    → quota_answer world owner size s ≡ none
    → (query ≡ query_fails) ⊎ (sum_sizes owner s.files + size ≤ mb * mebibyte)
unfolding quota_answer count_webdav_usage_for_owner
quota-read world owner size mb s query_fails setting q e f p h = inl refl
quota-read world owner size mb s value_unreadable setting q e f p h =
    absurd (let k = rw (quota_answer, e, f, q) at h in ground arith)
quota-read world owner size mb s answers setting q e f p h =
    let k = rw (quota_answer, e, f, q) at h in inr (ground arith)

-- An upload never takes the files of its owner over the quota, unless the query for the space in use
-- fails: if the space used was within it before the request, it is within it after, whatever the
-- request is answered with.
pub put_file-within_quota :
    (world : World) (id : ℕ) (owner filename : Text) (req : Request) (s : State) (mb : ℕ)
    → setting_or 0 world.webdav_quota_mb ≡ nonneg mb
    → 0 < mb
    → world.sum_query ≢ query_fails
    → sum_sizes owner s.files ≤ mb * mebibyte
    → sum_sizes owner (put_file world id owner filename req s).1.files ≤ mb * mebibyte
put_file-within_quota world id owner filename req s mb e p runs h =
    elim (put_file-cases world id owner filename req s) [
      | inl (refused, _) ↦ rw refused h
      | inr (stored, under) ↦
          rw stored
            (elim (quota-read world owner (length req.body) mb s world.sum_query (nonneg mb) refl e
              refl p under) [
                | inl fails ↦ absurd (runs fails)
                | inr within ↦ omega (arith, store_file-usage world id owner filename req s, within)
              ])
    ]

-- The row that an upload leaves has the token that its bytes stand under.
get-upsert :
    (row : WebDavFile) (files : List WebDavFile)
    → (f : WebDavFile) × (get_webdav_file_by_owner_and_name row.owner row.filename
          (upsert_webdav_file row files)
        ≡ some f)
      × (f.token ≡ row.token)
unfolding get_webdav_file_by_owner_and_name upsert_webdav_file
get-upsert row [] = (row, rw (text_eq_refl row.owner, text_eq_refl row.filename) refl, refl)
get-upsert row (f ∷ files) = elim (Bool-cases (is_file row.owner row.filename f)) [
  | inl same ↦ (
    record f { content_type = row.content_type; size = row.size; token = row.token },
    ground (arith, same),
    refl,
  )
  | inr other ↦
      let (g, found, token) = get-upsert row files in (g, ground (arith, other, found), token)
]

stored-get :
    (row : WebDavFile) (content : Bytes) (s : State) (next : ℕ)
    → get_file false row.owner row.filename (record s {
      disk = insert row.token content s.disk;
      files = upsert_webdav_file row s.files;
      next_file = next;
    })
      ≡ record { status = 200; content = bytes content }
unfolding get_file serve_file
stored-get row content s next =
    let (f, found, same) = get-upsert row s.files in
    rw (get_file, found, serve_file, same, lookup-insert_self row.token content s.disk) refl

store_file-get :
    (world : World) (id : ℕ) (owner filename : Text) (req : Request) (s : State)
    → (store_file world id owner filename req s).0.status ≤ 204
    → get_file false owner filename (store_file world id owner filename req s).1
      ≡ record { status = 200; content = bytes req.body }
unfolding store_file
store_file-get world id owner filename req s h =
    let existing = get_webdav_file_by_owner_and_name owner filename s.files in
    let token = token_of world existing in
    let row = file_row world id owner filename (content_type_of req) token (length req.body) s in
    ground (arith, stored-get row req.body s (s.next_file + 1))

-- What was uploaded is what a download gives: after an upload that is answered with 201 or 204, GET of
-- the same name answers 200 with the bytes of the request.
pub get_file-put_file :
    (world : World) (id : ℕ) (owner filename : Text) (req : Request) (s : State)
    → (put_file world id owner filename req s).0.status ≤ 204
    → get_file false owner filename (put_file world id owner filename req s).1
      ≡ record { status = 200; content = bytes req.body }
get_file-put_file world id owner filename req s h =
    elim (put_file-cases world id owner filename req s) [
      | inl (_, refused) ↦ absurd (omega arith)
      | inr (stored, _) ↦ rw stored (store_file-get world id owner filename req s (rw stored at h))
    ]

lost-get :
    (owner filename : Text) (f : WebDavFile) (s : State)
    → get_webdav_file_by_owner_and_name owner filename s.files ≡ some f
    → get_file false owner filename (record s { disk = remove f.token s.disk }) ≡ plain 404
unfolding get_file serve_file
lost-get owner filename f s e = rw (get_file, e, serve_file, lookup-remove_self f.token s.disk) refl

-- A failed update destroys the file: if a file of that name is there, and its bytes are written but
-- the statement on the table fails, the row stays and a download of it answers 404 from then on.
pub store_file-loses :
    (world : World) (id : ℕ) (owner filename : Text) (req : Request) (s : State) {f : WebDavFile}
    → get_webdav_file_by_owner_and_name owner filename s.files ≡ some f
    → world.write_fails ≡ false
    → world.upsert_fails ≡ true
    → ((store_file world id owner filename req s).1.files ≡ s.files)
      × (get_file false owner filename (store_file world id owner filename req s).1 ≡ plain 404)
unfolding store_file
store_file-loses world id owner filename req s {f} e writes fails =
    (ground arith, ground (arith, lost-get owner filename f s e))
