-- ===== src/WebDav/Owned.antt =====
-- What a method on /dav/ of web/routes/webdav.rs leaves of the files of other owners: their rows in the
-- table and their bytes on disk.
use mailserver.Prelude.{
  ℕ, ◌≡◌, refl, ◌≢◌, ◌⊎◌, inl, inr, Option, none, some, List, [], ◌∷◌, Text, text_eq, text_eq_iff,
  arith, Bool-cases, Option-cases, length, ap, ◌∙◌, sym, All, lookup, lookup-insert_ne,
  lookup-remove_ne, Map, text_eq_instance, &&-eq-true,
}
use mailserver.WebDav.Files.{
  WebDavFile, is_file, list_webdav_files_for_owner, get_webdav_file_by_owner_and_name,
  upsert_webdav_file, delete_webdav_file_by_owner_and_name,
}
use mailserver.WebDav.Auth.{Bytes, Request, World, State}
use mailserver.WebDav.Methods.{
  after_failed_write, file_row, token_of, content_type_of, store_file, put_file, delete_file,
  on_collection, on_file, on_resource,
}

-- The files of another owner, under any method.
list-upsert :
    (other : Text) (row : WebDavFile) (files : List WebDavFile)
    → row.owner ≢ other
    → list_webdav_files_for_owner other (upsert_webdav_file row files)
      ≡ list_webdav_files_for_owner other files
unfolding list_webdav_files_for_owner upsert_webdav_file
list-upsert other row [] h = ground (arith, text_eq_iff row.owner other)
list-upsert other row (f ∷ files) h = ground (
  arith,
  list-upsert other row files,
  text_eq_iff row.owner other,
  text_eq_iff f.owner other,
  text_eq_iff f.owner row.owner,
)

list-delete :
    (other owner filename : Text) (files : List WebDavFile)
    → owner ≢ other
    → list_webdav_files_for_owner other (delete_webdav_file_by_owner_and_name owner filename files)
      ≡ list_webdav_files_for_owner other files
unfolding list_webdav_files_for_owner delete_webdav_file_by_owner_and_name
list-delete other owner filename [] h = refl
list-delete other owner filename (f ∷ files) h = ground (
  arith,
  list-delete other owner filename files,
  text_eq_iff f.owner owner,
  text_eq_iff f.owner other,
)

-- The tokens name the owners: no two owners share one, and the fresh one is nobody's.
abbrev pub TokensAreOwned : World → List WebDavFile → (Text → Text) → Type 0
TokensAreOwned world files owner_of =
    All (λ f. (owner_of f.token ≡ f.owner) × (f.token ≢ world.uuid)) files

-- The rows of all other owners, and the bytes of each.
abbrev pub KeepsOther : World → Text → State → State → Type 0
KeepsOther world owner s t =
    ((other : Text)
      → owner ≢ other
      → list_webdav_files_for_owner other t.files ≡ list_webdav_files_for_owner other s.files)
    × ((owner_of : Text → Text)
        → TokensAreOwned world s.files owner_of
        → All (λ f. owner ≢ f.owner → lookup f.token t.disk ≡ lookup f.token s.disk) s.files)

put_file-rows :
    (world : World) (id : ℕ) (owner filename : Text) (req : Request) (s : State) (other : Text)
    → owner ≢ other
    → list_webdav_files_for_owner other (put_file world id owner filename req s).1.files
      ≡ list_webdav_files_for_owner other s.files
unfolding put_file store_file
put_file-rows world id owner filename req s other h =
    let existing = get_webdav_file_by_owner_and_name owner filename s.files in
    let row =
      file_row world id owner filename (content_type_of req) (token_of world existing)
        (length req.body) s in
    ground (arith, list-upsert other row s.files h)

delete_file-rows :
    (owner filename : Text) (s : State) (other : Text)
    → owner ≢ other
    → list_webdav_files_for_owner other (delete_file owner filename s).1.files
      ≡ list_webdav_files_for_owner other s.files
unfolding delete_file
delete_file-rows owner filename s other h =
    ground (arith, list-delete other owner filename s.files h)

-- The file that is found is a row of the owner.
found-owned :
    (world : World) (owner_of : Text → Text) (owner filename : Text) (files : List WebDavFile)
    {g : WebDavFile}
    → TokensAreOwned world files owner_of
    → get_webdav_file_by_owner_and_name owner filename files ≡ some g
    → owner_of g.token ≡ owner
unfolding get_webdav_file_by_owner_and_name
found-owned world owner_of owner filename [] h e = absurd (ground arith)
found-owned world owner_of owner filename (f ∷ files) {g} ((owned, fresh), h) e =
    elim (Bool-cases (is_file owner filename f)) [
      | inl this ↦
          let same : f ≡ g = ground (arith, this) in
          let mine : f.owner ≡ owner =
            (text_eq_iff f.owner owner).0
              (&&-eq-true (text_eq f.owner owner) (text_eq f.filename filename) this).0 in
          ap (λ x. owner_of x.token) (sym same) ∙ owned ∙ mine
      | inr other ↦
          let later : get_webdav_file_by_owner_and_name owner filename files ≡ some g =
            ground (arith, other) in
          found-owned world owner_of owner filename files h later
    ]

-- A token that a request of the owner writes or removes is not one of another owner.
abbrev Spares : (Text → Text) → World → Text → Text → Type 0
Spares owner_of world owner token = (token ≡ world.uuid) ⊎ (owner_of token ≡ owner)

spared :
    (world : World) (owner_of : Text → Text) (owner token : Text) (f : WebDavFile)
    → Spares owner_of world owner token
    → (owner_of f.token ≡ f.owner) × (f.token ≢ world.uuid)
    → owner ≢ f.owner
    → token ≢ f.token
spared world owner_of owner token f (inl fresh) (owned, differs) other e = differs (sym e ∙ fresh)
spared world owner_of owner token f (inr mine) (owned, differs) other e =
    other (sym mine ∙ ap owner_of e ∙ owned)

token_of-Spares :
    (world : World) (owner_of : Text → Text) (owner filename : Text) (files : List WebDavFile)
    → TokensAreOwned world files owner_of
    → Spares owner_of world owner
        (token_of world (get_webdav_file_by_owner_and_name owner filename files))
token_of-Spares world owner_of owner filename files h =
    elim (Option-cases (get_webdav_file_by_owner_and_name owner filename files)) [
      | inl none_there ↦ rw none_there (inl refl)
      | inr (g, e) ↦ rw e (inr (found-owned world owner_of owner filename files h e))
    ]

-- A disk that differs at most under one token.
abbrev DiffersAt : Text → State → State → Type 0
DiffersAt token s t = (k : Text) → token ≢ k → lookup k t.disk ≡ lookup k s.disk

failed_write-lookup :
    (left : Option Bytes) (token k : Text) (disk : Map Text Bytes)
    → token ≢ k
    → lookup k (after_failed_write left token disk) ≡ lookup k disk
failed_write-lookup none token k disk h = refl
failed_write-lookup (some part) token k disk h = lookup-insert_ne token k part disk h

store_file-DiffersAt :
    (world : World) (id : ℕ) (owner filename : Text) (req : Request) (s : State)
    → DiffersAt
        (token_of world (get_webdav_file_by_owner_and_name owner filename s.files))
        s
        (store_file world id owner filename req s).1
unfolding store_file
store_file-DiffersAt world id owner filename req s k h =
    let token = token_of world (get_webdav_file_by_owner_and_name owner filename s.files) in
    elim (Bool-cases world.write_fails) [
      | inl fails ↦ ground (arith, fails, failed_write-lookup world.left token k s.disk h)
      | inr writes ↦ ground (
        arith,
        writes,
        lookup-insert_ne token k req.body s.disk h,
        lookup-remove_ne token k s.disk h,
      )
    ]

put_file-DiffersAt :
    (world : World) (id : ℕ) (owner filename : Text) (req : Request) (s : State)
    → DiffersAt
        (token_of world (get_webdav_file_by_owner_and_name owner filename s.files))
        s
        (put_file world id owner filename req s).1
unfolding put_file
put_file-DiffersAt world id owner filename req s k h =
    ground (arith, store_file-DiffersAt world id owner filename req s k h)

spared-All :
    (world : World) (owner_of : Text → Text) (owner token : Text) (s t : State)
    (files : List WebDavFile)
    → Spares owner_of world owner token
    → DiffersAt token s t
    → TokensAreOwned world files owner_of
    → All (λ f. owner ≢ f.owner → lookup f.token t.disk ≡ lookup f.token s.disk) files
spared-All world owner_of owner token s t [] own differs h = tt
spared-All world owner_of owner token s t (f ∷ files) own differs (v, h) = (
  λ other. differs f.token (spared world owner_of owner token f own v other),
  spared-All world owner_of owner token s t files own differs h,
)

kept-All :
    (owner : Text) (s t : State) (files : List WebDavFile)
    → t.disk ≡ s.disk
    → All (λ f. owner ≢ f.owner → lookup f.token t.disk ≡ lookup f.token s.disk) files
kept-All owner s t [] e = tt
kept-All owner s t (f ∷ files) e =
    ((λ other. ap (λ disk. lookup f.token disk) e), kept-All owner s t files e)

put_file-KeepsOther :
    (world : World) (id : ℕ) (owner filename : Text) (req : Request) (s : State)
    → KeepsOther world owner s (put_file world id owner filename req s).1
put_file-KeepsOther world id owner filename req s = (
  put_file-rows world id owner filename req s,
  λ owner_of h.
      spared-All world owner_of owner
        (token_of world (get_webdav_file_by_owner_and_name owner filename s.files)) s
        (put_file world id owner filename req s).1 s.files
        (token_of-Spares world owner_of owner filename s.files h)
        (put_file-DiffersAt world id owner filename req s) h,
)

delete_file-bytes :
    (world : World) (owner filename : Text) (s : State) (owner_of : Text → Text)
    → TokensAreOwned world s.files owner_of
    → All
        (λ f.
          owner ≢ f.owner
          → lookup f.token (delete_file owner filename s).1.disk ≡ lookup f.token s.disk)
        s.files
unfolding delete_file
delete_file-bytes world owner filename s owner_of h =
    let t = (delete_file owner filename s).1 in
    elim (Option-cases (get_webdav_file_by_owner_and_name owner filename s.files)) [
      | inl absent ↦ kept-All owner s t s.files (ground (arith, absent))
      | inr (g, e) ↦
          spared-All world owner_of owner g.token s t s.files
            (inr (found-owned world owner_of owner filename s.files h e))
            (λ k differs. ground (arith, e, lookup-remove_ne g.token k s.disk differs)) h
    ]

delete_file-KeepsOther :
    (world : World) (owner filename : Text) (s : State)
    → KeepsOther world owner s (delete_file owner filename s).1
delete_file-KeepsOther world owner filename s =
    (delete_file-rows owner filename s, delete_file-bytes world owner filename s)

same-KeepsOther : (world : World) (owner : Text) (s t : State) → t ≡ s → KeepsOther world owner s t
same-KeepsOther world owner s t e = (
  λ other h. ap (λ x. list_webdav_files_for_owner other x.files) e,
  λ owner_of h. kept-All owner s t s.files (ap (λ x. x.disk) e),
)

on_resource-cases :
    (world : World) (id : ℕ) (owner filename : Text) (req : Request) (s : State)
    → let t = (on_resource world id owner (some filename) req s).1 in
      (t ≡ s)
      ⊎ ((t ≡ (put_file world id owner filename req s).1) ⊎ (t ≡ (delete_file owner filename s).1))
unfolding on_resource on_file
on_resource-cases world id owner filename req s = ground arith

pub on_resource-KeepsOther :
    (world : World) (id : ℕ) (owner : Text) (filename : Option Text) (req : Request) (s : State)
    → KeepsOther world owner s (on_resource world id owner filename req s).1
unfolding on_resource on_collection
on_resource-KeepsOther world id owner none req s =
    same-KeepsOther world owner s (on_resource world id owner none req s).1 (ground arith)
on_resource-KeepsOther world id owner (some filename) req s =
    elim (on_resource-cases world id owner filename req s) [
      | inl kept ↦ rw kept (same-KeepsOther world owner s s refl)
      | inr (inl puts) ↦ rw puts (put_file-KeepsOther world id owner filename req s)
      | inr (inr deletes) ↦ rw deletes (delete_file-KeepsOther world owner filename s)
    ]
