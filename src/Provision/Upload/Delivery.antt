-- ===== src/Provision/Upload/Delivery.antt =====
-- What an upload of provision.rs leaves at the remote path, on a host that runs the commands as they
-- are documented, any of which may fail.
use mailserver.Prelude.{
  ℕ, zero, suc, ◌≡◌, refl, ap, sym, ◌∙◌, ◌⊎◌, inl, inr, Bool, true, false, ◌||◌, Option, none, some,
  List, [], ◌∷◌, ◌++◌, ◌==◌, ==_iff, Bool-cases, Option-cases, Text, codes, text_eq, eq_of_text_eq,
  is_empty, if◌then◌else◌, length, length-append, arith, trim, parse_unsigned, usize_max,
}
use mathlib.Core.List.{append_assoc, append-nil}
use mailserver.Provision.Paths.{validate_remote_path}
use mailserver.Provision.Upload.{
  Bytes, CmdResult, success, argv, truncate, append, Host, Uploaded, uploaded, skipped, failed,
  push_front, chunks_from, chunks, parent, temp_of, and_then, move_into_place, UploadError,
  not_moved, no_mode, no_stat, chunk_failed, set_mode, check_size, verify, send_chunks, write_temp,
  make_parent, send, upload_file,
}

unfoldable pub concat : List Bytes → Bytes
concat [] = []
concat (c ∷ cs) = c ++ concat cs

concat-push_front : (b : ℕ) (cs : List Bytes) → concat (push_front b cs) ≡ b ∷ concat cs
unfolding concat
concat-push_front b [] = refl
concat-push_front b (c ∷ cs) = refl

concat-chunks_from : (left : ℕ) (content : Bytes) → concat (chunks_from left content) ≡ content
unfolding concat chunks_from
concat-chunks_from left [] = refl
concat-chunks_from zero (b ∷ bs) =
    concat-push_front b (chunks_from 49151 bs) ∙ ap (λ v. b ∷ v) (concat-chunks_from 49151 bs)
concat-chunks_from (suc left) (b ∷ bs) =
    concat-push_front b (chunks_from left bs) ∙ ap (λ v. b ∷ v) (concat-chunks_from left bs)

-- The chunks are the content in pieces.
pub concat-chunks : (content : Bytes) → concat (chunks content) ≡ content
unfolding concat chunks
concat-chunks [] = refl
concat-chunks (b ∷ bs) =
    concat-push_front b (chunks_from 49151 bs) ∙ ap (λ v. b ∷ v) (concat-chunks_from 49151 bs)

abbrev pub content_of : Option Bytes → Bytes
content_of none = []
content_of (some b) = b

abbrev pub is_harmless : Text → Bool
is_harmless program =
    text_eq program (codes "test")
    || text_eq program (codes "mkdir")
    || text_eq program (codes "stat")
    || text_eq program (codes "chmod")

-- What is relied on: the four programs change no content of a file; a redirection changes no file but
-- the one it names, and `>>` appends the bytes to it; stat prints the size; `mv -f` leaves the target
-- as it was or with the content of the source, and the latter if it succeeds.
pub record Behaves {S : Type 0} (host : Host S) : Type 0 where
  pub harmless_stays :
      (program : Text) (args : List Text) (s : S) (p : Text)
      → is_harmless program ≡ true
      → host.file (host.exec (argv program args) s).1 p ≡ host.file s p
  pub truncate_stays :
      (t : Text) (s : S) (p : Text)
      → text_eq t p ≡ false
      → host.file (host.exec (truncate t) s).1 p ≡ host.file s p
  pub append_stays :
      (encoded t : Text) (s : S) (p : Text)
      → text_eq t p ≡ false
      → host.file (host.exec (append encoded t) s).1 p ≡ host.file s p
  pub append_adds :
      (bytes : Bytes) (t : Text) (s : S) (r : CmdResult)
      → (host.exec (append (host.encode bytes) t) s).0 ≡ some r
      → success r ≡ true
      → content_of (host.file (host.exec (append (host.encode bytes) t) s).1 t)
        ≡ content_of (host.file s t) ++ bytes
  pub stat_measures :
      (t : Text) (s : S) (r : CmdResult) (n : ℕ)
      → (host.exec (argv (codes "stat") (codes "-c" ∷ codes "%s" ∷ t ∷ [])) s).0 ≡ some r
      → success r ≡ true
      → parse_unsigned usize_max (trim r.stdout) ≡ some n
      → (b : Bytes) × (host.file s t ≡ some b) × (length b ≡ n)
  pub mv_moves :
      (t p : Text) (s : S)
      → (host.file (host.exec (argv (codes "mv") (codes "-f" ∷ t ∷ p ∷ [])) s).1 p ≡ host.file s p)
        ⊎ (host.file (host.exec (argv (codes "mv") (codes "-f" ∷ t ∷ p ∷ [])) s).1 p
            ≡ host.file s t)
  pub mv_succeeds :
      (t p : Text) (s : S) (r : CmdResult)
      → (host.exec (argv (codes "mv") (codes "-f" ∷ t ∷ p ∷ [])) s).0 ≡ some r
      → success r ≡ true
      → host.file (host.exec (argv (codes "mv") (codes "-f" ∷ t ∷ p ∷ [])) s).1 p ≡ host.file s t

temp_differs : (path : Text) → text_eq (temp_of path) path ≡ false
temp_differs path = elim (Bool-cases (text_eq (temp_of path) path)) [
  | inr differs ↦ differs
  | inl same ↦
      let lengths = ap length (eq_of_text_eq (temp_of path) path same) in
      absurd (omega (arith, length-append path (codes ".mailserver-new")))
]

-- A list that is not made longer by what stands before it.
prefix-empty : (xs ys : Bytes) → length (xs ++ ys) ≡ length ys → xs ++ ys ≡ ys
prefix-empty [] ys h = refl
prefix-empty (x ∷ xs) ys h = absurd (omega (arith, length-append xs ys))

-- The file at the path after an outcome: the new content, what it was, or, after an error, one of the
-- two.
abbrev pub Landed : Option Bytes → Option Bytes → Uploaded → Option Bytes → Type 0
Landed old new uploaded file = file ≡ new
Landed old new skipped file = file ≡ old
Landed old new (failed e) file = (file ≡ old) ⊎ (file ≡ new)

module _ {S : Type 0} (host : Host S) (laws : Behaves host) (path : Text) (old : Option Bytes) where
  abbrev Ends : Option Bytes → Uploaded × S → Type 0
  Ends new r = Landed old new r.0 (host.file r.1 path)

  and_then-Ends :
      (new : Option Bytes) (x : Option CmdResult × S) (k : CmdResult → S → Uploaded × S)
      → (host.file x.1 path ≡ old) ⊎ (host.file x.1 path ≡ new)
      → ((r : CmdResult) → x.0 ≡ some r → Ends new (k r x.1))
      → Ends new (and_then x k)
  unfolding and_then
  and_then-Ends new (none, s) k h runs = h
  and_then-Ends new (some r, s) k h runs = runs r refl

  tested-Ends :
      (new : Option Bytes) (x : Option CmdResult × S) (k : CmdResult → S → Uploaded × S)
      (e : UploadError)
      → (host.file x.1 path ≡ old) ⊎ (host.file x.1 path ≡ new)
      → ((r : CmdResult) → x.0 ≡ some r → success r ≡ true → Ends new (k r x.1))
      → Ends new (and_then x (λ r s'. if success r then k r s' else (failed e, s')))
  tested-Ends new x k e h runs =
      and_then-Ends new x (λ r s'. if success r then k r s' else (failed e, s')) h
        (λ r answered. elim (Bool-cases (success r)) [
          | inl went ↦ rw went (runs r answered went)
          | inr fails ↦ rw fails h
        ])

  abbrev Ready : Option Bytes → S → Type 0
  Ready new s = (host.file s path ≡ old) × (host.file s (temp_of path) ≡ new)

  move-Ends : (new : Option Bytes) (s : S) → Ready new s → Ends new (move_into_place host path s)
  unfolding move_into_place
  move-Ends new s (same, ready) =
      let t = temp_of path in
      let x = host.exec (argv (codes "mv") (codes "-f" ∷ t ∷ path ∷ [])) s in
      tested-Ends new x (λ r s'. (uploaded, s')) not_moved
        (elim (laws.mv_moves t path s) [
          | inl stays ↦ inl (stays ∙ same)
          | inr moved ↦ inr (moved ∙ ready)
        ])
        (λ r answered went. laws.mv_succeeds t path s r answered went ∙ ready)

  harmless-Ready :
      (new : Option Bytes) (program : Text) (args : List Text) (s : S)
      → is_harmless program ≡ true
      → Ready new s
      → Ready new (host.exec (argv program args) s).1
  harmless-Ready new program args s h (same, ready) = (
    laws.harmless_stays program args s path h ∙ same,
    laws.harmless_stays program args s (temp_of path) h ∙ ready,
  )

  set_mode-Ends :
      (new : Option Bytes) (executable : Bool) (s : S)
      → Ready new s
      → Ends new (set_mode host path executable s)
  unfolding set_mode text_eq
  set_mode-Ends new executable s h =
      let mode = if executable then codes "755" else codes "644" in
      let args = mode ∷ temp_of path ∷ [] in
      let x = host.exec (argv (codes "chmod") args) s in
      let ready = harmless-Ready new (codes "chmod") args s refl h in
      tested-Ends new x (λ r s'. move_into_place host path s') no_mode (inl ready.0)
        (λ r answered went. move-Ends new x.1 ready)

  -- With a stale start that the truncation left: the size tells.
  verify-Ends :
      (content stale : Bytes) (executable : Bool) (s : S)
      → host.file s path ≡ old
      → content_of (host.file s (temp_of path)) ≡ stale ++ content
      → Ends (some content) (verify host path executable (length content) s)
  unfolding verify check_size text_eq
  verify-Ends content stale executable s same sent =
      let t = temp_of path in
      let args = codes "-c" ∷ codes "%s" ∷ t ∷ [] in
      let x = host.exec (argv (codes "stat") args) s in
      let stays = laws.harmless_stays (codes "stat") args s path refl ∙ same in
      tested-Ends (some content) x (λ r s'. check_size host path executable (length content) r s')
        no_stat (inl stays)
        (λ r answered went. elim (Option-cases (parse_unsigned usize_max (trim r.stdout))) [
          | inl unread ↦ rw (check_size, unread) (inl stays)
          | inr (n, read) ↦ elim (Bool-cases (n == length content)) [
            | inr differs ↦ rw (check_size, read, differs) (inl stays)
            | inl equal ↦
                let (b, there, size) = laws.stat_measures t s r n answered went read in
                let whole : stale ++ content ≡ b = sym sent ∙ ap content_of there in
                let sizes : length (stale ++ content) ≡ length content =
                  ap length whole ∙ size ∙ (==_iff n (length content)).0 equal in
                let new : host.file x.1 t ≡ some content =
                  laws.harmless_stays (codes "stat") args s t refl
                  ∙ there
                  ∙ ap (λ v. some v) (sym whole ∙ prefix-empty stale content sizes) in
                rw (check_size, read, equal)
                  (set_mode-Ends (some content) executable x.1 (stays, new))
          ]
        ])

  send_chunks-Ends :
      (content stale sent : Bytes) (executable : Bool) (cs : List Bytes) (s : S)
      → host.file s path ≡ old
      → content_of (host.file s (temp_of path)) ≡ stale ++ sent
      → sent ++ concat cs ≡ content
      → Ends (some content) (send_chunks host path executable (length content) cs s)
  unfolding send_chunks concat
  send_chunks-Ends content stale sent executable [] s same here e =
      verify-Ends content stale executable s same
        (here ∙ ap (λ v. stale ++ v) (sym (append-nil sent) ∙ e))
  send_chunks-Ends content stale sent executable (c ∷ cs) s same here e =
      let t = temp_of path in
      let x = host.exec (append (host.encode c) t) s in
      let stays = laws.append_stays (host.encode c) t s path (temp_differs path) ∙ same in
      tested-Ends (some content) x (λ r s'. send_chunks host path executable (length content) cs s')
        chunk_failed (inl stays)
        (λ r answered went.
          send_chunks-Ends content stale (sent ++ c) executable cs x.1 stays
            (laws.append_adds c t s r answered went
              ∙ ap (λ v. v ++ c) here
              ∙ append_assoc stale sent c)
            (append_assoc sent c (concat cs) ∙ e))

  write_temp-Ends :
      (content : Bytes) (executable : Bool) (s : S)
      → host.file s path ≡ old
      → Ends (some content) (write_temp host path executable content s)
  unfolding write_temp
  write_temp-Ends content executable s same =
      let t = temp_of path in
      let x = host.exec (truncate t) s in
      let stays = laws.truncate_stays t s path (temp_differs path) ∙ same in
      and_then-Ends (some content) x
        (λ r s'. send_chunks host path executable (length content) (chunks content) s') (inl stays)
        (λ r answered.
          send_chunks-Ends content (content_of (host.file x.1 t)) [] executable (chunks content) x.1
            stays (sym (append-nil (content_of (host.file x.1 t)))) (concat-chunks content))

  make_parent-Ends :
      (dir : Text) (content : Bytes) (executable : Bool) (s : S)
      → host.file s path ≡ old
      → Ends (some content) (make_parent host dir path executable content s)
  unfolding make_parent text_eq
  make_parent-Ends dir content executable s same =
      elim (Bool-cases (is_empty dir || text_eq dir (codes "/"))) [
        | inl none_needed ↦
            rw (make_parent, none_needed) (write_temp-Ends content executable s same)
        | inr needed ↦ elim (Option-cases (validate_remote_path dir)) [
          | inr (e, bad) ↦ rw (make_parent, needed, bad) (inl same)
          | inl good ↦
              let args = codes "-p" ∷ dir ∷ [] in
              let x = host.exec (argv (codes "mkdir") args) s in
              let stays = laws.harmless_stays (codes "mkdir") args s path refl ∙ same in
              rw (make_parent, needed, good)
                (and_then-Ends (some content) x (λ r s'. write_temp host path executable content s')
                  (inl stays) (λ r answered. write_temp-Ends content executable x.1 stays))
        ]
      ]

  send-Ends :
      (data_read : Option Bytes) (executable : Bool) (s : S) {content : Bytes}
      → data_read ≡ some content
      → host.file s path ≡ old
      → Ends (some content) (send host data_read path executable s)
  unfolding send
  send-Ends data_read executable s {content} e same =
      rw e (elim (Option-cases (validate_remote_path (temp_of path))) [
        | inr (bad, refused) ↦ rw (send, refused) (inl same)
        | inl good ↦ elim (Option-cases (parent path)) [
          | inl top ↦ rw (send, good, top) (write_temp-Ends content executable s same)
          | inr (dir, below) ↦
              rw (send, good, below) (make_parent-Ends dir content executable s same)
        ]
      ])

-- An upload is atomic, on every host that runs the commands as documented and may fail at any of them:
-- if the local file can be read, then after success the remote path holds exactly its bytes (even if
-- the truncation of the temporary file failed, which is not tested), after a skipped upload what it
-- held before, and after an error either one or the other, never a part.
pub upload_file-atomic :
    {S : Type 0} (host : Host S)
    → Behaves host
    → (read : Text → Option Bytes) (local path : Text) (executable skip_if_exists : Bool) (s : S)
      {content : Bytes}
    → read local ≡ some content
    → Landed
        (host.file s path)
        (some content)
        (upload_file host read local path executable skip_if_exists s).0
        (host.file (upload_file host read local path executable skip_if_exists s).1 path)
unfolding upload_file text_eq
upload_file-atomic host laws read local path executable skip_if_exists s {content} e =
    elim (Option-cases (validate_remote_path path)) [
      | inr (bad, refused) ↦ rw (upload_file, refused) (inl refl)
      | inl good ↦ elim (Bool-cases skip_if_exists) [
        | inr always ↦
            rw (upload_file, good, always)
              (send-Ends host laws path (host.file s path) (read local) executable s e refl)
        | inl asks ↦
            let args = codes "-e" ∷ path ∷ [] in
            let x = host.exec (argv (codes "test") args) s in
            let stays = laws.harmless_stays (codes "test") args s path refl in
            rw (upload_file, good, asks)
              (and_then-Ends host laws path (host.file s path) (some content) x
                (λ r s'.
                  if success r then (skipped, s') else send host (read local) path executable s')
                (inl stays)
                (λ r answered. elim (Bool-cases (success r)) [
                  | inl exists ↦ rw exists stays
                  | inr absent ↦ rw absent (
                      send-Ends host laws path (host.file s path) (read local) executable x.1 e
                        stays)
                ]))
      ]
    ]
