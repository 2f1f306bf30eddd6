-- ===== src/Provision/Upload.antt =====
-- upload_file and remote_exists of provision.rs. The host is an argument: how its state answers a
-- command (none: the connection failed), and the files in it. The local disk and the base-64 encoder
-- of a third party are arguments too.
pub mod Delivery
use mailserver.Prelude.{
  ℕ, zero, suc, ◌-◌, Bool, true, false, ◌&&◌, ◌||◌, Option, none, some, List, [], ◌∷◌, ◌++◌, ◌==◌,
  if◌then◌else◌, Text, codes, text_eq, is_empty, length, trim, starts_with, rsplit_once,
  parse_unsigned, usize_max, reverse_onto,
}
use mailserver.Provision.Shell.{sh_single_quote, command_of}
use mailserver.Provision.Paths.{PathError, validate_remote_path}

abbrev pub Bytes : Type 0
Bytes = List ℕ

-- The exit code stands for its 32 bits.
pub record CmdResult : Type 0 where
  pub stdout : Text
  pub stderr : Text
  pub exit_code : ℕ

abbrev pub success : CmdResult → Bool
success r = r.exit_code == 0

-- What is sent: a program with its arguments, and the two commands with a redirection.
pub data Command : Type 0 where
  argv : Text → List Text → Command
  truncate : Text → Command
  append : Text → Text → Command

unfoldable pub text_of : Command → Text
text_of (argv program args) = command_of program args
text_of (truncate path) = codes ": > " ++ sh_single_quote path
text_of (append encoded path) =
    codes "printf '%s' "
    ++ sh_single_quote encoded
    ++ codes " | base64 -d >> "
    ++ sh_single_quote path

pub record Host (S : Type 0) : Type 0 where
  pub exec : Command → S → Option CmdResult × S
  pub file : S → Text → Option Bytes
  pub encode : Bytes → Text

pub data UploadError : Type 0 where
  connection unreadable chunk_failed no_stat no_size size_mismatch no_mode not_moved : UploadError
  bad_path : PathError → UploadError

pub data Uploaded : Type 0 where
  uploaded skipped : Uploaded
  failed : UploadError → Uploaded

abbrev pub chunk_size : ℕ
chunk_size = 49152

abbrev pub push_front : ℕ → List Bytes → List Bytes
push_front b [] = (b ∷ []) ∷ []
push_front b (c ∷ cs) = (b ∷ c) ∷ cs

-- The chunk that has `left` more bytes to take, and those after it.
unfoldable pub chunks_from : ℕ → Bytes → List Bytes
chunks_from left [] = [] ∷ []
chunks_from zero (b ∷ bs) = [] ∷ push_front b (chunks_from (chunk_size - 1) bs)
chunks_from (suc left) (b ∷ bs) = push_front b (chunks_from left bs)

-- `data.chunks(CHUNK)`
unfoldable pub chunks : Bytes → List Bytes
chunks [] = []
chunks (b ∷ bs) = push_front b (chunks_from (chunk_size - 1) bs)

-- `Path::parent`, on the text: trailing separators and `.` segments are no components.
unfoldable pub strip_back : Text → Text
strip_back [] = []
strip_back (c ∷ s) =
    let rest = strip_back s in
    if c == b'/' then rest else if c == b'.' && starts_with (codes "/") s then rest else c ∷ s

abbrev pub strip_trailing : Text → Text
strip_trailing s = reverse_onto (strip_back (reverse_onto s [])) []

unfoldable pub parent : Text → Option Text
unfolding strip_back
parent path =
    let body = strip_trailing path in
    if is_empty body then none else elim (rsplit_once b'/' body) [
      | none ↦ some []
      | some (dir, name) ↦
          let rest = strip_trailing dir in if is_empty rest then some (codes "/") else some rest
    ]

abbrev pub temp_of : Text → Text
temp_of path = path ++ codes ".mailserver-new"

-- `?` on a command.
unfoldable pub and_then :
    {S : Type 0} → Option CmdResult × S → (CmdResult → S → Uploaded × S) → Uploaded × S
and_then (none, s) k = (failed connection, s)
and_then (some r, s) k = k r s

module _ {S : Type 0} (host : Host S) where
  unfoldable pub move_into_place : Text → S → Uploaded × S
  unfolding and_then
  move_into_place path s =
      let words = codes "-f" ∷ temp_of path ∷ path ∷ [] in
      and_then (host.exec (argv (codes "mv") words) s)
        (λ r s'. if success r then (uploaded, s') else (failed not_moved, s'))

  unfoldable pub set_mode : Text → Bool → S → Uploaded × S
  unfolding and_then move_into_place
  set_mode path executable s =
      let mode = if executable then codes "755" else codes "644" in
      and_then (host.exec (argv (codes "chmod") (mode ∷ temp_of path ∷ [])) s)
        (λ r s'. if success r then move_into_place path s' else (failed no_mode, s'))

  unfoldable pub check_size : Text → Bool → ℕ → CmdResult → S → Uploaded × S
  unfolding set_mode
  check_size path executable total r s = elim (parse_unsigned usize_max (trim r.stdout)) [
    | none ↦ (failed no_size, s)
    | some remote_size ↦
        if remote_size == total then set_mode path executable s else (failed size_mismatch, s)
  ]

  unfoldable pub verify : Text → Bool → ℕ → S → Uploaded × S
  unfolding and_then check_size
  verify path executable total s =
      let words = codes "-c" ∷ codes "%s" ∷ temp_of path ∷ [] in
      and_then (host.exec (argv (codes "stat") words) s)
        (λ r s'. if success r then check_size path executable total r s' else (failed no_stat, s'))

  unfoldable pub send_chunks : Text → Bool → ℕ → List Bytes → S → Uploaded × S
  unfolding and_then verify
  send_chunks path executable total [] s = verify path executable total s
  send_chunks path executable total (c ∷ cs) s =
      and_then (host.exec (append (host.encode c) (temp_of path)) s) (λ r s'.
        let rest = send_chunks path executable total cs s' in
        if success r then rest else (failed chunk_failed, s'))

  unfoldable pub write_temp : Text → Bool → Bytes → S → Uploaded × S
  unfolding and_then send_chunks
  write_temp path executable content s =
      and_then (host.exec (truncate (temp_of path)) s)
        (λ r s'. send_chunks path executable (length content) (chunks content) s')

  unfoldable pub make_parent : Text → Text → Bool → Bytes → S → Uploaded × S
  unfolding and_then write_temp
  make_parent dir path executable content s =
      if is_empty dir || text_eq dir (codes "/")
      then write_temp path executable content s
      else elim (validate_remote_path dir) [
        | some e ↦ (failed (bad_path e), s)
        | none ↦
            and_then (host.exec (argv (codes "mkdir") (codes "-p" ∷ dir ∷ [])) s)
              (λ r s'. write_temp path executable content s')
      ]

  unfoldable pub send : Option Bytes → Text → Bool → S → Uploaded × S
  unfolding make_parent
  send none path executable s = (failed unreadable, s)
  send (some content) path executable s = elim (validate_remote_path (temp_of path)) [
    | some e ↦ (failed (bad_path e), s)
    | none ↦ elim (parent path) [
      | none ↦ write_temp path executable content s
      | some dir ↦ make_parent dir path executable content s
    ]
  ]

  -- `skip_if_exists` asks the host first (`remote_exists`).
  unfoldable pub upload_file : (Text → Option Bytes) → Text → Text → Bool → Bool → S → Uploaded × S
  unfolding and_then send
  upload_file read local path executable skip_if_exists s = elim (validate_remote_path path) [
    | some e ↦ (failed (bad_path e), s)
    | none ↦
        if skip_if_exists
        then and_then (host.exec (argv (codes "test") (codes "-e" ∷ path ∷ [])) s)
            (λ r s'. if success r then (skipped, s') else send (read local) path executable s')
        else send (read local) path executable s
  ]
