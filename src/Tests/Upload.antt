-- ===== src/Tests/Upload.antt =====
-- An upload of provision.rs to a host whose state is the content of each file.
use mailserver.Prelude.{
  rsplit_once, reverse_onto, contains, is_ascii_alphanumeric, is_empty, ℕ, ◌≡◌, refl, inl, inr,
  true, false, Option, none, some, List, [], ◌∷◌, ◌++◌, ◌==◌, if◌then◌else◌, Text, codes, text_eq,
  text_eq_refl, eq_of_text_eq, length, arith, trim, parse_unsigned, usize_max, Bool-cases, ==_iff,
  ap, sym, ◌∙◌,
}
use mailserver.Provision.Upload.{
  Bytes, CmdResult, success, Command, argv, truncate, append, Host, uploaded, upload_file,
}
use mailserver.Provision.Upload.Delivery.{
  Behaves, content_of, is_harmless, Landed, upload_file-atomic,
}
use mailserver.Provision.Paths.{validate_remote_path}
use mailserver.Provision.Upload.{parent}
use mailserver.Provision.Upload.{chunks}
use mailserver.Provision.Upload.{chunks_from}

abbrev Files : Type 0
Files = Text → Option Bytes

abbrev set : Text → Option Bytes → Files → Files
set path content files p = if text_eq path p then content else files p

abbrev answer : Text → ℕ → Option CmdResult
answer stdout exit_code = some (record { stdout = stdout; stderr = []; exit_code = exit_code })

-- This stat knows files of three bytes only.
abbrev stat : Option Bytes → Option CmdResult
stat none = answer [] 1
stat (some b) = if length b == 3 then answer (codes "3\n") 0 else answer [] 1

abbrev run_program : Text → List Text → Files → Option CmdResult × Files
run_program program (a ∷ b ∷ c ∷ []) files =
    if text_eq program (codes "stat")
    then (stat (files c), files)
    else if text_eq program (codes "mv")
    then (answer [] 0, set c (files b) files)
    else (none, files)
run_program program args files = (answer [] 0, files)

abbrev run : Command → Files → Option CmdResult × Files
run (argv program args) files = run_program program args files
run (truncate path) files = (answer [] 0, set path (some []) files)
run (append encoded path) files =
    (answer [] 0, set path (some (content_of (files path) ++ encoded)) files)

abbrev host : Host Files
host = record { exec = run; file = λ files. files; encode = λ bytes. bytes }

host-harmless :
    (program : Text) (args : List Text) (files : Files) (p : Text)
    → is_harmless program ≡ true
    → (run_program program args files).1 p ≡ files p
unfolding text_eq
host-harmless program [] files p h = refl
host-harmless program (a ∷ []) files p h = refl
host-harmless program (a ∷ b ∷ []) files p h = refl
host-harmless program (a ∷ b ∷ c ∷ d ∷ args) files p h = refl
host-harmless program (a ∷ b ∷ c ∷ []) files p h =
    elim (Bool-cases (text_eq program (codes "stat"))) [
      | inl asks ↦ rw asks refl
      | inr other ↦ elim (Bool-cases (text_eq program (codes "mv"))) [
        | inr neither ↦ rw (other, neither) refl
        | inl moves ↦
            let k = rw (eq_of_text_eq program (codes "mv") moves) at h in absurd (ground arith)
      ]
    ]

three_of :
    (r : CmdResult) (n : ℕ)
    → codes "3\n" ≡ r.stdout
    → parse_unsigned usize_max (trim r.stdout) ≡ some n
    → 3 ≡ n
unfolding parse_unsigned trim
three_of r n e parsed = let k = rw (sym e) at parsed in cc

stat-measures :
    (o : Option Bytes) (r : CmdResult) (n : ℕ)
    → stat o ≡ some r
    → success r ≡ true
    → parse_unsigned usize_max (trim r.stdout) ≡ some n
    → (b : Bytes) × (o ≡ some b) × (length b ≡ n)
unfolding parse_unsigned trim
stat-measures none r n answered went parsed = absurd (ground arith)
stat-measures (some b) r n answered went parsed = elim (Bool-cases (length b == 3)) [
  | inl three ↦
      let k = rw three at answered in
      let same : record { stdout = codes "3\n"; stderr = []; exit_code = 0 } ≡ r = cc in
      (b, refl, (==_iff (length b) 3).0 three ∙ three_of r n (ap (λ c. c.stdout) same) parsed)
  | inr other ↦ let k = rw other at answered in absurd (ground arith)
]

host-Behaves : Behaves host
unfolding text_eq
host-Behaves = record {
  harmless_stays = host-harmless;
  truncate_stays = λ t s p other. rw other refl;
  append_stays = λ encoded t s p other. rw other refl;
  append_adds = λ bytes t s r answered went. rw (text_eq_refl t) refl;
  stat_measures = λ t s r n answered went parsed. stat-measures (s t) r n answered went parsed;
  mv_moves = λ t p s. inr (rw (text_eq_refl p) refl);
  mv_succeeds = λ t p s r answered went. rw (text_eq_refl p) refl;
}

abbrev before : Files
before path = if text_eq path (codes "/etc/motd") then some (codes "old") else none

abbrev read : Text → Option Bytes
read local = some (codes "new")

-- The run: test, mkdir, the truncation, one append, stat, chmod and mv.
upload_test :
    (upload_file host read (codes "motd") (codes "/etc/motd") false false before).0 ≡ uploaded
unfolding upload_file text_eq validate_remote_path is_empty is_ascii_alphanumeric contains parent
    reverse_onto rsplit_once chunks chunks_from parse_unsigned trim
upload_test = refl

upload_file-atomic_example :
    Landed
      (some (codes "old"))
      (some (codes "new"))
      (upload_file host read (codes "motd") (codes "/etc/motd") false false before).0
      ((upload_file host read (codes "motd") (codes "/etc/motd") false false before).1
        (codes "/etc/motd"))
unfolding text_eq
upload_file-atomic_example =
    upload_file-atomic host host-Behaves read (codes "motd") (codes "/etc/motd") false false before
      refl
