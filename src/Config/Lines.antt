-- ===== src/Config/Lines.antt =====
-- The file vmailbox of config.rs, read line by line.
use mailserver.Prelude.{
  ℕ, ◌≡◌, refl, inl, inr, Bool, true, false, ◌||◌, Option, none, some, List, [], ◌∷◌, ◌++◌, map,
  Text, codes, is_empty, is_whitespace, trim, starts_with, strip_prefix, split_char, split_once,
  any, arith, Option-cases, All, Lacks, Lacks-append, Lacks-cons, contains_char,
  contains_char-append, split_char-append, ==_iff, ◌==◌, if◌then◌else◌, ap, ◌∙◌,
}
use mathlib.Core.List.{append_assoc}
use mailserver.Config.Addresses.{is_invalid, sanitize_map_token}
use mailserver.Config.Entries.{Account, Entry, email_of}
use mailserver.Config.Files.{
  written, header_line, generated_header_with, kept, mailbox_of, mailboxes, mailbox_line,
  virtual_mailboxes,
}

newline_invalid : (b : Bool) (c : ℕ) → c ≡ b'\n' → is_invalid b c ≡ true
unfolding is_invalid is_whitespace
newline_invalid b c e = rw e refl

space_invalid : (b : Bool) (c : ℕ) → c ≡ b' ' → is_invalid b c ≡ true
unfolding is_invalid is_whitespace
space_invalid b c e = rw e refl

valid-Lacks : (b : Bool) (s : Text) → any (is_invalid b) s ≡ false → Lacks b'\n' s × Lacks b' ' s
unfolding contains_char
valid-Lacks b [] h = (refl, refl)
valid-Lacks b (c ∷ s) h =
    ground (
      arith,
      valid-Lacks b s,
      newline_invalid b c,
      space_invalid b c,
      ==_iff c b'\n',
      ==_iff c b' ',
    )

-- What a token that passes cannot hold.
pub sanitize_map_token-Lacks :
    (lower : Text → Text) (value : Text) (b : Bool) (t : Text)
    → sanitize_map_token lower value b ≡ some t
    → Lacks b'\n' t × Lacks b' ' t
unfolding sanitize_map_token
sanitize_map_token-Lacks lower value b t h = ground (arith, valid-Lacks b (lower (trim value)))

abbrev IsClean : Text × Text → Type 0
IsClean (username, domain) =
    (Lacks b'\n' username × Lacks b' ' username) × (Lacks b'\n' domain × Lacks b' ' domain)

mailbox_of-IsClean :
    (lower : Text → Text) (a : Account) (u d : Text)
    → mailbox_of lower a ≡ some (u, d)
    → IsClean (u, d)
unfolding mailbox_of
mailbox_of-IsClean lower a u d h = elim (Option-cases a.domain_name) [
  | inl e ↦ absurd (let k = rw (mailbox_of, e) at h in ground arith)
  | inr (domain, e) ↦
      let k = rw (mailbox_of, e) at h in
      (
        ground (arith, sanitize_map_token-Lacks lower a.username true u),
        ground (arith, sanitize_map_token-Lacks lower domain false d),
      )
]

mailboxes-IsClean :
    (lower : Text → Text) (accounts : List Account) → All IsClean (mailboxes lower accounts)
unfolding mailboxes
mailboxes-IsClean lower [] = tt
mailboxes-IsClean lower (a ∷ accounts) = elim (Option-cases (mailbox_of lower a)) [
  | inl e ↦ rw (mailboxes, e) (mailboxes-IsClean lower accounts)
  | inr ((u, d), e) ↦
      rw (mailboxes, e) (mailbox_of-IsClean lower a u d e, mailboxes-IsClean lower accounts)
]

email_of-Lacks :
    (c : ℕ) (u d : Text) → (b'@' == c) ≡ false → Lacks c u → Lacks c d → Lacks c (email_of u d)
unfolding contains_char
email_of-Lacks c u d h p q =
    Lacks-append c (u ++ codes "@") d (Lacks-append c u (codes "@") p (rw h refl)) q

mailbox_line-Lacks : (u d : Text) → IsClean (u, d) → Lacks b'\n' (mailbox_line (u, d))
unfolding contains_char
mailbox_line-Lacks u d ((p, _), (q, _)) = simp (contains_char-append, p, q)

-- Reading a file that was written.
split_char-written :
    (lines : List Text)
    → All (Lacks b'\n') lines
    → split_char b'\n' (written lines) ≡ lines ++ [] ∷ []
unfolding split_char
split_char-written [] h = refl
split_char-written (l ∷ lines) (p, h) =
    split_char-append b'\n' l (written lines) p
    ∙ ap (λ (r : List Text). l ∷ r) (split_char-written lines h)

split_once-append : (c : ℕ) (a b : Text) → Lacks c a → split_once c (a ++ c ∷ b) ≡ some (a, b)
unfolding split_once
split_once-append c [] b h = ground (arith, ==_iff c c)
split_once-append c (x ∷ a) b h =
    let (differs, rest) = Lacks-cons c x a h in rw (differs, split_once-append c a b rest) refl

-- How `postmap` reads a map: no blank line, no comment, and the key before the first space.
abbrev read_line : Text → Option Entry
read_line line =
    if is_empty line || starts_with (codes "#") line then none else split_once b' ' line

unfoldable pub read_lines : List Text → List Entry
unfolding is_empty starts_with split_once
read_lines [] = []
read_lines (line ∷ lines) = kept (read_line line) (read_lines lines)

unfoldable pub read_map : Text → List Entry
unfolding read_lines split_char
read_map content = read_lines (split_char b'\n' content)

-- The maildir of a mailbox.
abbrev pub maildir_entry : Text × Text → Entry
maildir_entry (u, d) = (email_of u d, d ++ (codes "/" ++ (u ++ codes "/Maildir/")))

abbrev pub IsNoComment : Text × Text → Type 0
IsNoComment (u, d) = starts_with (codes "#") u ≡ false

header-comment :
    (timestamp : Text) (lines : List Text)
    → read_lines (header_line timestamp ∷ lines) ≡ read_lines lines
unfolding read_lines starts_with strip_prefix
header-comment timestamp lines = refl

is_read :
    (u d rest : Text)
    → starts_with (codes "#") u ≡ false
    → (is_empty (email_of u d ++ rest) || starts_with (codes "#") (email_of u d ++ rest)) ≡ false
unfolding is_empty starts_with strip_prefix
is_read [] d rest k = refl
is_read (c ∷ u) d rest k = ground arith

read_line-mailbox :
    (u d : Text)
    → IsClean (u, d)
    → IsNoComment (u, d)
    → read_line (mailbox_line (u, d)) ≡ some (maildir_entry (u, d))
read_line-mailbox u d ((_, p), (_, q)) k =
    let path = d ++ (codes "/" ++ (u ++ codes "/Maildir/")) in
    rw (is_read u d (b' ' ∷ path) k)
      (split_once-append b' ' (email_of u d) path (email_of-Lacks b' ' u d refl p q))

read_lines-mailboxes :
    (pairs : List (Text × Text))
    → All IsClean pairs
    → All IsNoComment pairs
    → read_lines (map mailbox_line pairs ++ [] ∷ []) ≡ map maildir_entry pairs
unfolding read_lines
read_lines-mailboxes [] h k = refl
read_lines-mailboxes ((u, d) ∷ pairs) (h, hs) (k, ks) =
    rw (read_line-mailbox u d h k)
      (ap (λ r. maildir_entry (u, d) ∷ r) (read_lines-mailboxes pairs hs ks))

mailbox_lines-Lacks :
    (pairs : List (Text × Text)) → All IsClean pairs → All (Lacks b'\n') (map mailbox_line pairs)
mailbox_lines-Lacks [] h = tt
mailbox_lines-Lacks ((u, d) ∷ pairs) (h, hs) =
    (mailbox_line-Lacks u d h, mailbox_lines-Lacks pairs hs)

header-Lacks : (timestamp : Text) → Lacks b'\n' timestamp → Lacks b'\n' (header_line timestamp)
unfolding contains_char
header-Lacks timestamp h = h

-- Whatever stands in the accounts, vmailbox reads back as one entry for each account that is kept:
-- its address, and a maildir under its own domain and name. The time of the header is one line, and
-- no name begins with the sign of a comment.
pub read_map-virtual_mailboxes :
    (lower : Text → Text) (timestamp : Text) (accounts : List Account)
    → Lacks b'\n' timestamp
    → All IsNoComment (mailboxes lower accounts)
    → read_map (virtual_mailboxes lower timestamp accounts)
      ≡ map maildir_entry (mailboxes lower accounts)
unfolding read_map virtual_mailboxes generated_header_with
read_map-virtual_mailboxes lower timestamp accounts t k =
    let pairs = mailboxes lower accounts in
    let clean = mailboxes-IsClean lower accounts in
    let lines = map mailbox_line pairs in
    let head = header_line timestamp in
    let split_all : split_char b'\n' ((head ++ codes "\n") ++ written lines)
        ≡ head ∷ (lines ++ [] ∷ []) =
      ap (split_char b'\n') (append_assoc head (codes "\n") (written lines))
      ∙ split_char-append b'\n' head (written lines) (header-Lacks timestamp t)
      ∙ ap (λ (r : List Text). head ∷ r)
          (split_char-written lines (mailbox_lines-Lacks pairs clean)) in
    ap read_lines split_all
    ∙ header-comment timestamp (lines ++ [] ∷ [])
    ∙ read_lines-mailboxes pairs clean k
