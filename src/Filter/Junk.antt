-- ===== src/Filter/Junk.antt =====
-- `move_recipient_to_junk` of filter.rs. Creating a directory and the change of owner are calls of
-- the operating system: `create` is what each gives, `chown` is true for an exit with success.
use mailserver.Prelude.{
  ℕ, Bool, true, false, not, ◌&&◌, ◌||◌, Option, none, some, List, [], ◌∷◌, ◌++◌, ◌==◌,
  if◌then◌else◌, all, Text, codes, is_empty, trim, contains, contains_char, split_char,
}
pub mod Laws

-- `trim_end_matches('/')`
unfoldable pub trim_end_slash : Text → Text
unfolding is_empty
trim_end_slash [] = []
trim_end_slash (c ∷ s) =
    let rest = trim_end_slash s in if is_empty rest && c == b'/' then [] else c ∷ rest

abbrev first_piece : List Text → Text
first_piece [] = []
first_piece (w ∷ ws) = w

-- `local` without its extension
unfoldable pub base_local : Text → Text
unfolding split_char
base_local local = first_piece (split_char b'+' local)

unfoldable pub maildir_base : Text → Text → Text → Text
unfolding trim_end_slash base_local
maildir_base mail_root local domain =
    trim_end_slash mail_root
    ++ (codes "/" ++ (domain ++ (codes "/" ++ (base_local local ++ codes "/Maildir"))))

unfoldable pub maildirs : Text → List Text
maildirs base =
    base
    ∷ (base ++ codes "/new")
    ∷ (base ++ codes "/cur")
    ∷ (base ++ codes "/tmp")
    ∷ (base ++ codes "/.Junk")
    ∷ (base ++ codes "/.Junk/new")
    ∷ (base ++ codes "/.Junk/cur")
    ∷ (base ++ codes "/.Junk/tmp")
    ∷ []

unfoldable pub is_path_safe : Text → Text → Bool
unfolding is_empty contains_char contains
is_path_safe local domain =
    not (is_empty local || is_empty domain)
    && not (
        contains_char b'/' local
        || contains_char b'/' domain
        || contains (codes "..") local
        || contains (codes "..") domain)

unfoldable pub junk_address : Text → Text → Text
unfolding base_local
junk_address local domain = base_local local ++ (codes "+Junk@" ++ domain)

unfoldable pub junk_of_parts : (Text → Bool) → (Text → Bool) → Text → Text → Text → Option Text
unfolding is_path_safe maildirs maildir_base junk_address
junk_of_parts create chown mail_root local domain =
    if not (is_path_safe local domain)
    then none
    else if not (all create (maildirs (maildir_base mail_root local domain)))
    then none
    else if chown (maildir_base mail_root local domain)
    then some (junk_address local domain)
    else none

junk_of_pieces : (Text → Bool) → (Text → Bool) → Text → List Text → Option Text
unfolding junk_of_parts trim
junk_of_pieces create chown mail_root (local ∷ domain ∷ []) =
    junk_of_parts create chown mail_root (trim local) (trim domain)
junk_of_pieces create chown mail_root _ = none

unfoldable pub move_recipient_to_junk : (Text → Bool) → (Text → Bool) → Text → Text → Option Text
unfolding junk_of_pieces split_char
move_recipient_to_junk create chown recipient mail_root =
    junk_of_pieces create chown mail_root (split_char b'@' recipient)
