-- ===== src/Tests/Config.antt =====
-- The map files on concrete inputs.
use mailserver.Prelude.{
  starts_with, is_control, trim, contains_char, ◌≡◌, refl, true, some, [], ◌∷◌, Text, codes,
  to_ascii_lowercase, map, starts_with,
}
use mailserver.Config.Entries.{Alias, Account}
use mailserver.Config.Files.{mailboxes, virtual_mailboxes}
use mailserver.Config.Lines.{read_map, maildir_entry, read_map-virtual_mailboxes}
use mailserver.Config.Addresses.{sanitize_map_token}

abbrev catch_all : Alias
catch_all = record {
  source = codes "*@example.org";
  destination = codes "admin@example.org";
  active = true;
  domain_name = some (codes "example.org");
}

abbrev alice : Account
alice = record {
  username = codes "alice";
  password_hash = codes "$2b$12$hash";
  active = true;
  domain_name = some (codes "example.org");
}

abbrev evil : Account
evil = record alice { username = codes "x\ny" }

abbrev stamp : Text
stamp = codes "2024-05-01T10:00:00+00:00"

-- The name with a line feed gets no line.
read_map-virtual_mailboxes_example :
    read_map (virtual_mailboxes to_ascii_lowercase stamp (alice ∷ evil ∷ []))
    ≡ map maildir_entry (mailboxes to_ascii_lowercase (alice ∷ evil ∷ []))
unfolding contains_char mailboxes sanitize_map_token to_ascii_lowercase trim is_control starts_with
read_map-virtual_mailboxes_example =
    read_map-virtual_mailboxes to_ascii_lowercase stamp (alice ∷ evil ∷ []) refl (refl, tt)

one_mailbox :
    mailboxes to_ascii_lowercase (alice ∷ evil ∷ []) ≡ (codes "alice", codes "example.org") ∷ []
unfolding mailboxes sanitize_map_token to_ascii_lowercase trim is_control
one_mailbox = refl
