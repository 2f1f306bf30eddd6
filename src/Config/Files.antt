-- ===== src/Config/Files.antt =====
-- The files that the generate_ functions of config.rs write, as their content. The time in the
-- header is an argument; `lower` is `str::to_lowercase`.
use mailserver.Prelude.{
  ℕ, Bool, true, false, Option, none, some, List, [], ◌∷◌, ◌++◌, ◌==◌, if◌then◌else◌, Text, codes,
  text_eq, trim, split_char, length, map, to_string, Map, insert, text_eq_instance,
}
use mailserver.Config.Addresses.{sanitize_map_token, sanitize_map_address}
use mailserver.Config.Entries.{
  Alias, Forwarding, Account, Entry, email_of, build_virtual_alias_entries,
  build_recipient_bcc_entries, join_with,
}

pub record Domain : Type 0 where
  pub domain : Text
  pub active : Bool

-- The port of a relay is a number of the type u16 when it is entered.
pub record Relay : Type 0 where
  pub host : Text
  pub port : ℕ
  pub auth_type : Text
  pub username : Option Text
  pub password : Option Text

-- A relay with the pattern of its assignment.
abbrev pub Assignment : Type 0
Assignment = Relay × Text

-- `writeln!`
abbrev pub written : List Text → Text
written [] = []
written (line ∷ lines) = line ++ b'\n' ∷ written lines

abbrev pub header_line : Text → Text
header_line timestamp = codes "# Generated by mailserver on " ++ timestamp

-- `generated_header_with`
unfoldable pub generated_header_with : Text → Text
generated_header_with timestamp = header_line timestamp ++ codes "\n"

abbrev pub kept {ℓ} : {A : Type ℓ} → Option A → List A → List A
kept none rest = rest
kept (some a) rest = a ∷ rest

unfoldable pub domain_lines : List Domain → List Text
domain_lines [] = []
domain_lines (d ∷ domains) =
    let rest = domain_lines domains in if d.active then (d.domain ++ codes " OK") ∷ rest else rest

unfoldable pub virtual_domains : Text → List Domain → Text
unfolding generated_header_with domain_lines
virtual_domains timestamp domains =
    generated_header_with timestamp ++ written (domain_lines domains)

abbrev pub mailbox_line : Text × Text → Text
mailbox_line (username, domain) =
    email_of username domain
    ++ (codes " " ++ (domain ++ (codes "/" ++ (username ++ codes "/Maildir/"))))

abbrev passwd_line : Account → Text × Text → Text
passwd_line a (username, domain) =
    email_of username domain ++ codes ":{BLF-CRYPT}" ++ a.password_hash ++ codes ":::::"

abbrev pub mapped {ℓ κ} : {A : Type ℓ} {B : Type κ} → (A → B) → Option A → Option B
mapped f none = none
mapped f (some a) = some (f a)

abbrev no_aliases : Text
no_aliases =
    codes "# No active aliases or forwardings configured\n"
    ++ codes "# Add aliases or forwarding rules in the admin dashboard\n"

abbrev with_creds : Relay → Text → Text → Text → Map Text Text → Map Text Text
with_creds relay host user pass m =
    insert (codes "[" ++ host ++ codes "]:" ++ to_string relay.port) (user ++ codes ":" ++ pass) m

abbrev creds_line : Text × Text → Text
creds_line (host_port, creds) = host_port ++ codes " " ++ creds

module _ (lower : Text → Text) where
  -- The user and the domain of an account that gets a line.
  unfoldable pub mailbox_of : Account → Option (Text × Text)
  mailbox_of a =
      if a.active
      then elim a.domain_name [
        | none ↦ none
        | some domain ↦ elim (sanitize_map_token lower a.username true) [
          | none ↦ none
          | some username ↦ elim (sanitize_map_token lower domain false) [
            | none ↦ none
            | some clean ↦ some (username, clean)
          ]
        ]
      ]
      else none

  unfoldable pub mailboxes : List Account → List (Text × Text)
  unfolding mailbox_of
  mailboxes [] = []
  mailboxes (a ∷ accounts) = kept (mailbox_of a) (mailboxes accounts)

  unfoldable pub virtual_mailboxes : Text → List Account → Text
  unfolding generated_header_with mailboxes
  virtual_mailboxes timestamp accounts =
      generated_header_with timestamp ++ written (map mailbox_line (mailboxes accounts))

  unfoldable pub passwd_lines : List Account → List Text
  unfolding mailbox_of
  passwd_lines [] = []
  passwd_lines (a ∷ accounts) = kept (mapped (passwd_line a) (mailbox_of a)) (passwd_lines accounts)

  unfoldable pub dovecot_passwd : List Account → Text
  unfolding passwd_lines
  dovecot_passwd accounts = written (passwd_lines accounts)

  unfoldable pub alias_line : Entry → Option Text
  alias_line (source, destination) = elim (sanitize_map_address lower source) [
    | none ↦ none
    | some s ↦ mapped (λ d. s ++ codes " " ++ d) (sanitize_map_address lower destination)
  ]

  unfoldable pub alias_lines : List Entry → List Text
  unfolding alias_line
  alias_lines [] = []
  alias_lines (e ∷ entries) = kept (alias_line e) (alias_lines entries)

  unfoldable pub virtual_aliases : Text → List Alias → List Forwarding → List Account → Text
  unfolding generated_header_with alias_lines
  virtual_aliases timestamp aliases forwardings accounts =
      let entries = build_virtual_alias_entries aliases forwardings accounts in
      generated_header_with timestamp
      ++ (written (alias_lines entries) ++ (if length entries == 0 then no_aliases else []))

  -- `collect` into an `Option`: one bad destination drops the entry.
  unfoldable pub sanitize_all : List Text → Option (List Text)
  sanitize_all [] = some []
  sanitize_all (d ∷ dests) = elim (sanitize_map_address lower (trim d)) [
    | none ↦ none
    | some s ↦ mapped (λ (r : List Text). s ∷ r) (sanitize_all dests)
  ]

  unfoldable pub bcc_line : Entry → Option Text
  unfolding sanitize_all
  bcc_line (source, bcc) = elim (sanitize_map_address lower source) [
    | none ↦ none
    | some s ↦
        mapped (λ (dests : List Text). s ++ codes " " ++ join_with (codes ", ") dests)
          (sanitize_all (split_char b',' bcc))
  ]

  unfoldable pub bcc_lines : List Entry → List Text
  unfolding bcc_line
  bcc_lines [] = []
  bcc_lines (e ∷ entries) = kept (bcc_line e) (bcc_lines entries)

  unfoldable pub recipient_bcc : Text → List Forwarding → Text
  unfolding generated_header_with bcc_lines
  recipient_bcc timestamp forwardings =
      generated_header_with timestamp
      ++ written (bcc_lines (build_recipient_bcc_entries forwardings))

  unfoldable pub transport_line : Assignment → Option Text
  transport_line (relay, assigned) = elim (sanitize_map_address lower assigned) [
    | none ↦ none
    | some p ↦
        mapped (λ (host : Text). p ++ codes " smtp:[" ++ host ++ codes "]:" ++ to_string relay.port)
          (sanitize_map_token lower relay.host false)
  ]

  unfoldable pub transport_lines : List Assignment → List Text
  unfolding transport_line
  transport_lines [] = []
  transport_lines (a ∷ assignments) = kept (transport_line a) (transport_lines assignments)

  unfoldable pub transport_maps : Text → List Assignment → Text
  unfolding generated_header_with transport_lines
  transport_maps timestamp assignments =
      generated_header_with timestamp ++ written (transport_lines assignments)

  -- The credentials of one relay; the last of two with one key stays.
  unfoldable pub add_creds : Relay → Map Text Text → Map Text Text
  add_creds relay m = if text_eq relay.auth_type (codes "none") then m else elim relay.username [
    | none ↦ m
    | some user ↦ elim relay.password [
      | none ↦ m
      | some pass ↦ elim (sanitize_map_token lower relay.host false) [
        | none ↦ m
        | some host ↦ elim (sanitize_map_token lower user true) [
          | none ↦ m
          | some clean ↦ with_creds relay host clean pass m
        ]
      ]
    ]
  ]

  unfoldable pub relay_creds : List Assignment → Map Text Text → Map Text Text
  unfolding add_creds
  relay_creds [] m = m
  relay_creds ((relay, assigned) ∷ assignments) m = relay_creds assignments (add_creds relay m)

  unfoldable pub sasl_passwd : Text → List Assignment → Text
  unfolding generated_header_with relay_creds
  sasl_passwd timestamp assignments =
      generated_header_with timestamp ++ written (map creds_line (relay_creds assignments []))
