-- ===== src/Config/Entries.antt =====
-- The entries of the maps: build_virtual_alias_entries, build_recipient_bcc_entries and
-- build_sender_login_entries of config.rs. A set is the list of its members.
use mailserver.Prelude.{
  Bool, true, false, not, ◌&&◌, ◌||◌, Option, none, some, List, [], ◌∷◌, ◌++◌, ltb, ◌==◌,
  if◌then◌else◌, Text, codes, text_eq, starts_with, strip_prefix, any,
}
use mailserver.Config.Addresses.{normalize_virtual_alias_source}

pub record Alias : Type 0 where
  pub source : Text
  pub destination : Text
  pub active : Bool
  pub domain_name : Option Text

pub record Forwarding : Type 0 where
  pub source : Text
  pub destination : Text
  pub active : Bool
  pub keep_copy : Bool
  pub domain_name : Option Text

pub record Account : Type 0 where
  pub username : Text
  pub password_hash : Text
  pub active : Bool
  pub domain_name : Option Text

abbrev pub Entry : Type 0
Entry = Text × Text

-- `HashSet::contains`
unfoldable pub contains : Text → List Text → Bool
unfolding text_eq
contains t set = any (λ s. text_eq s t) set

abbrev pub is_catch_all : Text → Bool
is_catch_all source = starts_with (codes "@") source

abbrev pub email_of : Text → Text → Text
email_of username domain = username ++ codes "@" ++ domain

-- The three collections that build_virtual_alias_entries fills.
pub record Collected : Type 0 where
  pub catch_all_entries : List Entry
  pub specific_entries : List Entry
  pub specific_sources : List Text

abbrev pub nothing : Collected
nothing = record { catch_all_entries = []; specific_entries = []; specific_sources = [] }

unfoldable pub add_entry : Text → Text → Collected → Collected
add_entry source destination c =
    if is_catch_all source
    then record c { catch_all_entries = c.catch_all_entries ++ (source, destination) ∷ [] }
    else record c {
      specific_entries = c.specific_entries ++ (source, destination) ∷ [];
      specific_sources = source ∷ c.specific_sources;
    }

unfoldable pub add_alias : Alias → Collected → Collected
unfolding add_entry
add_alias a c =
    if a.active
    then add_entry (normalize_virtual_alias_source a.source a.domain_name) a.destination c
    else c

unfoldable pub add_aliases : List Alias → Collected → Collected
add_aliases [] c = c
add_aliases (a ∷ aliases) c = add_aliases aliases (add_alias a c)

unfoldable pub add_forwarding : Forwarding → Collected → Collected
unfolding add_entry
add_forwarding f c =
    let source = normalize_virtual_alias_source f.source f.domain_name in
    if f.active
    then if f.keep_copy && not (is_catch_all source) then c else add_entry source f.destination c
    else c

unfoldable pub add_forwardings : List Forwarding → Collected → Collected
add_forwardings [] c = c
add_forwardings (f ∷ forwardings) c = add_forwardings forwardings (add_forwarding f c)

-- The domains behind the catch-all entries.
unfoldable pub domains_of : List Entry → List Text
domains_of [] = []
domains_of ((source, destination) ∷ entries) =
    let rest = domains_of entries in
    elim (strip_prefix (codes "@") source) [ none ↦ rest | some domain ↦ domain ∷ rest ]

abbrev pub identity_if : Bool → Text → List Entry → List Entry
identity_if true email rest = (email, email) ∷ rest
identity_if false email rest = rest

-- Whether an account needs an entry of its own, and its address.
abbrev pub needs_identity : List Text → List Text → Text → Text → Bool
needs_identity domains sources username domain =
    contains domain domains && not (contains (email_of username domain) sources)

unfoldable pub identity_entries : List Text → List Text → List Account → List Entry
unfolding contains
identity_entries domains sources [] = []
identity_entries domains sources (a ∷ accounts) =
    let rest = identity_entries domains sources accounts in
    elim a.domain_name [
      | none ↦ rest
      | some domain ↦
          identity_if (a.active && needs_identity domains sources a.username domain)
            (email_of a.username domain) rest
    ]

abbrev pub collect : List Alias → List Forwarding → Collected
collect aliases forwardings = add_forwardings forwardings (add_aliases aliases nothing)

unfoldable pub build_virtual_alias_entries :
    List Alias → List Forwarding → List Account → List Entry
build_virtual_alias_entries aliases forwardings accounts =
    let c = collect aliases forwardings in
    c.catch_all_entries
    ++ (c.specific_entries
        ++ identity_entries (domains_of c.catch_all_entries) c.specific_sources accounts)

-- `str::cmp` compares bytes, which orders texts as their code points do.
unfoldable pub text_lt : Text → Text → Bool
text_lt s [] = false
text_lt [] (d ∷ t) = true
text_lt (c ∷ s) (d ∷ t) = ltb c d || c == d && text_lt s t

-- `BTreeMap::entry(k).or_default().push(v)`
unfoldable pub push_sorted : Text → Text → List (Text × List Text) → List (Text × List Text)
unfolding text_lt text_eq
push_sorted k v [] = (k, v ∷ []) ∷ []
push_sorted k v ((j, vs) ∷ m) =
    let rest = push_sorted k v m in
    if text_eq j k
    then (j, vs ++ v ∷ []) ∷ m
    else if text_lt k j
    then (k, v ∷ []) ∷ (j, vs) ∷ m
    else (j, vs) ∷ rest

unfoldable pub bcc_map : List Forwarding → List (Text × List Text) → List (Text × List Text)
unfolding push_sorted
bcc_map [] m = m
bcc_map (f ∷ forwardings) m =
    let source = normalize_virtual_alias_source f.source f.domain_name in
    bcc_map forwardings (
      if f.active && f.keep_copy && not (is_catch_all source)
      then push_sorted source f.destination m
      else m)

-- `[String]::join`
unfoldable pub join_with : Text → List Text → Text
join_with sep [] = []
join_with sep (w ∷ []) = w
join_with sep (w ∷ v ∷ ws) = w ++ (sep ++ join_with sep (v ∷ ws))

unfoldable pub joined_entries : List (Text × List Text) → List Entry
joined_entries [] = []
joined_entries ((source, dests) ∷ m) = (source, join_with (codes ", ") dests) ∷ joined_entries m

unfoldable pub build_recipient_bcc_entries : List Forwarding → List Entry
unfolding bcc_map joined_entries
build_recipient_bcc_entries forwardings = joined_entries (bcc_map forwardings [])

unfoldable pub active_emails : List Account → List Text
active_emails [] = []
active_emails (a ∷ accounts) =
    let rest = active_emails accounts in
    elim a.domain_name [
      | none ↦ rest
      | some domain ↦ if a.active then email_of a.username domain ∷ rest else rest
    ]

unfoldable pub login_entries : List Text → List Alias → List Entry
unfolding contains
login_entries emails [] = []
login_entries emails (a ∷ aliases) =
    let rest = login_entries emails aliases in
    if a.active && contains a.destination emails
    then (normalize_virtual_alias_source a.source none, a.destination) ∷ rest
    else rest

unfoldable pub build_sender_login_entries : List Alias → List Account → List Entry
unfolding active_emails login_entries
build_sender_login_entries aliases accounts = login_entries (active_emails accounts) aliases
