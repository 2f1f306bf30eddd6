-- ===== src/Registration/Tables.antt =====
-- The tables domains, accounts and invite_codes of db.rs, as far as registration uses them.
use mailserver.Prelude.{
  ℕ, ◌+◌, Bool, true, false, not, ◌&&◌, ◌||◌, Option, none, some, List, [], ◌∷◌, ◌++◌, ltb, ◌==◌,
  if◌then◌else◌, Text, codes, text_eq, any,
}

pub record Domain : Type 0 where
  pub id : ℕ
  pub domain : Text
  pub active : Bool
  pub registration_enabled : Bool
  pub registration_username_regex : Text

pub record Account : Type 0 where
  pub id : ℕ
  pub domain_id : ℕ
  pub username : Text
  pub password_hash : Text
  pub name : Text
  pub quota : ℕ

pub record InviteCode : Type 0 where
  pub id : ℕ
  pub code : Text
  pub used_by : Option Text
  pub used_at : Option Text
  pub created_by : Text
  pub created_at : Text

-- The two numbers are the next values of the serial columns.
pub record Tables : Type 0 where
  pub domains : List Domain
  pub accounts : List Account
  pub invite_codes : List InviteCode
  pub next_account : ℕ
  pub next_code : ℕ

pub record World : Type 0 where
  pub lower : Text → Text
  pub regex : Text → Option (Text → Bool)
  pub hash_password : Text → Option Text
  pub now : Text
  pub claim_fails : Bool
  pub insert_fails : Bool

-- `query_opt` gives an error on more than one row, which `ok` drops.
unfoldable pub only {ℓ} : {A : Type ℓ} → List A → Option A
only [] = none
only (x ∷ []) = some x
only (x ∷ y ∷ xs) = none

unfoldable pub named : World → Text → List Domain → List Domain
named world name [] = []
named world name (d ∷ ds) =
    let rest = named world name ds in
    if text_eq (world.lower d.domain) (world.lower name) then d ∷ rest else rest

unfoldable pub get_domain_by_name : World → Text → Tables → Option Domain
unfolding only named
get_domain_by_name world name t = only (named world name t.domains)

-- A statement that fails, for which the source answers false, is not modelled.
unfoldable pub username_exists : World → ℕ → Text → Tables → Bool
username_exists world domain_id username t =
    any (λ a. a.domain_id == domain_id && text_eq (world.lower a.username) (world.lower username))
      t.accounts

-- UNIQUE(username, domain_id)
unfoldable pub violates_unique : ℕ → Text → List Account → Bool
violates_unique domain_id username accounts =
    any (λ a. a.domain_id == domain_id && text_eq a.username username) accounts

unfoldable pub create_account : World → ℕ → Text → Text → Text → ℕ → Tables → Option ℕ × Tables
unfolding violates_unique
create_account world domain_id username hash name quota t =
    let account : Account = record {
      id = t.next_account;
      domain_id = domain_id;
      username = username;
      password_hash = hash;
      name = name;
      quota = quota;
    } in
    if world.insert_fails || violates_unique domain_id username t.accounts then (none, t) else (
      some t.next_account,
      record t { accounts = account ∷ t.accounts; next_account = t.next_account + 1 },
    )

abbrev pub is_free : InviteCode → Bool
is_free c = elim c.used_by [ none ↦ true | some user ↦ false ]

abbrev pub is_claimable : Text → InviteCode → Bool
is_claimable code c = text_eq c.code code && is_free c

-- The UPDATE statement, and how many rows it changed.
unfoldable pub claim : World → Text → Text → List InviteCode → ℕ × List InviteCode
claim world code used_by [] = (0, [])
claim world code used_by (c ∷ cs) =
    let (n, rest) = claim world code used_by cs in
    if is_claimable code c
    then (n + 1, record c { used_by = some used_by; used_at = some world.now } ∷ rest)
    else (n, c ∷ rest)

unfoldable pub use_invite_code : World → Text → Text → Tables → Bool × Tables
use_invite_code world code used_by t =
    let (n, rows) = claim world code used_by t.invite_codes in
    if world.claim_fails then (false, t) else (ltb 0 n, record t { invite_codes = rows })

abbrev fresh_code : World → Text → Text → ℕ → InviteCode
fresh_code world code created_by id = record {
  id = id;
  code = code;
  used_by = none;
  used_at = none;
  created_by = created_by;
  created_at = world.now;
}

abbrev has_code : Text → List InviteCode → Bool
has_code code rows = any (λ c. text_eq c.code code) rows

-- One code from the random source after the other; a code that is taken already, or a statement
-- that fails, adds nothing to the answer.
unfoldable pub create_invite_codes : World → List Text → Text → Tables → List Text × Tables
create_invite_codes world [] created_by t = ([], t)
create_invite_codes world (code ∷ generated) created_by t =
    let t' : Tables = record t {
      invite_codes = fresh_code world code created_by t.next_code ∷ t.invite_codes;
      next_code = t.next_code + 1;
    } in
    let skipped = create_invite_codes world generated created_by t in
    let (made, last) = create_invite_codes world generated created_by t' in
    if world.insert_fails || has_code code t.invite_codes then skipped else (code ∷ made, last)

unfoldable pub drop_rows : (InviteCode → Bool) → List InviteCode → List InviteCode
drop_rows p [] = []
drop_rows p (c ∷ cs) = let rest = drop_rows p cs in if p c then rest else c ∷ rest

unfoldable pub delete_invite_code : ℕ → Tables → Tables
unfolding drop_rows
delete_invite_code id t = record t { invite_codes = drop_rows (λ c. c.id == id) t.invite_codes }

abbrev address_is : Text → Account → Domain → Bool
address_is user a d = a.domain_id == d.id && text_eq (a.username ++ codes "@" ++ d.domain) user

abbrev has_account : Tables → Text → Bool
has_account t user = any (λ a. any (address_is user a) t.domains) t.accounts

abbrev is_orphan : Tables → InviteCode → Bool
is_orphan t c = elim c.used_by [ none ↦ false | some user ↦ not (has_account t user) ]

unfoldable pub cleanup_used_invite_codes : Tables → Tables
unfolding drop_rows
cleanup_used_invite_codes t = record t { invite_codes = drop_rows (is_orphan t) t.invite_codes }
