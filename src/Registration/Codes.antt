-- ===== src/Registration/Codes.antt =====
-- What the handler of POST /register does with invite codes.
use mailserver.Prelude.{
  ℕ, suc, ◌+◌, ◌≤◌, ◌<◌, ◌≡◌, refl, inl, inr, true, false, ◌&&◌, none, some, List, [], ◌∷◌,
  if◌then◌else◌, Text, length, arith, Option-cases, text_eq, text_eq_iff, text_eq_refl, any, ◌==◌,
}
use mailserver.Registration.Tables.{
  Domain, Account, InviteCode, Tables, World, is_free, is_claimable, claim, use_invite_code,
  create_account, violates_unique, username_exists,
}
use mailserver.Registration.Form.{RegisterForm, Outcome, hash_and_create, create}

abbrev pub free_codes : List InviteCode → ℕ
free_codes [] = 0
free_codes (c ∷ cs) = if is_free c then suc (free_codes cs) else free_codes cs

-- The statement takes as many free codes as it reports.
pub free_codes-claim :
    (world : World) (code user : Text) (rows : List InviteCode)
    → free_codes (claim world code user rows).1 + (claim world code user rows).0 ≡ free_codes rows
unfolding claim
free_codes-claim world code user [] = omega arith
free_codes-claim world code user (c ∷ cs) = ground (arith, free_codes-claim world code user cs)

pub claim-zero :
    (world : World) (code user : Text) (rows : List InviteCode)
    → (claim world code user rows).0 ≡ 0
    → (claim world code user rows).1 ≡ rows
unfolding claim
claim-zero world code user [] h = refl
claim-zero world code user (c ∷ cs) h = ground (arith, claim-zero world code user cs)

pub claim-pos :
    (world : World) (code user : Text) (rows : List InviteCode)
    → any (is_claimable code) rows ≡ true
    → 0 < (claim world code user rows).0
unfolding claim
claim-pos world code user [] h = ground arith
claim-pos world code user (c ∷ cs) h = ground (arith, claim-pos world code user cs)

text_eq-lower :
    (world : World) (u v : Text)
    → text_eq u v ≡ true
    → text_eq (world.lower u) (world.lower v) ≡ true
text_eq-lower world u v h = rw ((text_eq_iff u v).0 h) (text_eq_refl (world.lower v))

every_unique :
    (world : World) (domain_id : ℕ) (username : Text) (accounts : List Account)
    → any
        (λ (a : Account).
          a.domain_id == domain_id && text_eq (world.lower a.username) (world.lower username))
        accounts
      ≡ false
    → violates_unique domain_id username accounts ≡ false
unfolding violates_unique
every_unique world domain_id username [] h = refl
every_unique world domain_id username (a ∷ accounts) h =
    ground (
      arith,
      every_unique world domain_id username accounts,
      text_eq-lower world a.username username,
    )

-- A name that the handler's own test finds free meets no other row in the index.
pub violates_unique-username_exists :
    (world : World) (domain_id : ℕ) (username : Text) (t : Tables)
    → username_exists world domain_id username t ≡ false
    → violates_unique domain_id username t.accounts ≡ false
unfolding violates_unique username_exists
violates_unique-username_exists world domain_id username t h =
    every_unique world domain_id username t.accounts h

-- What a request takes and gives: accounts and free codes together never grow, and each account
-- takes a code.
abbrev pub registered_count : Outcome → ℕ
registered_count o = elim o.registered [ none ↦ 0 | some pair ↦ 1 ]

pub record Balanced (t : Tables) (o : Outcome) : Type 0 where
  pub accounts_counted : length o.tables.accounts ≡ length t.accounts + registered_count o
  pub codes_taken :
      free_codes o.tables.invite_codes + registered_count o ≤ free_codes t.invite_codes

pub stopped-Balanced :
    (t : Tables) (o : Outcome) → o.registered ≡ none → o.tables ≡ t → Balanced t o
stopped-Balanced t o r e = ground arith

pub create_account-accounts :
    (world : World) (domain_id : ℕ) (username hash name : Text) (quota : ℕ) (t : Tables) (id : ℕ)
    → (create_account world domain_id username hash name quota t).0 ≡ some id
    → length (create_account world domain_id username hash name quota t).1.accounts
      ≡ length t.accounts + 1
unfolding create_account
create_account-accounts world domain_id username hash name quota t id h = ground arith

pub create_account-none :
    (world : World) (domain_id : ℕ) (username hash name : Text) (quota : ℕ) (t : Tables)
    → (create_account world domain_id username hash name quota t).0 ≡ none
    → (create_account world domain_id username hash name quota t).1 ≡ t
unfolding create_account
create_account-none world domain_id username hash name quota t h = ground arith

pub create_account-codes :
    (world : World) (domain_id : ℕ) (username hash name : Text) (quota : ℕ) (t : Tables)
    → (create_account world domain_id username hash name quota t).1.invite_codes ≡ t.invite_codes
unfolding create_account
create_account-codes world domain_id username hash name quota t = ground arith

pub record Created (t : Tables) (o : Outcome) : Type 0 where
  pub counted : length o.tables.accounts ≡ length t.accounts + registered_count o
  pub at_most_one : registered_count o ≤ 1
  pub codes_kept : o.tables.invite_codes ≡ t.invite_codes

create-Created :
    (world : World) (form : RegisterForm) (d : Domain) (hash : Text) (t : Tables)
    → Created t (create world form d hash t)
unfolding create create_account
create-Created world form d hash t = ground arith

pub hash_and_create-Created :
    (world : World) (form : RegisterForm) (d : Domain) (t : Tables)
    → Created t (hash_and_create world form d t)
unfolding hash_and_create
hash_and_create-Created world form d t = elim (Option-cases (world.hash_password form.password)) [
  | inl e ↦ rw (hash_and_create, e) (ground arith)
  | inr (hash, e) ↦ rw (hash_and_create, e) (create-Created world form d hash t)
]

pub use_invite_code-accounts :
    (world : World) (code user : Text) (t : Tables)
    → (use_invite_code world code user t).1.accounts ≡ t.accounts
unfolding use_invite_code
use_invite_code-accounts world code user t = ground arith

-- A claim that is reported took a code; one that is not left the tables as they were.
pub use_invite_code-claimed :
    (world : World) (code user : Text) (t : Tables)
    → (use_invite_code world code user t).0 ≡ true
    → free_codes (use_invite_code world code user t).1.invite_codes + 1 ≤ free_codes t.invite_codes
unfolding use_invite_code
use_invite_code-claimed world code user t h =
    ground (arith, free_codes-claim world code user t.invite_codes)

pub use_invite_code-refused :
    (world : World) (code user : Text) (t : Tables)
    → (use_invite_code world code user t).0 ≡ false
    → (use_invite_code world code user t).1 ≡ t
unfolding use_invite_code
use_invite_code-refused world code user t h =
    ground (arith, claim-zero world code user t.invite_codes)
