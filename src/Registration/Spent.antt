-- ===== src/Registration/Spent.antt =====
-- A used invite code stays used: requests and the administrator's operations as steps.
use mailserver.Prelude.{
  ℕ, ◌<◌, ◌≡◌, ◌⊎◌, inl, inr, Bool, ◌||◌, some, List, [], ◌∷◌, ◌++◌, Text, codes, trim,
  to_ascii_lowercase, arith, Bool-cases, Option-cases, All, text_eq, any,
}
use mailserver.Registration.Tables.{
  Domain, InviteCode, Tables, World, is_claimable, claim, use_invite_code, create_account,
  create_invite_codes, delete_invite_code, cleanup_used_invite_codes, drop_rows,
}
use mailserver.Registration.Limiter.{RegAttempts, reg_rate_limited}
use mailserver.Registration.Form.{
  RegisterForm, handle_form, answer_form, register, claim_and_create, hash_and_create, create,
  is_open, find_domain, form_is_valid,
}
use mailserver.Registration.Runs.{Visit}

-- A row of invite_codes that has been used by somebody.
abbrev pub IsSpent : ℕ → Text → Tables → Type 0
IsSpent id user t =
    All (λ (c : InviteCode). c.id ≡ id → c.used_by ≡ some user) t.invite_codes × (id < t.next_code)

-- Everything that changes the tables.
pub data Step (t : Tables) (u : Tables) : Type 0 where
  visit :
      (v : Visit) (m : RegAttempts)
      → u ≡ (handle_form v.world v.ip v.now v.form (m, t)).1.tables
      → Step t u
  generate :
      (world : World) (generated : List Text) (created_by : Text)
      → u ≡ (create_invite_codes world generated created_by t).1
      → Step t u
  delete : (id : ℕ) → u ≡ delete_invite_code id t → Step t u
  cleanup : u ≡ cleanup_used_invite_codes t → Step t u

pub data Reach (t : Tables) : Tables → Type 0 where
  here : Reach t t
  next : {u v : Tables} → Reach t u → Step u v → Reach t v

abbrev Keeps : ℕ → Text → InviteCode → Type 0
Keeps id user c = c.id ≡ id → c.used_by ≡ some user

claim-Keeps :
    (world : World) (code used_by : Text) (id : ℕ) (user : Text) (rows : List InviteCode)
    → All (Keeps id user) rows
    → All (Keeps id user) (claim world code used_by rows).1
unfolding claim
claim-Keeps world code used_by id user [] h = tt
claim-Keeps world code used_by id user (c ∷ cs) (p, h) = elim (Bool-cases (is_claimable code c)) [
  | inl taken ↦
      rw taken (λ e. absurd (ground (arith, p e)), claim-Keeps world code used_by id user cs h)
  | inr other ↦ rw other (p, claim-Keeps world code used_by id user cs h)
]

drop_rows-Keeps :
    (p : InviteCode → Bool) (id : ℕ) (user : Text) (rows : List InviteCode)
    → All (Keeps id user) rows
    → All (Keeps id user) (drop_rows p rows)
unfolding drop_rows
drop_rows-Keeps p id user [] h = tt
drop_rows-Keeps p id user (c ∷ cs) (k, h) = elim (Bool-cases (p c)) [
  | inl dropped ↦ rw dropped (drop_rows-Keeps p id user cs h)
  | inr stays ↦ rw stays (k, drop_rows-Keeps p id user cs h)
]

-- It depends on the rows and on the next number alone.
IsSpent-rows :
    (id : ℕ) (user : Text) (t u : Tables) (rows : List InviteCode)
    → u.invite_codes ≡ rows
    → u.next_code ≡ t.next_code
    → All (Keeps id user) rows
    → id < t.next_code
    → IsSpent id user u
IsSpent-rows id user t u rows same next_same h b = (rw same h, omega arith)

use_invite_code-rows :
    (world : World) (code used_by : Text) (t : Tables)
    → ((use_invite_code world code used_by t).1.invite_codes ≡ t.invite_codes)
      ⊎ ((use_invite_code world code used_by t).1.invite_codes
          ≡ (claim world code used_by t.invite_codes).1)
unfolding use_invite_code
use_invite_code-rows world code used_by t = ground arith

use_invite_code-next_code :
    (world : World) (code used_by : Text) (t : Tables)
    → (use_invite_code world code used_by t).1.next_code ≡ t.next_code
unfolding use_invite_code
use_invite_code-next_code world code used_by t = ground arith

use_invite_code-IsSpent :
    (world : World) (code used_by : Text) (id : ℕ) (user : Text) (t : Tables)
    → IsSpent id user t
    → IsSpent id user (use_invite_code world code used_by t).1
use_invite_code-IsSpent world code used_by id user t (h, b) =
    let u = (use_invite_code world code used_by t).1 in
    let next_same = use_invite_code-next_code world code used_by t in
    elim (use_invite_code-rows world code used_by t) [
      | inl same ↦ IsSpent-rows id user t u t.invite_codes same next_same h b
      | inr claimed ↦
          IsSpent-rows id user t u (claim world code used_by t.invite_codes).1 claimed next_same
            (claim-Keeps world code used_by id user t.invite_codes h) b
    ]

create-rows :
    (world : World) (form : RegisterForm) (d : Domain) (hash : Text) (t : Tables)
    → ((create world form d hash t).tables.invite_codes ≡ t.invite_codes)
      × ((create world form d hash t).tables.next_code ≡ t.next_code)
unfolding create create_account
create-rows world form d hash t = ground arith

create-IsSpent :
    (world : World) (form : RegisterForm) (d : Domain) (hash : Text) (id : ℕ) (user : Text)
    (t : Tables)
    → IsSpent id user t
    → IsSpent id user (create world form d hash t).tables
create-IsSpent world form d hash id user t (h, b) =
    let (same, next_same) = create-rows world form d hash t in
    IsSpent-rows id user t (create world form d hash t).tables t.invite_codes same next_same h b

claim_and_create-IsSpent :
    (world : World) (form : RegisterForm) (d : Domain) (id : ℕ) (user : Text) (t : Tables)
    → IsSpent id user t
    → IsSpent id user (claim_and_create world form d t).tables
unfolding claim_and_create hash_and_create
claim_and_create-IsSpent world form d id user t h =
    let code = trim form.invite_code in
    let name = to_ascii_lowercase (trim form.username) ++ codes "@" ++ d.domain in
    let kept = use_invite_code-IsSpent world code name id user t h in
    elim (Bool-cases (use_invite_code world code name t).0) [
      | inr refused ↦ rw (claim_and_create, refused) kept
      | inl taken ↦ elim (Option-cases (world.hash_password form.password)) [
        | inl e ↦ rw (claim_and_create, taken, hash_and_create, e) kept
        | inr (hash, e) ↦
            rw (claim_and_create, taken, hash_and_create, e)
              (create-IsSpent world form d hash id user (use_invite_code world code name t).1 kept)
      ]
    ]

answer_form-IsSpent :
    (world : World) (form : RegisterForm) (id : ℕ) (user : Text) (t : Tables)
    → IsSpent id user t
    → IsSpent id user (answer_form world form t).tables
unfolding answer_form register
answer_form-IsSpent world form id user t h = elim (Option-cases (find_domain world form t)) [
  | inl e ↦ rw (answer_form, e) h
  | inr (d, e) ↦ elim (Bool-cases (is_open d)) [
    | inr shut ↦ rw (answer_form, e, shut) h
    | inl open_domain ↦ elim (Bool-cases (form_is_valid world form d t)) [
      | inr invalid ↦ rw (answer_form, e, open_domain, register, invalid) h
      | inl valid ↦
          rw (answer_form, e, open_domain, register, valid)
            (claim_and_create-IsSpent world form d id user t h)
    ]
  ]
]

handle_form-IsSpent :
    (v : Visit) (m : RegAttempts) (id : ℕ) (user : Text) (t : Tables)
    → IsSpent id user t
    → IsSpent id user (handle_form v.world v.ip v.now v.form (m, t)).1.tables
unfolding handle_form
handle_form-IsSpent v m id user t h = elim (Bool-cases (reg_rate_limited v.ip v.now m).0) [
  | inl limited ↦ rw (handle_form, limited) h
  | inr passes ↦ rw (handle_form, passes) (answer_form-IsSpent v.world v.form id user t h)
]

create_invite_codes-IsSpent :
    (world : World) (generated : List Text) (created_by : Text) (id : ℕ) (user : Text) (t : Tables)
    → IsSpent id user t
    → IsSpent id user (create_invite_codes world generated created_by t).1
unfolding create_invite_codes
create_invite_codes-IsSpent world [] created_by id user t h = h
create_invite_codes-IsSpent world (code ∷ generated) created_by id user t (h, b) =
    elim (Bool-cases (world.insert_fails || any (λ c. text_eq c.code code) t.invite_codes)) [
      | inl skipped ↦
          rw (create_invite_codes, skipped)
            (create_invite_codes-IsSpent world generated created_by id user t (h, b))
      | inr runs ↦
          rw (create_invite_codes, runs)
            (create_invite_codes-IsSpent world generated created_by id user _
              ((λ e. absurd (omega arith), h), omega arith))
    ]

Step-IsSpent :
    (id : ℕ) (user : Text) {t u : Tables} → Step t u → IsSpent id user t → IsSpent id user u
unfolding delete_invite_code cleanup_used_invite_codes
Step-IsSpent id user {t} (visit v m e) h = rw e (handle_form-IsSpent v m id user t h)
Step-IsSpent id user {t} (generate world generated created_by e) h =
    rw e (create_invite_codes-IsSpent world generated created_by id user t h)
Step-IsSpent id user {t} (delete n e) (h, b) = rw e (drop_rows-Keeps _ id user t.invite_codes h, b)
Step-IsSpent id user {t} (cleanup e) (h, b) = rw e (drop_rows-Keeps _ id user t.invite_codes h, b)

-- A code that somebody has used never becomes free again and never passes to another user: while
-- its row is in the table, requests and every operation of the administrator leave it so.
pub Reach-IsSpent :
    (id : ℕ) (user : Text) {t u : Tables} → Reach t u → IsSpent id user t → IsSpent id user u
Reach-IsSpent id user here h = h
Reach-IsSpent id user (next r step) h = Step-IsSpent id user step (Reach-IsSpent id user r h)
