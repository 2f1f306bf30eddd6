-- ===== src/Registration/Form.antt =====
-- POST /register: `validate_username` and `handle_form` of web/routes/registration.rs. An answer
-- names the page and its status; the thread that is started on success is the pair it gets.
use mailserver.Prelude.{
  ℕ, Bool, true, false, ◌&&◌, ◌||◌, Option, none, some, [], ◌∷◌, ◌++◌, ltb, ◌==◌, if◌then◌else◌,
  Text, codes, text_eq, byte_len, is_empty, is_ascii_alphanumeric, is_ascii_digit, trim,
  to_ascii_lowercase, all, leb,
}
use mailserver.Net.IpAddr.{IpAddr}
use mailserver.Registration.Tables.{
  Domain, Tables, World, get_domain_by_name, username_exists, use_invite_code, create_account,
}
use mailserver.Registration.Limiter.{RegAttempts, reg_rate_limited}

pub record RegisterForm : Type 0 where
  pub domain : Text
  pub username : Text
  pub name : Text
  pub password : Text
  pub confirm_password : Text
  pub invite_code : Text

abbrev pub is_username_char : ℕ → Bool
is_username_char c = is_ascii_alphanumeric c || c == b'.' || c == b'-' || c == b'_'

-- A pattern that does not compile is ignored.
unfoldable pub meets_pattern : World → Text → Text → Bool
meets_pattern world username pattern = elim (world.regex pattern) [
  | some is_match ↦ is_match username
  | none ↦ true
]

-- The four errors are one to the caller.
unfoldable pub validate_username : World → Text → Text → Bool
unfolding meets_pattern
validate_username world username pattern =
    if is_empty username
    then false
    else if ltb (byte_len username) 3 || ltb 64 (byte_len username)
    then false
    else if all is_username_char username
    then is_empty pattern || meets_pattern world username pattern
    else false

abbrev pub is_ascii_hexdigit : ℕ → Bool
is_ascii_hexdigit c = is_ascii_digit c || leb b'a' c && leb c b'f' || leb b'A' c && leb c b'F'

pub data Answer : Type 0 where
  too_many_requests : Answer  -- the error page with status 429
  unavailable : Answer  -- the error page with status 200
  form_refused : Answer  -- the form with status 422
  form_again : Answer  -- the form with status 200
  redirect : Text → Answer

pub record Outcome : Type 0 where
  pub tables : Tables
  pub answer : Answer
  pub registered : Option (Text × Text)

abbrev pub stopped : Answer → Tables → Outcome
stopped answer t = record { tables = t; answer = answer; registered = none }

-- `email.replace('@', "%40")`
unfoldable pub percent_at : Text → Text
percent_at [] = []
percent_at (c ∷ s) = if c == b'@' then codes "%40" ++ percent_at s else c ∷ percent_at s

abbrev pub success_page : Text → Text → Text
success_page username domain =
    codes "/register/success?email=" ++ percent_at (username ++ codes "@" ++ domain)

-- The checks before any statement that writes.
unfoldable pub form_is_valid : World → RegisterForm → Domain → Tables → Bool
unfolding validate_username
form_is_valid world form d t =
    let username = to_ascii_lowercase (trim form.username) in
    let code = trim form.invite_code in
    if validate_username world username d.registration_username_regex
    then if ltb 128 (byte_len (trim form.name))
      then false
      else if is_empty code
      then false
      else if byte_len code == 32 && all is_ascii_hexdigit code
      then if text_eq form.password form.confirm_password
        then if ltb (byte_len form.password) 8
          then false
          else if username_exists world d.id username t
          then false
          else true
        else false
      else false
    else false

-- `create_account` and its answer.
unfoldable pub create : World → RegisterForm → Domain → Text → Tables → Outcome
create world form d hash t =
    let username = to_ascii_lowercase (trim form.username) in
    let (id, t') = create_account world d.id username hash (trim form.name) 1048576 t in
    elim id [
      | some new ↦ record {
        tables = t';
        answer = redirect (success_page username d.domain);
        registered = some (username, d.domain);
      }
      | none ↦ stopped form_again t'
    ]

-- With the code taken: the password's hash, and the account.
unfoldable pub hash_and_create : World → RegisterForm → Domain → Tables → Outcome
unfolding create
hash_and_create world form d t = elim (world.hash_password form.password) [
  | none ↦ stopped form_refused t
  | some hash ↦ create world form d hash t
]

-- The code, the hash and the account, in this order.
unfoldable pub claim_and_create : World → RegisterForm → Domain → Tables → Outcome
unfolding hash_and_create
claim_and_create world form d t =
    let user = to_ascii_lowercase (trim form.username) ++ codes "@" ++ d.domain in
    let (claimed, t') = use_invite_code world (trim form.invite_code) user t in
    if claimed then hash_and_create world form d t' else stopped form_refused t'

unfoldable pub register : World → RegisterForm → Domain → Tables → Outcome
unfolding form_is_valid claim_and_create
register world form d t =
    if form_is_valid world form d t then claim_and_create world form d t else stopped form_refused t

abbrev pub is_open : Domain → Bool
is_open d = d.active && d.registration_enabled

unfoldable pub find_domain : World → RegisterForm → Tables → Option Domain
find_domain world form t = get_domain_by_name world (to_ascii_lowercase (trim form.domain)) t

unfoldable pub answer_form : World → RegisterForm → Tables → Outcome
unfolding register find_domain
answer_form world form t = elim (find_domain world form t) [
  | none ↦ stopped unavailable t
  | some d ↦ if is_open d then register world form d t else stopped unavailable t
]

unfoldable pub handle_form :
    World → IpAddr → ℕ → RegisterForm → RegAttempts × Tables → RegAttempts × Outcome
unfolding answer_form
handle_form world ip now form (m, t) =
    let (limited, m') = reg_rate_limited ip now m in
    (m', if limited then stopped too_many_requests t else answer_form world form t)
