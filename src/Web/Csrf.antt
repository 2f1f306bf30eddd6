-- ===== src/Web/Csrf.antt =====
-- `csrf_middleware` of web/mod.rs. The parser of form bodies is third-party code and an argument.
-- What the pages answer is not part of it: a request that goes on is passed to them.
use mailserver.Prelude.{
  ℕ, Bool, true, false, not, ◌&&◌, ◌||◌, Option, none, some, List, [], ◌∷◌, if◌then◌else◌, any,
  Text, codes, text_eq, to_ascii_lowercase, trim, trim_start, strip_prefix, starts_with, split_char,
  is_whitespace, as_bytes,
}
use mailserver.Auth.Secrets.{constant_time_eq}
pub mod Parts
pub mod Credentials
pub mod Submitted
pub mod Laws

pub data Method : Type 0 where
  get post put delete other : Method

-- A header is `none` where it is missing or not readable as text; the body is `none` where reading
-- it fails or it is longer than 64 KiB.
pub record Request : Type 0 where
  pub method : Method
  pub path : Text
  pub cookie : Option Text
  pub x_csrf_token : Option Text
  pub content_type : Option Text
  pub authorization : Option Text
  pub body : Option (List ℕ)

-- `passed` says whether the response is given a new cookie.
pub data Verdict : Type 0 where
  passed : Bool → Verdict
  bad_request mismatch missing : Verdict

unfoldable pub find_token : List Text → Option Text
unfolding strip_prefix trim
find_token [] = none
find_token (c ∷ cs) = elim (strip_prefix (codes "csrf_token=") (trim c)) [
  | some v ↦ some v
  | none ↦ find_token cs
]

unfoldable pub csrf_token_from_cookie : Option Text → Option Text
unfolding find_token split_char
csrf_token_from_cookie none = none
csrf_token_from_cookie (some cookies) = find_token (split_char b';' cookies)

abbrev pub is_mutation : Method → Bool
is_mutation post = true
is_mutation put = true
is_mutation delete = true
is_mutation _ = false

abbrev pub is_post : Method → Bool
is_post post = true
is_post _ = false

abbrev pub or_empty : Option Text → Text
or_empty none = []
or_empty (some s) = s

unfoldable pub is_form : Text → Bool
unfolding starts_with
is_form ct =
    starts_with (codes "application/x-www-form-urlencoded") ct
    || starts_with (codes "multipart/form-data") ct

unfoldable pub find_field : List (Text × Text) → Option Text
unfolding text_eq
find_field [] = none
find_field ((k, v) ∷ rest) =
    let later = find_field rest in if text_eq k (codes "_csrf_token") then some v else later

abbrev pub or_else : Option Text → Option Text → Option Text
or_else (some a) b = some a
or_else none b = b

-- The token of the form if the request is one, and that of the header otherwise.
unfoldable pub submitted : (List ℕ → List (Text × Text)) → Request → List ℕ → Option Text
unfolding is_form find_field
submitted parse_form r bytes =
    or_else
      (if is_post r.method && is_form (or_empty r.content_type)
        then find_field (parse_form bytes)
        else none)
      r.x_csrf_token

unfoldable pub first_word : Text → Text
unfolding is_whitespace
first_word [] = []
first_word (c ∷ s) = let rest = first_word s in if is_whitespace c then [] else c ∷ rest

unfoldable pub is_auth_scheme : Text → Bool
unfolding first_word trim_start text_eq to_ascii_lowercase
is_auth_scheme v =
    let scheme = to_ascii_lowercase (first_word (trim_start v)) in
    text_eq scheme (codes "basic") || text_eq scheme (codes "bearer")

unfoldable pub has_basic_or_bearer_auth : Option Text → Bool
unfolding is_auth_scheme
has_basic_or_bearer_auth none = false
has_basic_or_bearer_auth (some v) = is_auth_scheme v

abbrev pub public_prefixes : List Text
public_prefixes =
    codes "/register"
    ∷ codes "/unsubscribe"
    ∷ codes "/pixel"
    ∷ codes "/bimi/"
    ∷ codes "/mail/config-v1.1.xml"
    ∷ codes "/.well-known/"
    ∷ []

unfoldable pub is_public : Text → Bool
unfolding starts_with
is_public path = any (λ p. starts_with p path) public_prefixes

check_submitted : Text → Option Text → Verdict
unfolding constant_time_eq as_bytes
check_submitted cookie_val none = mismatch
check_submitted cookie_val (some t) =
    if constant_time_eq (as_bytes t) (as_bytes cookie_val) then passed false else mismatch

check_body : (List ℕ → List (Text × Text)) → Request → Text → Option (List ℕ) → Verdict
unfolding check_submitted submitted
check_body parse_form r cookie_val none = bad_request
check_body parse_form r cookie_val (some bytes) =
    check_submitted cookie_val (submitted parse_form r bytes)

check_mutation : (List ℕ → List (Text × Text)) → Request → Option Text → Verdict
unfolding check_body has_basic_or_bearer_auth is_public
check_mutation parse_form r (some cookie_val) = check_body parse_form r cookie_val r.body
check_mutation parse_form r none =
    if has_basic_or_bearer_auth r.authorization || is_public r.path then passed true else missing

abbrev is_none : Option Text → Bool
is_none none = true
is_none (some v) = false

unfoldable pub csrf_middleware : (List ℕ → List (Text × Text)) → Request → Verdict
unfolding check_mutation csrf_token_from_cookie
csrf_middleware parse_form r =
    let cookie_token = csrf_token_from_cookie r.cookie in
    if is_mutation r.method
    then check_mutation parse_form r cookie_token
    else passed (is_none cookie_token)
