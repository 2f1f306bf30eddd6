-- ===== src/Tests/Registration.antt =====
-- The registration models on concrete inputs.
use mailserver.Prelude.{
  is_ascii_alphanumeric, byte_len, text_eq, ℕ, ◌≤◌, ◌+◌, ◌≡◌, refl, true, false, none, some, Option,
  List, [], ◌∷◌, Text, codes, arith, length, to_ascii_lowercase, trim, lookup, insert, text_eq,
  byte_len, is_empty, is_ascii_alphanumeric,
}
use mailserver.Net.IpAddr.{IpAddr, ipv4}
use mailserver.Auth.Lockout.{secs}
use mailserver.Registration.Tables.{
  Domain, InviteCode, Tables, World, use_invite_code, claim, create_account, get_domain_by_name,
  only, named, violates_unique, username_exists,
}
use mailserver.Registration.Limiter.{reg_rate_limited}
use mailserver.Registration.Form.{
  RegisterForm, handle_form, find_domain, form_is_valid, register, answer_form,
}
use mailserver.Registration.Codes.{free_codes}
use mailserver.Registration.Success.{
  Registered, Runs, handle_form-Registered, handle_form-unchanged,
}
use mailserver.Registration.Runs.{Visit, serve, serve-bounded}
use mailserver.Registration.Spent.{IsSpent, here, next, visit, Reach-IsSpent}
use mailserver.Registration.Bounds.{passes, at_most_five}
use mailserver.Registration.Tables.{get_domain_by_name}
use mailserver.Registration.Tables.{username_exists}

abbrev world : World
world = record {
  lower = to_ascii_lowercase;
  regex = λ p. none;
  hash_password = λ p. some (codes "$2b$12$hash");
  now = codes "2024-05-01 10:00:00";
  claim_fails = false;
  insert_fails = false;
}

abbrev example_org : Domain
example_org = record {
  id = 7;
  domain = codes "example.org";
  active = true;
  registration_enabled = true;
  registration_username_regex = [];
}

abbrev code : Text
code = codes "0123456789abcdef0123456789abcdef"

abbrev invite : ℕ → Text → Option Text → InviteCode
invite id c used_by = record {
  id = id;
  code = c;
  used_by = used_by;
  used_at = none;
  created_by = codes "admin";
  created_at = codes "2024-04-30 09:00:00";
}

abbrev bob : Text
bob = codes "bob@example.org"

abbrev tables : Tables
tables = record {
  domains = example_org ∷ [];
  accounts = [];
  invite_codes = invite 1 code none ∷ invite 2 (codes "used") (some bob) ∷ [];
  next_account = 40;
  next_code = 3;
}

abbrev form : RegisterForm
form = record {
  domain = codes " Example.ORG ";
  username = codes "Alice";
  name = codes "Alice A.";
  password = codes "correct horse";
  confirm_password = codes "correct horse";
  invite_code = code;
}

abbrev bad_form : RegisterForm
bad_form = record form { confirm_password = codes "correct house" }

abbrev host : IpAddr
host = ipv4 198 51 100 7

abbrev runs : Runs world form
runs = record { hash = codes "$2b$12$hash"; hashed = refl; inserted = refl }

abbrev bad_runs : Runs world bad_form
bad_runs = record { hash = codes "$2b$12$hash"; hashed = refl; inserted = refl }

handle_form-Registered_example :
    Registered form example_org
      (codes "$2b$12$hash")
      tables
      (handle_form world host (secs 1000) form ([], tables)).1
unfolding reg_rate_limited lookup find_domain get_domain_by_name text_eq to_ascii_lowercase trim
    form_is_valid byte_len is_ascii_alphanumeric username_exists
handle_form-Registered_example =
    handle_form-Registered world host (secs 1000) form [] tables example_org runs refl refl refl
      refl refl refl

handle_form-unchanged_example :
    (handle_form world host (secs 1000) bad_form ([], tables)).1.tables ≡ tables
unfolding handle_form reg_rate_limited lookup get_domain_by_name text_eq to_ascii_lowercase trim
    byte_len is_ascii_alphanumeric
handle_form-unchanged_example =
    handle_form-unchanged world host (secs 1000) bad_form [] tables bad_runs refl

abbrev visit_of : RegisterForm → Visit
visit_of f = record { world = world; ip = host; now = secs 1000; form = f }

-- The second visit with the same code makes no account.
serve-bounded_example :
    (length (serve (visit_of form ∷ visit_of form ∷ []) ([], tables)).1.accounts
      ≡ 0 + (serve (visit_of form ∷ visit_of form ∷ []) ([], tables)).0)
    × ((serve (visit_of form ∷ visit_of form ∷ []) ([], tables)).0
          + free_codes (serve (visit_of form ∷ visit_of form ∷ []) ([], tables)).1.invite_codes
        ≤ 1)
serve-bounded_example = serve-bounded (visit_of form ∷ visit_of form ∷ []) [] tables

one_account : (serve (visit_of form ∷ visit_of form ∷ []) ([], tables)).0 ≡ 1
unfolding serve handle_form reg_rate_limited lookup insert get_domain_by_name use_invite_code claim
    create_account trim to_ascii_lowercase text_eq register answer_form find_domain only named
    form_is_valid violates_unique username_exists byte_len is_empty is_ascii_alphanumeric
one_account = refl

Reach-IsSpent_example :
    IsSpent 2 bob (handle_form world host (secs 1000) form ([], tables)).1.tables
Reach-IsSpent_example =
    Reach-IsSpent 2 bob (next here (visit (visit_of form) [] refl))
      (((λ e. absurd (omega arith)), ((λ e. refl), tt)), omega arith)

abbrev six : List (IpAddr × ℕ)
six =
    (host, secs 1)
    ∷ (host, secs 2)
    ∷ (host, secs 3)
    ∷ (host, secs 4)
    ∷ (host, secs 5)
    ∷ (host, secs 800)
    ∷ []

at_most_five_example : passes host six [] ≤ 5
unfolding lookup
at_most_five_example = at_most_five host (secs 1) six [] (omega arith) (omega arith) refl

five_pass : passes host six [] ≡ 5
unfolding passes reg_rate_limited lookup insert
five_pass = refl
