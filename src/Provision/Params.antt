-- ===== src/Provision/Params.antt =====
-- parse_args of provision.rs: the arguments of the command line. A path is its text.
pub mod Laws
use mailserver.Prelude.{
  ℕ, Bool, true, false, ◌||◌, Option, none, some, List, [], ◌∷◌, ◌≡◌, refl, if◌then◌else◌, Text,
  codes, text_eq, parse_unsigned,
}

pub data ArgError : Type 0 where
  requires_value unknown_argument : Text → ArgError
  invalid_port host_required user_required : ArgError

pub data Result {ℓ} (A : Type ℓ) : Type ℓ where
  ok : A → Result A
  err : ArgError → Result A

pub record Params : Type 0 where
  pub host : Text
  pub port : ℕ
  pub user : Text
  pub key_path : Option Text
  pub password : Option Text
  pub env_file : Option Text
  pub known_hosts : Text
  pub accept_new_host_key : Bool

-- The variables of the loop.
pub record Parsed : Type 0 where
  pub host : Option Text
  pub port : ℕ
  pub user : Option Text
  pub key_path : Option Text
  pub password : Option Text
  pub env_file : Option Text
  pub accept_new_host_key : Bool

abbrev pub no_args : Parsed
no_args = record {
  host = none;
  port = 22;
  user = none;
  key_path = none;
  password = none;
  env_file = none;
  accept_new_host_key = false;
}

-- The arguments that take no value, those that take one, and all others.
pub data Flag : Type 0 where
  accept host_flag port_flag user_flag key_flag password_flag env_flag unknown : Flag

unfoldable pub flag_of : Text → Flag
unfolding text_eq
flag_of arg =
    if text_eq arg (codes "--host")
    then host_flag
    else if text_eq arg (codes "--port")
    then port_flag
    else if text_eq arg (codes "--user") || text_eq arg (codes "--username")
    then user_flag
    else if text_eq arg (codes "--key")
    then key_flag
    else if text_eq arg (codes "--password")
    then password_flag
    else if text_eq arg (codes "--env-file")
    then env_flag
    else if text_eq arg (codes "--accept-new-host-key")
    then accept
    else unknown

abbrev accepting : Parsed → Parsed
accepting p = record p { accept_new_host_key = true }

-- A value for a flag that takes one.
unfoldable pub set_value : Flag → Text → Parsed → Result Parsed
set_value host_flag v p = ok (record p { host = some v })
set_value port_flag v p = elim (parse_unsigned 65535 v) [
  | none ↦ err invalid_port
  | some n ↦ ok (record p { port = n })
]
set_value user_flag v p = ok (record p { user = some v })
set_value key_flag v p = ok (record p { key_path = some v })
set_value password_flag v p = ok (record p { password = some v })
set_value env_flag v p = ok (record p { env_file = some v })
set_value accept v p = ok (accepting p)
set_value unknown v p = ok p

-- The last argument of all.
unfoldable pub parse_last : Flag → Text → Parsed → Result Parsed
parse_last accept arg p = ok (accepting p)
parse_last unknown arg p = err (unknown_argument arg)
parse_last host_flag arg p = err (requires_value arg)
parse_last port_flag arg p = err (requires_value arg)
parse_last user_flag arg p = err (requires_value arg)
parse_last key_flag arg p = err (requires_value arg)
parse_last password_flag arg p = err (requires_value arg)
parse_last env_flag arg p = err (requires_value arg)

unfoldable pub parse_loop : List Text → Parsed → Result Parsed
unfolding flag_of set_value parse_last
parse_loop [] p = ok p
parse_loop (arg ∷ []) p = parse_last (flag_of arg) arg p
parse_loop (arg ∷ v ∷ args) p =
    let after_flag = parse_loop (v ∷ args) (accepting p) in
    let after_value = λ (q : Parsed). parse_loop args q in
    elim (flag_of arg) [
      | accept ↦ after_flag
      | unknown ↦ err (unknown_argument arg)
      | flag ↦ elim (set_value flag v p) [ err e ↦ err e | ok q ↦ after_value q ]
    ]

unfoldable pub params_of : Parsed → Result Params
params_of p = elim p.host [
  | none ↦ err host_required
  | some h ↦ elim p.user [
    | none ↦ err user_required
    | some u ↦ ok (record {
      host = h;
      port = p.port;
      user = u;
      key_path = p.key_path;
      password = p.password;
      env_file = p.env_file;
      known_hosts = codes "/etc/mailserver/known_hosts";
      accept_new_host_key = p.accept_new_host_key;
    })
  ]
]

unfoldable pub parse_args : List Text → Result Params
unfolding parse_loop params_of
parse_args args = elim (parse_loop args no_args) [ err e ↦ err e | ok p ↦ params_of p ]
