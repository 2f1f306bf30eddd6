-- ===== src/Provision/Params/Laws.antt =====
-- The command line of provision.rs, written and read back.
use mailserver.Prelude.{
  Bool, true, false, Option, none, some, List, [], ◌∷◌, ◌++◌, ◌≡◌, refl, Text, codes,
  parse_unsigned, ◌∙◌,
}
use mailserver.Provision.Params.{Params, Parsed, ok, no_args, parse_loop, params_of, parse_args}

-- A flag with its value, if there is one.
abbrev option_args : Text → Option Text → List Text
option_args flag none = []
option_args flag (some v) = flag ∷ v ∷ []

abbrev accept_args : Bool → List Text
accept_args false = []
accept_args true = codes "--accept-new-host-key" ∷ []

-- A command line for these parameters, with the text of the port.
abbrev pub args_of : Params → Text → List Text
args_of p port_text =
    codes "--host"
    ∷ p.host
    ∷ codes "--port"
    ∷ port_text
    ∷ codes "--user"
    ∷ p.user
    ∷ (option_args (codes "--key") p.key_path
        ++ (option_args (codes "--password") p.password
            ++ (option_args (codes "--env-file") p.env_file ++ accept_args p.accept_new_host_key)))

abbrev with_host : Params → Parsed
with_host p = record no_args { host = some p.host; port = p.port; user = some p.user }

reads_required :
    (p : Params) (port_text : Text) (rest : List Text)
    → parse_unsigned 65535 port_text ≡ some p.port
    → parse_loop
        (codes "--host" ∷ p.host ∷ codes "--port" ∷ port_text ∷ codes "--user" ∷ p.user ∷ rest)
        no_args
      ≡ parse_loop rest (with_host p)
unfolding parse_loop
reads_required p port_text rest e = rw (parse_loop, e) refl

reads_key :
    (o : Option Text) (rest : List Text) (q : Parsed)
    → q.key_path ≡ none
    → parse_loop (option_args (codes "--key") o ++ rest) q
      ≡ parse_loop rest (record q { key_path = o })
unfolding parse_loop
reads_key none rest q e = rw (← e) refl
reads_key (some v) rest q e = refl

reads_password :
    (o : Option Text) (rest : List Text) (q : Parsed)
    → q.password ≡ none
    → parse_loop (option_args (codes "--password") o ++ rest) q
      ≡ parse_loop rest (record q { password = o })
unfolding parse_loop
reads_password none rest q e = rw (← e) refl
reads_password (some v) rest q e = refl

reads_env :
    (o : Option Text) (rest : List Text) (q : Parsed)
    → q.env_file ≡ none
    → parse_loop (option_args (codes "--env-file") o ++ rest) q
      ≡ parse_loop rest (record q { env_file = o })
unfolding parse_loop
reads_env none rest q e = rw (← e) refl
reads_env (some v) rest q e = refl

reads_accept :
    (b : Bool) (q : Parsed)
    → q.accept_new_host_key ≡ false
    → parse_loop (accept_args b) q ≡ ok (record q { accept_new_host_key = b })
unfolding parse_loop
reads_accept false q e = rw (← e) refl
reads_accept true q e = refl

-- Every choice of parameters can be given on the command line and is read back as it was meant, with
-- any text of the port that the number type takes.
pub parse_args-args_of :
    (p : Params) (port_text : Text)
    → parse_unsigned 65535 port_text ≡ some p.port
    → p.known_hosts ≡ codes "/etc/mailserver/known_hosts"
    → parse_args (args_of p port_text) ≡ ok p
unfolding parse_args params_of
parse_args-args_of p port_text e k =
    let q = with_host p in
    let key_rest =
      option_args (codes "--password") p.password
      ++ (option_args (codes "--env-file") p.env_file ++ accept_args p.accept_new_host_key) in
    let whole =
      reads_required p port_text (option_args (codes "--key") p.key_path ++ key_rest) e
      ∙ reads_key p.key_path key_rest q refl
      ∙ reads_password p.password
          (option_args (codes "--env-file") p.env_file ++ accept_args p.accept_new_host_key)
          (record q { key_path = p.key_path }) refl
      ∙ reads_env p.env_file (accept_args p.accept_new_host_key)
          (record q { key_path = p.key_path; password = p.password }) refl
      ∙ reads_accept p.accept_new_host_key
          (record q { key_path = p.key_path; password = p.password; env_file = p.env_file }) refl in
    rw (parse_args, whole, ← k) refl
