-- ===== src/Tests/Provision.antt =====
-- Quoting, paths, arguments and captured output on concrete inputs.
use mailserver.Prelude.{
  contains, is_ascii_alphanumeric, is_empty, ◌≡◌, refl, true, none, some, [], ◌∷◌, Text, codes,
  split_char, All,
}
use mailserver.Provision.Shell.{command_of}
use mailserver.Provision.Shell.Laws.{words, between, words-command_of}
use mailserver.Provision.Paths.{IsNoParent, validate_remote_path, validate_remote_path-IsSafe}
use mailserver.Provision.Params.{Params}

abbrev nasty : Text
nasty = codes "/tmp/a'; rm -rf / #$(id)"

words-command_of_example :
    words between (command_of (codes "test") (codes "-e" ∷ nasty ∷ []))
    ≡ some (codes "test" ∷ codes "-e" ∷ nasty ∷ [])
words-command_of_example = words-command_of (codes "test") (codes "-e" ∷ nasty ∷ [])

validate_remote_path-IsSafe_example :
    (words between (codes "/etc/mailserver/env") ≡ some (codes "/etc/mailserver/env" ∷ []))
    × All IsNoParent (split_char b'/' (codes "/etc/mailserver/env"))
unfolding validate_remote_path is_empty is_ascii_alphanumeric contains
validate_remote_path-IsSafe_example = validate_remote_path-IsSafe (codes "/etc/mailserver/env") refl

abbrev params : Params
params = record {
  host = codes "mail.example.org";
  port = 2222;
  user = codes "root";
  key_path = some (codes "/root/.ssh/id_ed25519");
  password = none;
  env_file = some (codes "prod.env");
  known_hosts = codes "/etc/mailserver/known_hosts";
  accept_new_host_key = true;
}
