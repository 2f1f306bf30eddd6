-- ===== src/Tests/FailToBan.antt =====
-- Runs of the ban bookkeeping of fail2ban.rs at concrete tables.
use mailserver.Prelude.{◌≡◌, refl, true, [], ◌∷◌, arith, Text, codes}
use mailserver.FailToBan.{AuthFailure, Fail2banSetting, Tables, is_ip_banned, handle_auth_failure}
use mailserver.FailToBan.Laws.{handle_auth_failure-bans}
use mailserver.FailToBan.{is_ip_whitelisted}

abbrev setting : Fail2banSetting
setting = record {
  service = codes "smtp";
  max_attempts = 2;
  ban_duration_minutes = 10;
  find_time_minutes = 5;
  enabled = true;
}

abbrev start : Tables
start = record { whitelist = codes "9.9.9.9" ∷ []; settings = setting ∷ []; banned = []; log = [] }

abbrev failure : AuthFailure
failure = record { ip = codes "1.2.3.4"; service = codes "smtp"; detail = codes "line" }

abbrev reason : Text
reason = codes "Auto-banned"

second_bans :
    is_ip_banned
      (codes "1.2.3.4")
      699
      (handle_auth_failure failure reason 100 (handle_auth_failure failure reason 50 start))
    ≡ true
unfolding handle_auth_failure
second_bans = refl

abbrev one_failure : Tables
one_failure = handle_auth_failure failure reason 50 start

handle_auth_failure-bans_example :
    is_ip_banned (codes "1.2.3.4") 699 (handle_auth_failure failure reason 100 one_failure) ≡ true
unfolding is_ip_whitelisted handle_auth_failure
handle_auth_failure-bans_example =
    handle_auth_failure-bans failure reason 100 699 one_failure setting refl refl refl refl
      (omega arith) (omega arith)
