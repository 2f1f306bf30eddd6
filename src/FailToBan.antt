-- ===== src/FailToBan.antt =====
-- `handle_auth_failure` of fail2ban.rs with the tables of db.rs that it works on: whitelist,
-- settings, log and bans. A time is a number of seconds, as the tables write it; the statements
-- succeed here.
use mailserver.Prelude.{
  ℕ, ◌+◌, ◌-◌, ◌*◌, Bool, true, false, not, ◌&&◌, ◌||◌, Option, none, some, List, [], ◌∷◌, ◌++◌,
  ltb, leb, if◌then◌else◌, any, take, Text, text_eq,
}
pub mod Laws

pub record AuthFailure : Type 0 where
  pub ip : Text
  pub service : Text
  pub detail : Text

pub record Fail2banSetting : Type 0 where
  pub service : Text
  pub max_attempts : ℕ
  pub ban_duration_minutes : ℕ
  pub find_time_minutes : ℕ
  pub enabled : Bool

-- A row of fail2ban_banned.
pub record Banned : Type 0 where
  pub ip_address : Text
  pub service : Text
  pub expires_at : Option ℕ
  pub permanent : Bool

pub data Action : Type 0 where
  attempt ban : Action

-- A row of fail2ban_log.
pub record LogEntry : Type 0 where
  pub ip_address : Text
  pub service : Text
  pub action : Action
  pub details : Text
  pub created_at : ℕ

pub record Tables : Type 0 where
  pub whitelist : List Text
  pub settings : List Fail2banSetting
  pub banned : List Banned
  pub log : List LogEntry

unfoldable pub is_ip_whitelisted : Text → Tables → Bool
unfolding text_eq
is_ip_whitelisted ip db = any (λ w. text_eq w ip) db.whitelist

abbrev is_after : Option ℕ → ℕ → Bool
is_after none now = false
is_after (some t) now = ltb now t

unfoldable pub is_active : Text → ℕ → Banned → Bool
unfolding text_eq
is_active ip now b = text_eq b.ip_address ip && (b.permanent || is_after b.expires_at now)

unfoldable pub is_ip_banned : Text → ℕ → Tables → Bool
unfolding is_active
is_ip_banned ip now db = any (λ b. is_active ip now b) db.banned

unfoldable pub setting_by_service : Text → List Fail2banSetting → Option Fail2banSetting
unfolding text_eq
setting_by_service service [] = none
setting_by_service service (s ∷ rest) =
    let later = setting_by_service service rest in
    if text_eq s.service service then some s else later

unfoldable pub record_fail2ban_attempt : AuthFailure → ℕ → Tables → Tables
record_fail2ban_attempt failure now db = record db {
  log =
      db.log
      ++ record {
        ip_address = failure.ip;
        service = failure.service;
        action = attempt;
        details = take 256 failure.detail;
        created_at = now;
      }
        ∷ [];
}

abbrev pub is_attempt : Action → Bool
is_attempt attempt = true
is_attempt ban = false

-- The cut-off is a time before the first one where the window reaches back further.
unfoldable pub is_recent : Text → Text → ℕ → ℕ → LogEntry → Bool
unfolding text_eq
is_recent ip service minutes now e =
    text_eq e.ip_address ip
    && text_eq e.service service
    && is_attempt e.action
    && ltb now (e.created_at + minutes * 60)

unfoldable pub count_recent_attempts : Text → Text → ℕ → ℕ → List LogEntry → ℕ
unfolding is_recent
count_recent_attempts ip service minutes now [] = 0
count_recent_attempts ip service minutes now (e ∷ log) =
    (if is_recent ip service minutes now e then 1 else 0)
    + count_recent_attempts ip service minutes now log

-- The row of an address and service is replaced, or added.
unfoldable pub put_ban : Banned → List Banned → List Banned
unfolding text_eq
put_ban row [] = row ∷ []
put_ban row (b ∷ rest) =
    let later = put_ban row rest in
    if text_eq b.ip_address row.ip_address && text_eq b.service row.service
    then row ∷ rest
    else b ∷ later

abbrev pub until : Bool → ℕ → Option ℕ
until true t = none
until false t = some t

unfoldable pub ban_ip : Text → Text → Text → ℕ → Bool → ℕ → Tables → Tables
unfolding put_ban
ban_ip ip service reason duration_minutes permanent now db = record db {
  banned =
      put_ban
        (record {
          ip_address = ip;
          service = service;
          permanent = permanent;
          expires_at = until permanent (now + duration_minutes * 60);
        })
        db.banned;
  log =
      db.log
      ++ record {
        ip_address = ip;
        service = service;
        action = ban;
        details = reason;
        created_at = now;
      }
        ∷ [];
}

-- After the attempt has been recorded.
unfoldable pub ban_if_due : Fail2banSetting → AuthFailure → Text → ℕ → Tables → Tables
unfolding count_recent_attempts ban_ip
ban_if_due setting failure reason now db =
    if leb setting.max_attempts
      (count_recent_attempts failure.ip failure.service setting.find_time_minutes now db.log)
    then ban_ip failure.ip failure.service reason setting.ban_duration_minutes false now db
    else db

handle_with : Option Fail2banSetting → AuthFailure → Text → ℕ → Tables → Tables
unfolding record_fail2ban_attempt ban_if_due
handle_with none failure reason now db = db
handle_with (some setting) failure reason now db =
    if not setting.enabled
    then db
    else ban_if_due setting failure reason now (record_fail2ban_attempt failure now db)

-- `reason` is the text that the source makes of the counts.
unfoldable pub handle_auth_failure : AuthFailure → Text → ℕ → Tables → Tables
unfolding is_ip_whitelisted is_ip_banned setting_by_service handle_with
handle_auth_failure failure reason now db =
    if is_ip_whitelisted failure.ip db
    then db
    else if is_ip_banned failure.ip now db
    then db
    else handle_with (setting_by_service failure.service db.settings) failure reason now db
