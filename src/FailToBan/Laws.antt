-- ===== src/FailToBan/Laws.antt =====
-- When `handle_auth_failure` of fail2ban.rs bans an address.
use mailserver.Prelude.{
  ℕ, ◌+◌, ◌*◌, ◌≤◌, ◌≡◌, ◌≢◌, refl, ap, ◌∙◌, true, false, ◌&&◌, ◌||◌, Option, none, some, List, [],
  ◌∷◌, ◌++◌, ltb, leb, any, arith, Bool-cases, inl, inr, Text, text_eq, text_eq_iff, text_eq_refl,
}
use mailserver.FailToBan.{
  AuthFailure, Fail2banSetting, Banned, LogEntry, Tables, is_ip_whitelisted, is_active,
  is_ip_banned, setting_by_service, record_fail2ban_attempt, count_recent_attempts, is_recent,
  put_ban, ban_ip, ban_if_due, handle_with, handle_auth_failure, is_after,
}

count-last :
    (ip service : Text) (minutes now : ℕ) (log : List LogEntry) (e : LogEntry)
    → is_recent ip service minutes now e ≡ true
    → count_recent_attempts ip service minutes now (log ++ e ∷ [])
      ≡ count_recent_attempts ip service minutes now log + 1
unfolding count_recent_attempts
count-last ip service minutes now [] e h = rw h refl
count-last ip service minutes now (x ∷ log) e h =
    omega (arith, count-last ip service minutes now log e h)

put_ban-inactive :
    (ip : Text) (now : ℕ) (row : Banned) (rows : List Banned)
    → any (λ b. is_active ip now b) rows ≡ false
    → any (λ b. is_active ip now b) (put_ban row rows) ≡ is_active ip now row
unfolding put_ban
put_ban-inactive ip now row [] h = ground arith
put_ban-inactive ip now row (b ∷ rows) h = ground (arith, h, put_ban-inactive ip now row rows)

-- A ban that is over stays over.
inactive-later :
    (ip : Text) (now later : ℕ) (rows : List Banned)
    → now ≤ later
    → any (λ b. is_active ip now b) rows ≡ false
    → any (λ b. is_active ip later b) rows ≡ false
unfolding is_active
inactive-later ip now later [] le h = refl
inactive-later ip now later (b ∷ rows) le h = ground (arith, h, inactive-later ip now later rows le)

put_ban-other :
    (ip : Text) (now : ℕ) (row : Banned) (rows : List Banned)
    → text_eq row.ip_address ip ≡ false
    → any (λ b. is_active ip now b) (put_ban row rows) ≡ any (λ b. is_active ip now b) rows
unfolding put_ban is_active
put_ban-other ip now row [] h = rw h refl
put_ban-other ip now row (b ∷ rows) h =
    ground (arith, h, put_ban-other ip now row rows h, text_eq_iff b.ip_address row.ip_address)

handle-due :
    (failure : AuthFailure) (reason : Text) (now : ℕ) (db : Tables) (setting : Fail2banSetting)
    → is_ip_whitelisted failure.ip db ≡ false
    → is_ip_banned failure.ip now db ≡ false
    → setting_by_service failure.service db.settings ≡ some setting
    → setting.enabled ≡ true
    → handle_auth_failure failure reason now db
      ≡ ban_if_due setting failure reason now (record_fail2ban_attempt failure now db)
unfolding handle_auth_failure
handle-due failure reason now db setting w b e on =
    rw (handle_auth_failure, w, b, e, handle_with, on) refl

count-recorded :
    (failure : AuthFailure) (minutes now : ℕ) (db : Tables)
    → 1 ≤ minutes
    → count_recent_attempts failure.ip failure.service minutes now
        (record_fail2ban_attempt failure now db).log
      ≡ count_recent_attempts failure.ip failure.service minutes now db.log + 1
unfolding record_fail2ban_attempt is_recent
count-recorded failure minutes now db h =
    count-last failure.ip failure.service minutes now db.log _
      (ground (arith, text_eq_refl failure.ip, text_eq_refl failure.service))

ban_if_due-banned :
    (setting : Fail2banSetting) (failure : AuthFailure) (reason : Text) (now later : ℕ)
    (db : Tables)
    → any (λ b. is_active failure.ip later b) db.banned ≡ false
    → any (λ b. is_active failure.ip later b) (ban_if_due setting failure reason now db).banned ≡ (
        leb setting.max_attempts
          (count_recent_attempts failure.ip failure.service setting.find_time_minutes now db.log)
        && ltb later (now + setting.ban_duration_minutes * 60))
unfolding ban_if_due ban_ip is_active
ban_if_due-banned setting failure reason now later db over =
    let n = count_recent_attempts failure.ip failure.service setting.find_time_minutes now db.log in
    elim (Bool-cases (leb setting.max_attempts n)) [
      | inr early ↦ rw (ban_if_due, early) over
      | inl due ↦
          let row : Banned = record {
            ip_address = failure.ip;
            service = failure.service;
            permanent = false;
            expires_at = some (now + setting.ban_duration_minutes * 60);
          } in
          rw (ban_if_due, due)
            (put_ban-inactive failure.ip later row db.banned over
              ∙ own_row failure.ip later row refl)
    ]
  where
    own_row :
        (ip : Text) (t : ℕ) (row : Banned)
        → row.ip_address ≡ ip
        → is_active ip t row ≡ (row.permanent || is_after row.expires_at t)
    own_row ip t row same = rw (is_active, same, text_eq_refl ip) refl

-- A failure of an address that is neither whitelisted nor banned, for a service that is enabled and
-- has a find time of a minute or more: from then on the address is banned exactly if this failure
-- makes up the attempts allowed within the find time, and until the ban time has passed.
pub handle_auth_failure-bans :
    (failure : AuthFailure) (reason : Text) (now later : ℕ) (db : Tables)
    (setting : Fail2banSetting)
    → is_ip_whitelisted failure.ip db ≡ false
    → is_ip_banned failure.ip now db ≡ false
    → setting_by_service failure.service db.settings ≡ some setting
    → setting.enabled ≡ true
    → 1 ≤ setting.find_time_minutes
    → now ≤ later
    → is_ip_banned failure.ip later (handle_auth_failure failure reason now db) ≡ (
        leb setting.max_attempts (
          count_recent_attempts failure.ip failure.service setting.find_time_minutes now db.log + 1)
        && ltb later (now + setting.ban_duration_minutes * 60))
unfolding is_ip_banned record_fail2ban_attempt
handle_auth_failure-bans failure reason now later db setting w b e on find le =
    let over = inactive-later failure.ip now later db.banned le b in
    let count = count-recorded failure setting.find_time_minutes now db find in
    rw (handle-due failure reason now db setting w b e on) (
      ban_if_due-banned setting failure reason now later (record_fail2ban_attempt failure now db)
        over
      ∙ ap (λ n. leb setting.max_attempts n && ltb later (now + setting.ban_duration_minutes * 60))
          count)

-- The tables say the same of an address.
abbrev Kept : Text → Text → ℕ → ℕ → Tables → Tables → Type 0
Kept ip service later minutes db db' =
    (is_ip_banned ip later db' ≡ is_ip_banned ip later db)
    × (count_recent_attempts ip service minutes later db'.log
        ≡ count_recent_attempts ip service minutes later db.log)

count-other :
    (ip service : Text) (minutes now : ℕ) (log : List LogEntry) (e : LogEntry)
    → text_eq e.ip_address ip ≡ false
    → count_recent_attempts ip service minutes now (log ++ e ∷ [])
      ≡ count_recent_attempts ip service minutes now log
unfolding count_recent_attempts is_recent
count-other ip service minutes now [] e h = rw h refl
count-other ip service minutes now (x ∷ log) e h =
    omega (arith, count-other ip service minutes now log e h)

module _ (failure : AuthFailure) (ip service : Text) (later minutes : ℕ)
    (h : text_eq failure.ip ip ≡ false) where
  record-Kept :
      (now : ℕ) (db : Tables)
      → Kept ip service later minutes db (record_fail2ban_attempt failure now db)
  unfolding record_fail2ban_attempt is_ip_banned
  record-Kept now db = (refl, count-other ip service minutes later db.log _ h)

  ban_if_due-Kept :
      (setting : Fail2banSetting) (reason : Text) (now : ℕ) (db : Tables)
      → Kept ip service later minutes db (ban_if_due setting failure reason now db)
  unfolding ban_if_due ban_ip is_ip_banned
  ban_if_due-Kept setting reason now db =
      elim (Bool-cases (
        leb setting.max_attempts (
          count_recent_attempts failure.ip failure.service setting.find_time_minutes now db.log))) [
            | inr early ↦ rw (ban_if_due, early) (refl, refl)
            | inl due ↦
                rw (ban_if_due, due)
                  (
                    put_ban-other ip later _ db.banned h,
                    count-other ip service minutes later db.log _ h,
                  )
          ]

  handle_with-Kept :
      (o : Option Fail2banSetting) (reason : Text) (now : ℕ) (db : Tables)
      → Kept ip service later minutes db (handle_with o failure reason now db)
  unfolding handle_with
  handle_with-Kept none reason now db = (refl, refl)
  handle_with-Kept (some setting) reason now db = elim (Bool-cases setting.enabled) [
    | inr off ↦ rw (handle_with, off) (refl, refl)
    | inl on ↦
        let first = record-Kept now db in
        let second = ban_if_due-Kept setting reason now (record_fail2ban_attempt failure now db) in
        rw (handle_with, on) (second.0 ∙ first.0, second.1 ∙ first.1)
  ]

  handle-Kept :
      (reason : Text) (now : ℕ) (db : Tables)
      → Kept ip service later minutes db (handle_auth_failure failure reason now db)
  unfolding handle_auth_failure
  handle-Kept reason now db = elim (Bool-cases (is_ip_whitelisted failure.ip db)) [
    | inl listed ↦ rw (handle_auth_failure, listed) (refl, refl)
    | inr unlisted ↦ elim (Bool-cases (is_ip_banned failure.ip now db)) [
      | inl out ↦ rw (handle_auth_failure, unlisted, out) (refl, refl)
      | inr free ↦
          rw (handle_auth_failure, unlisted, free)
            (handle_with-Kept (setting_by_service failure.service db.settings) reason now db)
    ]
  ]

-- A failure of one address leaves every other address banned or not as it was, and counts no
-- attempt of another; a whitelisted address changes nothing at all.
pub handle_auth_failure-other :
    (failure : AuthFailure) (reason ip service : Text) (now later minutes : ℕ) (db : Tables)
    → failure.ip ≢ ip
    → (is_ip_banned ip later (handle_auth_failure failure reason now db) ≡ is_ip_banned ip later db)
      × (count_recent_attempts ip service minutes later
            (handle_auth_failure failure reason now db).log
          ≡ count_recent_attempts ip service minutes later db.log)
      × (is_ip_whitelisted failure.ip db ≡ true → handle_auth_failure failure reason now db ≡ db)
unfolding handle_auth_failure
handle_auth_failure-other failure reason ip service now later minutes db h =
    let apart : text_eq failure.ip ip ≡ false = ground (arith, h, text_eq_iff failure.ip ip) in
    let (banned, counted) = handle-Kept failure ip service later minutes apart reason now db in
    (banned, counted, λ listed. rw (handle_auth_failure, listed) refl)
