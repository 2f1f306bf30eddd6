-- ===== src/Registration/Runs.antt =====
-- Sequences of requests and of the administrator's operations on the codes.
use mailserver.Prelude.{ℕ, ◌+◌, ◌≤◌, ◌≡◌, List, [], ◌∷◌, length, arith}
use mailserver.Net.IpAddr.{IpAddr}
use mailserver.Registration.Tables.{Tables, World}
use mailserver.Registration.Limiter.{RegAttempts}
use mailserver.Registration.Form.{RegisterForm, handle_form}
use mailserver.Registration.Codes.{free_codes, registered_count}
use mailserver.Registration.Answers.{handle_form-Balanced}

-- One POST /register, with what it meets outside.
pub record Visit : Type 0 where
  pub world : World
  pub ip : IpAddr
  pub now : ℕ
  pub form : RegisterForm

-- The visits in the order in which they are served, and how many made an account.
unfoldable pub serve : List Visit → RegAttempts × Tables → ℕ × Tables
serve [] (m, t) = (0, t)
serve (v ∷ visits) (m, t) =
    let (m', o) = handle_form v.world v.ip v.now v.form (m, t) in
    let (n, last) = serve visits (m', o.tables) in (registered_count o + n, last)

-- An invite code makes at most one account: however many visits come, in whatever order, the
-- accounts made are counted exactly, and they and the codes left free are no more than the codes
-- that were free before.
pub serve-bounded :
    (visits : List Visit) (m : RegAttempts) (t : Tables)
    → (length (serve visits (m, t)).1.accounts ≡ length t.accounts + (serve visits (m, t)).0)
      × ((serve visits (m, t)).0 + free_codes (serve visits (m, t)).1.invite_codes
          ≤ free_codes t.invite_codes)
unfolding serve
serve-bounded [] m t = (omega arith, omega arith)
serve-bounded (v ∷ visits) m t =
    let b = handle_form-Balanced v.world v.ip v.now v.form m t in
    let (m', o) = handle_form v.world v.ip v.now v.form (m, t) in
    let (counted, taken) = serve-bounded visits m' o.tables in
    (omega (arith, b.accounts_counted, counted), omega (arith, b.codes_taken, taken))
