-- ===== src/Mcp/Guard.antt =====
-- `McpGuard` of web/mod.rs: a sliding window of call times and a count of failures for each key.
-- An `Instant` is a number of nanoseconds, a deque is a list with its front at the head.
use mailserver.Prelude.{
  ℕ, ◌+◌, ◌-◌, ◌*◌, ◌%◌, ◌^◌, Bool, true, false, ◌&&◌, Option, none, some, List, [], ◌∷◌, ◌++◌, ltb,
  leb, ◌==◌, if◌then◌else◌, length, Text, Map, lookup, insert, remove, text_eq_instance,
}
pub mod Laws
pub mod Window
pub mod Limits

abbrev pub rate_limit_per_min : ℕ
rate_limit_per_min = 60

abbrev pub destructive_rate_limit_per_min : ℕ
destructive_rate_limit_per_min = 10

abbrev pub anomaly_consecutive_failures : ℕ
anomaly_consecutive_failures = 5

-- Sixty seconds.
abbrev pub window : ℕ
window = 60_000_000_000

pub record McpGuardState : Type 0 where
  pub call_times : List ℕ
  pub destructive_times : List ℕ
  pub consecutive_failures : ℕ

abbrev pub McpGuard : Type 0
McpGuard = Map Text McpGuardState

-- What a refusal or a warning says.
pub data Reason : Type 0 where
  rate_limited destructive_rate_limited : Reason
  anomaly : ℕ → Reason

abbrev pub new_state : McpGuardState
new_state = record { call_times = []; destructive_times = []; consecutive_failures = 0 }

abbrev or_new : Option McpGuardState → McpGuardState
or_new none = new_state
or_new (some s) = s

-- `state`: the bucket of the key. The source inserts a new one at once; here the operations that
-- call it write the bucket back, changed or not.
unfoldable pub state : Text → McpGuard → McpGuardState
state key m = or_new (lookup key m)

abbrev failures_of : Option McpGuardState → ℕ
failures_of none = 0
failures_of (some s) = s.consecutive_failures

unfoldable pub consecutive_failures : Text → McpGuard → ℕ
consecutive_failures key m = failures_of (lookup key m)

-- The loop that pops the front while it is older than the cut-off.
unfoldable pub pop_old : ℕ → List ℕ → List ℕ
pop_old cutoff [] = []
pop_old cutoff (t ∷ ts) = if ltb t cutoff then pop_old cutoff ts else t ∷ ts

abbrev no_times : List ℕ → Bool
no_times [] = true
no_times (t ∷ ts) = false

unfoldable pub evict_state : ℕ → McpGuardState → McpGuardState
unfolding pop_old
evict_state now s = record s {
  call_times = pop_old (now - window) s.call_times;
  destructive_times = pop_old (now - window) s.destructive_times;
}

unfoldable pub is_idle : McpGuardState → Bool
is_idle s = no_times s.call_times && no_times s.destructive_times && s.consecutive_failures == 0

evict_in : Option McpGuardState → Text → ℕ → McpGuard → McpGuard
unfolding evict_state is_idle
evict_in none key now m = m
evict_in (some s) key now m =
    let s' = evict_state now s in if is_idle s' then remove key m else insert key s' m

unfoldable pub evict_old : Text → ℕ → McpGuard → McpGuard
unfolding evict_in
evict_old key now m = evict_in (lookup key m) key now m

unfoldable pub record_call : McpGuardState → Bool → ℕ → Option Reason × McpGuardState
record_call s is_destructive now =
    if leb rate_limit_per_min (length s.call_times)
    then (some rate_limited, s)
    else if is_destructive && leb destructive_rate_limit_per_min (length s.destructive_times)
    then (some destructive_rate_limited, s)
    else (
      none,
      record s {
        call_times = s.call_times ++ now ∷ [];
        destructive_times =
            if is_destructive then s.destructive_times ++ now ∷ [] else s.destructive_times;
      },
    )

-- `cutoff_at` is the time at which the eviction reads the clock, `now` that of the record.
unfoldable pub check_and_record : Text → Bool → ℕ → ℕ → McpGuard → Option Reason × McpGuard
unfolding evict_old state record_call
check_and_record key is_destructive cutoff_at now m =
    let evicted = evict_old key cutoff_at m in
    let (reason, s) = record_call (state key evicted) is_destructive now in
    (reason, insert key s evicted)

-- The count is a `u32`.
unfoldable pub outcome_state : McpGuardState → Bool → Option Reason × McpGuardState
outcome_state s true = (none, record s { consecutive_failures = 0 })
outcome_state s false =
    let count = (s.consecutive_failures + 1) % 2 ^ 32 in
    (
      if leb anomaly_consecutive_failures count then some (anomaly count) else none,
      record s { consecutive_failures = count },
    )

unfoldable pub record_outcome : Text → Bool → McpGuard → Option Reason × McpGuard
unfolding state outcome_state
record_outcome key success m =
    let (reason, s) = outcome_state (state key m) success in (reason, insert key s m)
