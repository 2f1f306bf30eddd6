-- ===== src/Mcp/Guard/Laws.antt =====
-- What each operation of the MCP guard of web/mod.rs does to the bucket of a key.
use mailserver.Prelude.{
  ℕ, ◌≡◌, ◌≢◌, refl, sym, ap, ◌∙◌, inl, inr, Bool, true, Option, none, some, arith, Text,
  Bool-cases, lookup, insert, lookup-insert_self, lookup-insert_ne, lookup-remove_self,
  lookup-remove_ne, text_eq_instance,
}
use mailserver.Mcp.Guard.{
  McpGuard, McpGuardState, state, evict_state, evict_in, evict_old, is_idle, record_call,
  check_and_record, outcome_state, record_outcome, new_state, or_new,
}

is_idle-eq_new : (s : McpGuardState) → is_idle s ≡ true → s ≡ new_state
unfolding is_idle
is_idle-eq_new s h = ground arith

evict_state-new : (now : ℕ) → evict_state now new_state ≡ new_state
unfolding evict_state
evict_state-new now = refl

state-insert_self : (key : Text) (s : McpGuardState) (m : McpGuard) → state key (insert key s m) ≡ s
unfolding state
state-insert_self key s m = rw (lookup-insert_self key s m) refl

evict_in-state :
    (o : Option McpGuardState) (key : Text) (now : ℕ) (m : McpGuard)
    → lookup key m ≡ o
    → or_new (lookup key (evict_in o key now m)) ≡ evict_state now (or_new o)
unfolding evict_in
evict_in-state none key now m e = rw (e, evict_state-new now) refl
evict_in-state (some s) key now m e = elim (Bool-cases (is_idle (evict_state now s))) [
  | inl idle ↦ rw (idle, lookup-remove_self key m) (sym (is_idle-eq_new _ idle))
  | inr busy ↦ rw (busy, lookup-insert_self key (evict_state now s) m) refl
]

-- Dropping an idle bucket is not seen: the state of the key is the evicted one.
pub state-evict_old :
    (key : Text) (now : ℕ) (m : McpGuard)
    → state key (evict_old key now m) ≡ evict_state now (state key m)
unfolding state evict_old
state-evict_old key now m = evict_in-state (lookup key m) key now m refl

pub state-check_and_record :
    (key : Text) (is_destructive : Bool) (cutoff_at now : ℕ) (m : McpGuard)
    → let call = record_call (evict_state cutoff_at (state key m)) is_destructive now in
      ((check_and_record key is_destructive cutoff_at now m).0 ≡ call.0)
      × (state key (check_and_record key is_destructive cutoff_at now m).1 ≡ call.1)
unfolding check_and_record
state-check_and_record key is_destructive cutoff_at now m =
    let e = state-evict_old key cutoff_at m in
    (
      ap (λ s. (record_call s is_destructive now).0) e,
      state-insert_self key _ (evict_old key cutoff_at m)
          ∙ ap (λ s. (record_call s is_destructive now).1) e,
    )

pub state-record_outcome :
    (key : Text) (success : Bool) (m : McpGuard)
    → ((record_outcome key success m).0 ≡ (outcome_state (state key m) success).0)
      × (state key (record_outcome key success m).1 ≡ (outcome_state (state key m) success).1)
unfolding record_outcome
state-record_outcome key success m = (refl, state-insert_self key _ m)

evict_in_other :
    (o : Option McpGuardState) (key other : Text) (now : ℕ) (m : McpGuard)
    → key ≢ other
    → lookup other (evict_in o key now m) ≡ lookup other m
unfolding evict_in
evict_in_other none key other now m h = refl
evict_in_other (some s) key other now m h = elim (Bool-cases (is_idle (evict_state now s))) [
  | inl idle ↦ rw idle (lookup-remove_ne key other m h)
  | inr busy ↦ rw busy (lookup-insert_ne key other (evict_state now s) m h)
]

-- A call and an outcome of one key leave every other key's bucket as it was.
pub other_key_kept :
    (key other : Text) (flag : Bool) (cutoff_at now : ℕ) (m : McpGuard)
    → key ≢ other
    → (state other (check_and_record key flag cutoff_at now m).1 ≡ state other m)
      × (state other (record_outcome key flag m).1 ≡ state other m)
unfolding check_and_record record_outcome state evict_old
other_key_kept key other flag cutoff_at now m h = (
  ap or_new (
      lookup-insert_ne key other _ (evict_old key cutoff_at m) h
      ∙ evict_in_other (lookup key m) key other cutoff_at m h),
  ap or_new (lookup-insert_ne key other _ m h),
)
