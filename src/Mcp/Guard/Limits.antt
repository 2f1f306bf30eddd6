-- ===== src/Mcp/Guard/Limits.antt =====
-- Whole runs of the MCP guard of web/mod.rs: no window of sixty seconds lets more calls of a key
-- through than its limits say.
use mailserver.Prelude.{
  ℕ, ◌≤◌, sym, subst, inl, inr, Bool, true, false, Option, none, some, List, [], ◌∷◌, ◌++◌, leb,
  if◌then◌else◌, length, arith, Text, text_eq, text_eq_iff, Bool-cases, lookup,
}
use mailserver.Mcp.Guard.{
  McpGuard, McpGuardState, Reason, rate_limit_per_min, destructive_rate_limit_per_min, state,
  evict_state, record_call, check_and_record, record_outcome, outcome_state,
}
use mailserver.Mcp.Guard.Laws.{state-check_and_record, state-record_outcome, other_key_kept}
use mailserver.Mcp.Guard.Window.{
  count_in, Covers, Covers-evict, Covers-push, Covers-later, Covers-nil, count_in-push,
}

-- A call with the times of its eviction and of its record, or the outcome of a call.
pub data Event : Type 0 where
  call : (is_destructive : Bool) (cutoff_at now : ℕ) → Event
  outcome : (success : Bool) → Event

-- The calls of one key that the guard let through, oldest first.
pub record History : Type 0 where
  pub calls : List ℕ
  pub destructive : List ℕ

abbrev pub no_history : History
no_history = record { calls = []; destructive = [] }

abbrev let_through : Option Reason → Bool → ℕ → History → History
let_through (some reason) is_destructive now h = h
let_through none is_destructive now h = record {
  calls = h.calls ++ now ∷ [];
  destructive = if is_destructive then h.destructive ++ now ∷ [] else h.destructive;
}

pub step : Text × Event → McpGuard → Option Reason × McpGuard
step (key, call is_destructive cutoff_at now) m =
    check_and_record key is_destructive cutoff_at now m
step (key, outcome success) m = record_outcome key success m

abbrev note : Event → Option Reason → History → History
note (call is_destructive cutoff_at now) reason h = let_through reason is_destructive now h
note (outcome success) reason h = h

-- The history of a key after a run of the guard.
pub history : Text → List (Text × Event) → McpGuard → History → History
history key [] m h = h
history key ((k, ev) ∷ evs) m h =
    history key evs (step (k, ev) m).1 (if text_eq k key then note ev (step (k, ev) m).0 h else h)

-- The clock does not run backwards.
abbrev pub InOrder : ℕ → List (Text × Event) → Type 0
InOrder clock [] = Unit
InOrder clock ((k, call is_destructive cutoff_at now) ∷ evs) =
    (clock ≤ cutoff_at) × (cutoff_at ≤ now) × InOrder now evs
InOrder clock ((k, outcome success) ∷ evs) = InOrder clock evs

record Inv (clock : ℕ) (s : McpGuardState) (h : History) : Type 0 where
  all_calls : Covers clock h.calls s.call_times
  all_destructive : Covers clock h.destructive s.destructive_times
  few_calls : (w : ℕ) → count_in w h.calls ≤ rate_limit_per_min
  few_destructive : (w : ℕ) → count_in w h.destructive ≤ destructive_rate_limit_per_min

Inv-later :
    (clock now : ℕ) (s : McpGuardState) (h : History) → clock ≤ now → Inv clock s h → Inv now s h
Inv-later clock now s h le v = record {
  all_calls = Covers-later clock now h.calls s.call_times le v.all_calls;
  all_destructive = Covers-later clock now h.destructive s.destructive_times le v.all_destructive;
  few_calls = v.few_calls;
  few_destructive = v.few_destructive;
}

evict-Inv :
    (clock now : ℕ) (s : McpGuardState) (h : History)
    → clock ≤ now
    → Inv clock s h
    → Inv now (evict_state now s) h
unfolding evict_state
evict-Inv clock now s h le v = record {
  all_calls = Covers-evict clock now h.calls s.call_times le v.all_calls;
  all_destructive = Covers-evict clock now h.destructive s.destructive_times le v.all_destructive;
  few_calls = v.few_calls;
  few_destructive = v.few_destructive;
}

record_call-Inv :
    (clock now : ℕ) (d : Bool) (s : McpGuardState) (h : History)
    → clock ≤ now
    → Inv clock s h
    → Inv clock (record_call s d now).1 (let_through (record_call s d now).0 d now h)
unfolding record_call
record_call-Inv clock now false s h le v =
    elim (Bool-cases (leb rate_limit_per_min (length s.call_times))) [
      | inl full ↦ rw full v
      | inr room ↦ rw room (record {
        all_calls = Covers-push clock now h.calls s.call_times v.all_calls;
        all_destructive = v.all_destructive;
        few_calls = λ w.
            count_in-push w clock now rate_limit_per_min h.calls s.call_times le v.all_calls
              (ground arith) (v.few_calls w);
        few_destructive = v.few_destructive;
      })
    ]
record_call-Inv clock now true s h le v =
    elim (Bool-cases (leb rate_limit_per_min (length s.call_times))) [
      | inl full ↦ rw full v
      | inr room ↦
          elim (Bool-cases (leb destructive_rate_limit_per_min (length s.destructive_times))) [
            | inl full ↦ rw (room, full) v
            | inr few ↦
                rw (room, few)
                  (record {
                    all_calls = Covers-push clock now h.calls s.call_times v.all_calls;
                    all_destructive =
                        Covers-push clock now h.destructive s.destructive_times v.all_destructive;
                    few_calls = λ w.
                        count_in-push w clock now rate_limit_per_min h.calls s.call_times le
                          v.all_calls (ground arith) (v.few_calls w);
                    few_destructive = λ w.
                        count_in-push w clock now destructive_rate_limit_per_min h.destructive
                          s.destructive_times le v.all_destructive (ground arith)
                          (v.few_destructive w);
                  })
          ]
    ]

check-Inv :
    (key : Text) (d : Bool) (clock cutoff_at now : ℕ) (m : McpGuard) (h : History)
    → clock ≤ cutoff_at
    → cutoff_at ≤ now
    → Inv clock (state key m) h
    → let r = check_and_record key d cutoff_at now m in
      Inv now (state key r.1) (let_through r.0 d now h)
check-Inv key d clock cutoff_at now m h le le' v =
    let (same_answer, same_state) = state-check_and_record key d cutoff_at now m in
    rw (same_answer, same_state)
      (Inv-later cutoff_at now _ _ le' (
        record_call-Inv cutoff_at now d (evict_state cutoff_at (state key m)) h le'
          (evict-Inv clock cutoff_at (state key m) h le v)))

outcome_state-Inv :
    (clock : ℕ) (success : Bool) (s : McpGuardState) (h : History)
    → Inv clock s h
    → Inv clock (outcome_state s success).1 h
unfolding outcome_state
outcome_state-Inv clock true s h v = record {
  all_calls = v.all_calls;
  all_destructive = v.all_destructive;
  few_calls = v.few_calls;
  few_destructive = v.few_destructive;
}
outcome_state-Inv clock false s h v = record {
  all_calls = v.all_calls;
  all_destructive = v.all_destructive;
  few_calls = v.few_calls;
  few_destructive = v.few_destructive;
}

FewInWindows : History → Type 0
FewInWindows h =
    (w : ℕ)
    → (count_in w h.calls ≤ rate_limit_per_min)
      × (count_in w h.destructive ≤ destructive_rate_limit_per_min)

history-FewInWindows :
    (key : Text) (evs : List (Text × Event)) (clock : ℕ) (m : McpGuard) (h : History)
    → InOrder clock evs
    → Inv clock (state key m) h
    → FewInWindows (history key evs m h)
unfolding history step FewInWindows
history-FewInWindows key [] clock m h ord v = λ w. (v.few_calls w, v.few_destructive w)
history-FewInWindows key ((k, call d cutoff_at now) ∷ evs) clock m h (le, le', ord) v =
    elim (Bool-cases (text_eq k key)) [
      | inl same ↦
          rw (same, history)
            (history-FewInWindows key evs now _ _ ord (
              subst
                (λ j.
                  Inv now (state key (check_and_record j d cutoff_at now m).1)
                    (let_through (check_and_record j d cutoff_at now m).0 d now h))
                (sym ((text_eq_iff k key).0 same))
                (check-Inv key d clock cutoff_at now m h le le' v)))
      | inr differs ↦
          rw (differs, history)
            (history-FewInWindows key evs now _ h ord (
              rw
                ((other_key_kept k key d cutoff_at now m
                  (λ e. ground (arith, text_eq_iff k key))).0)
                (Inv-later clock now (state key m) h (omega arith) v)))
    ]
history-FewInWindows key ((k, outcome success) ∷ evs) clock m h ord v =
    elim (Bool-cases (text_eq k key)) [
      | inl same ↦
          rw (same, history)
            (history-FewInWindows key evs clock _ h ord (
              subst (λ j. Inv clock (state key (record_outcome j success m).1) h)
                (sym ((text_eq_iff k key).0 same))
                (rw ((state-record_outcome key success m).1)
                  (outcome_state-Inv clock success (state key m) h v))))
      | inr differs ↦
          rw (differs, history)
            (history-FewInWindows key evs clock _ h ord (
              rw
                ((other_key_kept k key success clock clock m
                  (λ e. ground (arith, text_eq_iff k key))).1)
                v))
    ]

empty-Inv : (key : Text) → Inv 0 (state key []) no_history
unfolding state lookup
empty-Inv key = record {
  all_calls = Covers-nil 0;
  all_destructive = Covers-nil 0;
  few_calls = λ w. omega arith;
  few_destructive = λ w. omega arith;
}

-- From an empty guard, whatever calls and outcomes of whatever keys come in the order of the clock:
-- in no window of sixty seconds does the guard let more than 60 calls of a key through, and no more
-- than 10 destructive ones.
pub history-few :
    (key : Text) (evs : List (Text × Event)) (w : ℕ)
    → InOrder 0 evs
    → (count_in w (history key evs [] no_history).calls ≤ rate_limit_per_min)
      × (count_in w (history key evs [] no_history).destructive ≤ destructive_rate_limit_per_min)
unfolding FewInWindows
history-few key evs w ord = history-FewInWindows key evs 0 [] no_history ord (empty-Inv key) w
