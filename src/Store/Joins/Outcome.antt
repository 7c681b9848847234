-- ===== src/Store/Joins/Outcome.antt =====
-- The life of a join state in the store: created once, updated by every report, then read.
use floxy_pro.Prelude.{
  All, Bool, List, Option, String, [], ap, arith, contains, false, inl, inr, length, nat_eq, none,
  pair_beq_iff, pair_eq, refl, some, string_eq, true, ℕ, ◌+◌, ◌↔◌, ◌∙◌, ◌∷◌, ◌≡◌, ◌≢◌, ◌≤◌, ◌⊎◌,
}
use floxy_pro.Model.{JoinState, JoinStrategy, Time}
use floxy_pro.Prelude.Maps.{lookup, lookup-insert}
use floxy_pro.Store.Defs.{MemoryStore, found, ok}
use floxy_pro.Store.Joins.{
  check_join_ready, create_join_state, get_join_state, join_state_key, new_join_state, or_all,
  record_result, update_join_state,
}
use floxy_pro.Store.Joins.Names.{Once}
use floxy_pro.Store.Joins.Ready.{IsReported, full_iff, reported_waiting}
use floxy_pro.Store.Joins.Reports.{
  Reflects, is_failure, is_success, last_report, report_all, report_all-Reflects,
}
use floxy_pro.Store.Operations.{locked_after}

-- UpdateJoinState on the store for each report.
unfoldable pub report_in_store :
    ℕ → String → Time → List (String × Bool) → MemoryStore → MemoryStore
report_in_store id name now [] s = s
report_in_store id name now ((step, success) ∷ reports) s =
    report_in_store id name now reports (update_join_state id name step success now s).1

-- The store holds under a key what the reports make of the state that it held.
report_in_store_lem :
    (id : ℕ) (name : String) (now : Time) (reports : List (String × Bool)) (s : MemoryStore)
    (state : JoinState)
    → lookup (id, name) s.join_states ≡ some state
    → lookup (id, name) (report_in_store id name now reports s).join_states
      ≡ some (report_all now reports state)
unfolding report_in_store report_all update_join_state join_state_key
report_in_store_lem id name now [] s state there = there
report_in_store_lem id name now ((step, success) ∷ reports) s state there =
    report_in_store_lem id name now reports (update_join_state id name step success now s).1
      (record_result step success now state)
      (rw there (
        ground (
          arith,
          lookup-insert (id, name) (id, name) (record_result step success now state) s.join_states,
          pair_beq_iff (id, name) (id, name),
        )))

-- The parts of a join state that reports leave alone, and the readiness after at least one.
report_all-same :
    (now : Time) (reports : List (String × Bool)) (state : JoinState)
    → ((report_all now reports state).waiting_for ≡ state.waiting_for)
      × ((report_all now reports state).join_strategy ≡ state.join_strategy)
unfolding report_all record_result
report_all-same now [] state = (refl, refl)
report_all-same now ((step, true) ∷ reports) state =
    report_all-same now reports (record_result step true now state)
report_all-same now ((step, false) ∷ reports) state =
    report_all-same now reports (record_result step false now state)

-- The readiness of a state is that of its lists.
abbrev IsSettled : JoinState → Type 0
IsSettled state =
    state.is_ready
    ≡ check_join_ready state.waiting_for state.completed state.failed state.join_strategy

report_all-IsSettled :
    (now : Time) (step : String) (success : Bool) (reports : List (String × Bool))
    (state : JoinState)
    → IsSettled (report_all now ((step, success) ∷ reports) state)
unfolding report_all record_result
report_all-IsSettled now step true [] state = refl
report_all-IsSettled now step false [] state = refl
report_all-IsSettled now step true ((next, b) ∷ reports) state =
    report_all-IsSettled now next b reports (record_result step true now state)
report_all-IsSettled now step false ((next, b) ∷ reports) state =
    report_all-IsSettled now next b reports (record_result step false now state)

-- What a join that waits for all of `waiting` shows after a sequence of reports.
pub record Outcome (waiting : List String) (reports : List (String × Bool)) (state : JoinState)
    : Type 0 where
  pub ready :
      (state.is_ready ≡ true)
      ↔ ((step : String) → contains waiting step ≡ true → IsReported reports step)
  pub completed :
      (step : String) → contains state.completed step ≡ is_success (last_report step none reports)
  pub failed :
      (step : String) → contains state.failed step ≡ is_failure (last_report step none reports)

new-Reflects :
    (id : ℕ) (name : String) (waiting : List String) (strategy : JoinStrategy) (t : Time)
    → Reflects (new_join_state id name waiting strategy t) (λ _. none)
new-Reflects id name waiting strategy t = record {
  once_completed = tt;
  once_failed = tt;
  completed = λ _. refl;
  failed = λ _. refl;
}

settled_count :
    (waiting : List String) (state : JoinState)
    → IsSettled state
    → state.waiting_for ≡ waiting
    → state.join_strategy ≡ JoinStrategy.all
    → (state.is_ready ≡ true) ↔ (length waiting ≤ length state.completed + length state.failed)
unfolding check_join_ready
settled_count waiting state settled same all = (λ r. ground arith, λ l. ground arith)

report_all-Outcome :
    (id : ℕ) (name : String) (waiting : List String) (strategy : JoinStrategy) (t now : Time)
    (step : String) (success : Bool) (reports : List (String × Bool))
    → or_all strategy ≡ JoinStrategy.all
    → Once waiting
    → All (λ report. contains waiting report.0 ≡ true) ((step, success) ∷ reports)
    → Outcome waiting
        ((step, success) ∷ reports)
        (report_all now ((step, success) ∷ reports) (new_join_state id name waiting strategy t))
report_all-Outcome id name waiting strategy t now step success reports every once known =
    let start = new_join_state id name waiting strategy t in
    let all = (step, success) ∷ reports in
    let final = report_all now all start in
    let same = report_all-same now all start in
    let reflects =
      report_all-Reflects now all start (λ _. none) (new-Reflects id name waiting strategy t) in
    let count =
      settled_count waiting final (report_all-IsSettled now step success reports start) same.0
        (same.1 ∙ every) in
    let full =
      full_iff waiting final (λ x. last_report x none all) reflects once
        (λ x there. known_waiting x (reported_waiting waiting all none x known there)) in
    record {
      ready = (λ r. full.0 (count.0 r), λ l. count.1 (full.1 l));
      completed = reflects.completed;
      failed = reflects.failed;
    }
  where
    known_waiting :
        (x : String)
        → (contains waiting x ≡ true) ⊎ (◌≢◌ {A = Option Bool} none none)
        → contains waiting x ≡ true
    known_waiting x (inl c) = c
    known_waiting x (inr never) = absurd (never refl)

-- A join state that CreateJoinState creates under a new key, to wait for all of `waiting` (each name
-- once), is, after UpdateJoinState for one or more reports on steps of `waiting`, what GetJoinState
-- returns, and it is ready exactly when every step of `waiting` has a report; a step is among the
-- completed when its last report is a success, and among the failed when its last report is not.
pub join-Outcome :
    (id : ℕ) (name : String) (waiting : List String) (strategy : JoinStrategy) (t now : Time)
    (step : String) (success : Bool) (reports : List (String × Bool)) (s : MemoryStore)
    → or_all strategy ≡ JoinStrategy.all
    → Once waiting
    → All (λ report. contains waiting report.0 ≡ true) ((step, success) ∷ reports)
    → lookup (id, name) s.join_states ≡ none
    → let created = locked_after s (create_join_state false id name waiting strategy t s) in
      (state : JoinState) × ((get_join_state id name
          (report_in_store id name now ((step, success) ∷ reports) created)).0
        ≡ ok state)
      × Outcome waiting ((step, success) ∷ reports) state
unfolding create_join_state get_join_state
join-Outcome id name waiting strategy t now step success reports s every once known absent =
    let start = new_join_state id name waiting strategy t in
    let all = (step, success) ∷ reports in
    let stored =
      report_in_store_lem id name now all
        (locked_after s (create_join_state false id name waiting strategy t s)) start
        (rw absent (
          ground (
            arith,
            lookup-insert (id, name) (id, name) start s.join_states,
            pair_beq_iff (id, name) (id, name),
          ))) in
    (
      report_all now all start,
      ap found stored,
      report_all-Outcome id name waiting strategy t now step success reports every once known,
    )
