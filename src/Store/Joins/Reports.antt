-- ===== src/Store/Joins/Reports.antt =====
-- What a join state is after any sequence of reports: each step counts by its last report.
use floxy_pro.Prelude.{
  Bool, List, Option, String, [], arith, contains, false, if◌then◌else◌, nat_eq, none, not, some,
  string_eq, true, ◌==◌, ◌∷◌, ◌≡◌,
}
use floxy_pro.Model.{JoinState, Time}
use floxy_pro.Store.Joins.{record_result}
use floxy_pro.Store.Joins.Names.{
  Once, add_name-Once, contains-add_name, contains-remove_name, remove_name-Once,
}

-- The last report on a step, from `seen` before the sequence.
abbrev pub last_report : String → Option Bool → List (String × Bool) → Option Bool
last_report step seen [] = seen
last_report step seen ((name, success) ∷ reports) =
    last_report step (if name == step then some success else seen) reports

-- UpdateJoinState once for each report.
unfoldable pub report_all : Time → List (String × Bool) → JoinState → JoinState
report_all now [] state = state
report_all now ((name, success) ∷ reports) state =
    report_all now reports (record_result name success now state)

abbrev pub is_success : Option Bool → Bool
is_success none = false
is_success (some success) = success

abbrev pub is_failure : Option Bool → Bool
is_failure none = false
is_failure (some success) = not success

-- The two slices hold each name once, a step as the sequence of reports left it.
pub record Reflects (state : JoinState) (seen : String → Option Bool) : Type 0 where
  pub once_completed : Once state.completed
  pub once_failed : Once state.failed
  pub completed : (step : String) → contains state.completed step ≡ is_success (seen step)
  pub failed : (step : String) → contains state.failed step ≡ is_failure (seen step)

abbrev update : String → Bool → (String → Option Bool) → String → Option Bool
update name success seen step = if name == step then some success else seen step

record_result-Reflects :
    (name : String) (success : Bool) (now : Time) (state : JoinState) (seen : String → Option Bool)
    → Reflects state seen
    → Reflects (record_result name success now state) (update name success seen)
unfolding record_result
record_result-Reflects name true now state seen h = record {
  once_completed = add_name-Once name state.completed h.once_completed;
  once_failed = remove_name-Once name state.failed h.once_failed;
  completed = λ step. ground (arith, contains-add_name name step state.completed, h.completed step);
  failed = λ step.
      ground (arith, contains-remove_name name step state.failed h.once_failed, h.failed step);
}
record_result-Reflects name false now state seen h = record {
  once_completed = remove_name-Once name state.completed h.once_completed;
  once_failed = add_name-Once name state.failed h.once_failed;
  completed = λ step.
      ground
        (arith, contains-remove_name name step state.completed h.once_completed, h.completed step);
  failed = λ step. ground (arith, contains-add_name name step state.failed, h.failed step);
}

pub report_all-Reflects :
    (now : Time) (reports : List (String × Bool)) (state : JoinState) (seen : String → Option Bool)
    → Reflects state seen
    → Reflects (report_all now reports state) (λ step. last_report step (seen step) reports)
unfolding report_all
report_all-Reflects now [] state seen h = h
report_all-Reflects now ((name, success) ∷ reports) state seen h =
    report_all-Reflects now reports (record_result name success now state)
      (update name success seen) (record_result-Reflects name success now state seen h)
