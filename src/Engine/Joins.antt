-- ===== src/Engine/Joins.antt =====
-- engine.go: notifyJoinStepsForStep and notifyJoinSteps, with the part that both repeat.
use Prim.Native.String.{◌++◌ as str_append}
use floxy_pro.Prelude.{
  Bool, Option, String, [], any, contains, false, find?, if◌then◌else◌, nat_eq, none, not, some,
  string_eq, ℕ, ◌&&◌, ◌==◌, ◌||◌, ◌∷◌,
}
use floxy_pro.Engine.Calls.{add_step, say, schedule}
use floxy_pro.Engine.Env.{Env, Value, log, pending_step}
use floxy_pro.Engine.Forks.{has_pending_steps_in_parallel_branches}
use floxy_pro.Engine.Monad.{
  Action, attempt, call, call_bare, choose, for_each, ignore, message, on_result, or_raise, pure,
  reads, when, ◌>>=◌, ◌>>◌,
}
use floxy_pro.Engine.Names.{
  event_join_ready, event_join_updated, key_completed_step, key_is_ready, key_join_step,
  key_success,
}
use floxy_pro.Engine.Steps.{is_dlq}
use floxy_pro.Model.{
  RawMessage, StepDefinition, StepStatus, StepType, WorkflowInstance, WorkflowStep, priority_normal,
}
use floxy_pro.Prelude.Maps.{lookup}
use floxy_pro.Store.DeadLetters.{is_join}
use floxy_pro.Store.Definitions.{get_workflow_definition}
use floxy_pro.Store.Instances.{get_instance}
use floxy_pro.Store.Joins.{get_join_state, update_join_state}
use floxy_pro.Store.Steps.{get_steps_by_instance}

abbrev pub named : String → WorkflowStep → Bool
named name row = row.step_name == name

abbrev pub input_of : Option WorkflowStep → RawMessage
input_of none = ""
input_of (some row) = row.input

unfoldable pub log_join_updated : Env → ℕ → String → String → Bool → Bool → Action Unit
log_join_updated env id name completed success ready = log env id none event_join_updated (
    (key_join_step, Value.text name)
    ∷ (key_completed_step, Value.text completed)
    ∷ (key_success, Value.flag success)
    ∷ (key_is_ready, Value.flag ready)
    ∷ [])

-- The step of a join that is ready: paused, and not in the queue, while the instance is in the DLQ.
unfoldable pub create_join_step : Env → WorkflowInstance → ℕ → String → RawMessage → Action Unit
unfolding add_step schedule log
create_join_step env instance id name input =
    let row = pending_step id name StepType.join input 0 in
    choose (is_dlq instance.status)
      (do
        created ← add_step env "create join step" (record row { status = StepStatus.paused })
        log env id (some created.id) event_join_ready (say key_join_step name))
      (do
        created ← add_step env "create join step" row
        schedule env "enqueue join step" id created.id priority_normal 0
        log env id (some created.id) event_join_ready (say key_join_step name))

-- What both methods do for one join once they have its definition.
unfoldable pub notify_join :
    Env → WorkflowInstance → ℕ → String → StepDefinition → String → Bool → Action Unit
unfolding has_pending_steps_in_parallel_branches log_join_updated create_join_step
notify_join env instance id name def completed success = do
  updated ←
      call (str_append "update join state for " name)
        (update_join_state id name completed success env.now)
  choose updated
      (do
        rows ← call_bare (get_steps_by_instance id)
        pending ← reads (has_pending_steps_in_parallel_branches id def rows)
        when pending (ignore (update_join_state id name completed success env.now))
        log_join_updated env id name completed success (not pending)
        when (not pending && not (any (named name) rows))
            (create_join_step env instance id name (input_of (find? (named completed) rows))))
      (log_join_updated env id name completed success false)

abbrev pub join_only : Option StepDefinition → Option StepDefinition
join_only none = none
join_only (some def) = if is_join def.type then some def else none

unfoldable pub notify_join_steps_for_step : Env → ℕ → String → String → Bool → Action Unit
unfolding notify_join
notify_join_steps_for_step env id name completed success = do
  instance ← call_bare (get_instance id)
  def ← call_bare (get_workflow_definition instance.workflow_id)
  join ←
      or_raise (join_only (lookup name def.definition.steps))
        (message (str_append "join step " (str_append name " not found or not a join step")))
  notify_join env instance id name join completed success

-- Does the join wait for the step, by its state or by its definition?
unfoldable pub is_awaited_by : ℕ → String → StepDefinition → String → Action Bool
is_awaited_by id name def completed = do
  state ← attempt (get_join_state id name)
  on_result state (λ _. pure (contains def.wait_for completed))
      (λ j. pure (contains j.waiting_for completed || contains def.wait_for completed))

unfoldable pub notify_if_awaited :
    Env → WorkflowInstance → ℕ → String → Bool → String × StepDefinition → Action Unit
unfolding is_awaited_by notify_join
notify_if_awaited env instance id completed success (name, def) = when (is_join def.type) (do
  awaited ← is_awaited_by id name def completed
  when awaited (notify_join env instance id name def completed success))

unfoldable pub notify_join_steps : Env → ℕ → String → Bool → Action Unit
unfolding notify_if_awaited
notify_join_steps env id completed success = do
  instance ← call_bare (get_instance id)
  def ← call_bare (get_workflow_definition instance.workflow_id)
  for_each def.definition.steps (notify_if_awaited env instance id completed success)
