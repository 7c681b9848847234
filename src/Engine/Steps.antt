-- ===== src/Engine/Steps.antt =====
-- engine.go: enqueueNextSteps, createFirstStep, completeWorkflow and the questions about the steps of
-- an instance. The hooks that follow the end of a workflow can only write to the log.
pub mod Completed
pub mod Enqueued
use floxy_pro.Prelude.{
  Bool, List, Option, String, [], any, false, filter, if◌then◌else◌, nat_eq, none, not, some,
  string_eq, true, ℕ, ◌&&◌, ◌*◌, ◌==◌, ◌||◌, ◌∷◌,
}
use floxy_pro.Engine.Calls.{
  about, add_step, definition_for, known_step, mark_instance, say, schedule,
}
use floxy_pro.Engine.Env.{Env, Payload, Value, create_step_row, log, pending_step}
use floxy_pro.Engine.Forks.{is_pending_or_running}
use floxy_pro.Engine.Monad.{
  Action, attempt, call, call_bare, choose, done, for_each, for_each_from, on_result, pure, recover,
  when, ◌>>=◌, ◌>>◌,
}
use floxy_pro.Engine.Names.{
  event_step_completed, event_step_started, event_workflow_completed, event_workflow_failed,
  key_reason, key_workflow_id,
}
use floxy_pro.Engine.Walks.{is_save_point}
use floxy_pro.Graph.{Steps}
use floxy_pro.Model.{
  Duration, RawMessage, StepStatus, WorkflowInstance, WorkflowStatus, WorkflowStep, priority_high,
  priority_normal,
}
use floxy_pro.Prelude.Maps.{lookup}
use floxy_pro.Prelude.Sorting.{sort_by}
use floxy_pro.Store.DeadLetters.{is_paused}
use floxy_pro.Store.Definitions.{get_workflow_definition}
use floxy_pro.Store.Instances.{get_instance}
use floxy_pro.Store.Queue.{enqueue_step}
use floxy_pro.Store.Steps.{
  created_after, get_steps_by_instance, update_step, update_step_compensation_retry,
}

unfoldable pub ask_steps : (WorkflowStep → Bool) → ℕ → Action Bool
ask_steps holds id = do
  rows ← attempt (get_steps_by_instance id)
  on_result rows (λ _. pure false) (λ steps. pure (any holds steps))

abbrev pub is_unfinished : WorkflowStep → Bool
is_unfinished row = is_pending_or_running row.status || is_paused row.status

abbrev pub has_unfinished_steps : ℕ → Action Bool
has_unfinished_steps = ask_steps is_unfinished

abbrev pub is_failed_or_rolled_back : StepStatus → Bool
is_failed_or_rolled_back StepStatus.failed = true
is_failed_or_rolled_back StepStatus.rolled_back = true
is_failed_or_rolled_back _ = false

abbrev pub has_failed_or_rolled_back_steps : ℕ → Action Bool
has_failed_or_rolled_back_steps = ask_steps (λ row. is_failed_or_rolled_back row.status)

abbrev pub is_compensation : StepStatus → Bool
is_compensation StepStatus.compensation = true
is_compensation _ = false

abbrev pub has_steps_in_compensation : ℕ → Action Bool
has_steps_in_compensation = ask_steps (λ row. is_compensation row.status)

abbrev pub is_completed : StepStatus → Bool
is_completed StepStatus.completed = true
is_completed _ = false

abbrev pub is_dlq : WorkflowStatus → Bool
is_dlq WorkflowStatus.dlq = true
is_dlq _ = false

-- The step and its queue item for one name.
unfoldable pub enqueue_next_step : Env → ℕ → Steps → RawMessage → String → Action Unit
unfolding known_step add_step schedule
enqueue_next_step env id steps input name = do
  def ← known_step "step definition not found: " name steps
  row ← add_step env "create step" (pending_step id name def.type input def.max_retries)
  schedule env "enqueue step" id row.id priority_normal def.delay

unfoldable pub enqueue_next_steps : Env → ℕ → List String → RawMessage → Action Unit
unfolding enqueue_next_step definition_for
enqueue_next_steps env id names input = do
  instance ← call "get instance" (get_instance id)
  choose (is_dlq instance.status) done (do
    def ← definition_for instance
    for_each names (enqueue_next_step env id def.definition.steps input))

unfoldable pub create_first_step : Env → WorkflowInstance → Action WorkflowStep
unfolding known_step create_step_row
create_first_step env instance = do
  def ← call_bare (get_workflow_definition instance.workflow_id)
  first ← known_step "start step definition not found: " def.definition.start def.definition.steps
  call_bare (
      create_step_row env
        (pending_step instance.id def.definition.start first.type instance.input first.max_retries))

-- The save point that was created last, and the first of those at one time.
abbrev pub later_save_point : WorkflowStep → Option WorkflowStep → Option WorkflowStep
later_save_point row none = some row
later_save_point row (some last) = some (if created_after row last then row else last)

unfoldable pub last_save_point : List WorkflowStep → Option WorkflowStep → Option WorkflowStep
last_save_point [] last = last
last_save_point (row ∷ rows) last =
    last_save_point rows (if is_save_point row.step_type then later_save_point row last else last)

abbrev pub is_after : Option WorkflowStep → WorkflowStep → Bool
is_after none row = true
is_after (some save_point) row = created_after row save_point

abbrev pub to_undo : Option WorkflowStep → WorkflowStep → Bool
to_undo save_point row = is_completed row.status && is_after save_point row

abbrev pub is_compensated : Steps → WorkflowStep → Bool
is_compensated steps row = elim (lookup row.step_name steps) [
  | none ↦ false
  | some def ↦ not (def.on_failure == "")
]

unfoldable pub undo_without_handler : Env → ℕ → WorkflowStep → Action Unit
undo_without_handler env id row = do
  _ ← attempt (update_step row.id StepStatus.rolled_back row.input none env.now)
  log env id (some row.id) event_step_completed
      (about row.step_name key_reason "rolled_back_no_compensation")

-- `time.Millisecond * time.Duration(idx*10)`
abbrev pub stagger : ℕ → Duration
stagger index = index * 10 * 1000000

unfoldable pub enqueue_compensation : Env → ℕ → ℕ → WorkflowStep → Action Unit
enqueue_compensation env id index row = do
  marked ← attempt (update_step_compensation_retry row.id 0 StepStatus.compensation)
  on_result marked (λ _. done)
      λ _. do
        queued ← attempt (enqueue_step id (some row.id) priority_high (stagger index) env.now)
        on_result queued (λ _. done)
            λ _.
              log env id (some row.id) event_step_started
                (about row.step_name key_reason "enqueued_for_rollback_after_failure")

unfoldable pub enqueue_completed_steps_for_rollback : Env → ℕ → Action Unit
unfolding definition_for last_save_point undo_without_handler enqueue_compensation
enqueue_completed_steps_for_rollback env id = do
  rows ← call "get steps by instance" (get_steps_by_instance id)
  let save_point = last_save_point rows none
  instance ← call "get instance" (get_instance id)
  def ← definition_for instance
  let undone = filter (to_undo save_point) rows
  let compensated = is_compensated def.definition.steps
  for_each undone (λ row. when (not (compensated row)) (undo_without_handler env id row))
  for_each_from 0 (sort_by created_after (filter compensated undone)) (enqueue_compensation env id)

abbrev pub failed_steps_message : String
failed_steps_message = "workflow has failed or rolled back steps"

abbrev pub about_workflow : WorkflowInstance → Payload
about_workflow instance = say key_workflow_id instance.workflow_id

abbrev pub workflow_reason : WorkflowInstance → String → Payload
workflow_reason instance reason =
    (key_workflow_id, Value.text instance.workflow_id) ∷ (key_reason, Value.text reason) ∷ []

unfoldable pub fail_workflow : Env → ℕ → WorkflowInstance → Action Unit
unfolding mark_instance log
fail_workflow env id instance = do
  mark_instance env "update instance status to failed" id WorkflowStatus.failed ""
      (some failed_steps_message)
  log env id none event_workflow_failed (workflow_reason instance failed_steps_message)

unfoldable pub complete_workflow : Env → WorkflowInstance → RawMessage → Action Unit
unfolding ask_steps enqueue_completed_steps_for_rollback fail_workflow mark_instance log
complete_workflow env instance output = do
  broken ← has_failed_or_rolled_back_steps instance.id
  choose broken
      (do
        _ ← recover (enqueue_completed_steps_for_rollback env instance.id)
        compensating ← has_steps_in_compensation instance.id
        choose compensating
            (log env instance.id none event_workflow_failed
              (workflow_reason instance "compensation_in_progress"))
            (fail_workflow env instance.id instance))
      (do
        mark_instance env "update instance status" instance.id WorkflowStatus.completed output none
        log env instance.id none event_workflow_completed (about_workflow instance))
