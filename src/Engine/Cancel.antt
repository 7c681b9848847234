-- ===== src/Engine/Cancel.antt =====
-- engine.go: stopActiveSteps, handleCancellation, CancelWorkflow, AbortWorkflow, GetStatus and GetSteps.
pub mod Requests
use Prim.Native.String.{◌++◌ as str_append}
use floxy_pro.Prelude.{
  Bool, List, Option, String, [], false, if◌then◌else◌, nat_eq, none, some, string_eq, true, ℕ,
  ◌++◌, ◌∷◌,
}
use floxy_pro.Engine.Calls.{about, definition_for, mark_instance, mark_step, say}
use floxy_pro.Engine.Env.{Env, Payload, Value, fault_text, log}
use floxy_pro.Engine.Forks.{step_map}
use floxy_pro.Engine.Monad.{
  Action, Fault, call, call_bare, choose, done, for_each, ignore, inside, message, on_either,
  on_option, pure, raise, recover, within, ◌>>=◌, ◌>>◌,
}
use floxy_pro.Engine.Names.{
  event_abort_started, event_cancellation_started, event_step_failed, event_workflow_aborted,
  event_workflow_cancelled, key_cancel_type, key_error, key_reason, key_requested_by,
}
use floxy_pro.Engine.Rollback.{rollback_step_chain}
use floxy_pro.Engine.Steps.{is_completed}
use floxy_pro.Graph.{root_step_name}
use floxy_pro.Model.{
  CancelType, StepStatus, WorkflowCancelRequest, WorkflowDefinition, WorkflowInstance,
  WorkflowStatus, WorkflowStep,
}
use floxy_pro.Store.Instances.{get_instance, update_instance_status}
use floxy_pro.Store.Requests.{create_cancel_request, delete_cancel_request}
use floxy_pro.Store.Steps.{get_active_steps_for_update, get_steps_by_instance}

abbrev pub status_text : WorkflowStatus → String
status_text WorkflowStatus.pending = "pending"
status_text WorkflowStatus.running = "running"
status_text WorkflowStatus.completed = "completed"
status_text WorkflowStatus.failed = "failed"
status_text WorkflowStatus.rolling_back = "rolling_back"
status_text WorkflowStatus.cancelling = "cancelling"
status_text WorkflowStatus.cancelled = "cancelled"
status_text WorkflowStatus.aborted = "aborted"
status_text WorkflowStatus.dlq = "dlq"

abbrev pub stop_message : String
stop_message = "Stopped due to workflow cancellation/abort"

unfoldable pub stop_step : Env → ℕ → WorkflowStep → Action Unit
unfolding mark_step log
stop_step env id row = do
  mark_step env (str_append "update step " (str_append (env.show row.id) " status to skipped"))
      row.id StepStatus.skipped "" (some stop_message)
  log env id (some row.id) event_step_failed (about row.step_name key_reason "workflow_stopped")

unfoldable pub stop_active_steps : Env → ℕ → Action Unit
unfolding stop_step
stop_active_steps env id = do
  rows ← call "get active steps" (get_active_steps_for_update id)
  for_each rows (stop_step env id)

-- The last completed step, in the order of the listing.
unfoldable pub last_completed : List WorkflowStep → Option WorkflowStep → Option WorkflowStep
last_completed [] last = last
last_completed (row ∷ rows) last =
    last_completed rows (if is_completed row.status then some row else last)

abbrev pub or_no_reason : Option String → String
or_no_reason none = ""
or_no_reason (some words) = words

abbrev pub requested : WorkflowCancelRequest → Payload
requested req =
    (key_requested_by, Value.text req.requested_by)
    ∷ (key_reason, Value.text (or_no_reason req.reason))
    ∷ []

abbrev pub by_request : String → WorkflowCancelRequest → String
by_request verb req =
    str_append verb
      (str_append " by " (str_append req.requested_by (str_append ": " (or_no_reason req.reason))))

unfoldable pub cancel_rollback_failed :
    Env → WorkflowInstance → WorkflowStep → WorkflowCancelRequest → Fault → Action Unit
unfolding log fault_text
cancel_rollback_failed env instance row req e = do
  log env instance.id (some row.id) event_workflow_cancelled
      (requested req ++ say key_error (str_append "rollback failed: " (fault_text env e)))
  ignore (
      update_instance_status instance.id WorkflowStatus.failed ""
        (some (str_append "cancellation rollback failed: " (fault_text env e))) env.now env.now)
  ignore (delete_cancel_request instance.id)
  raise (within "rollback failed" e)

unfoldable pub roll_back_completed :
    Env
    → WorkflowInstance
    → WorkflowStep
    → WorkflowCancelRequest
    → WorkflowDefinition
    → List WorkflowStep
    → Action Unit
unfolding rollback_step_chain step_map cancel_rollback_failed last_completed
roll_back_completed env instance row req def rows =
    on_option (last_completed rows none) done λ last. do
      rolled_back ←
          recover (rollback_step_chain env def root_step_name (step_map rows []) last.step_name)
      on_either rolled_back (cancel_rollback_failed env instance row req) pure

unfoldable pub cancel_instance :
    Env → WorkflowInstance → WorkflowStep → WorkflowCancelRequest → Action Unit
unfolding mark_instance definition_for roll_back_completed log
cancel_instance env instance row req = do
  mark_instance env "update instance status to cancelling" instance.id WorkflowStatus.cancelling ""
      none
  def ← definition_for instance
  rows ← call "get steps" (get_steps_by_instance instance.id)
  roll_back_completed env instance row req def rows
  mark_instance env "update instance status to cancelled" instance.id WorkflowStatus.cancelled ""
      (some (by_request "Cancelled" req))
  log env instance.id (some row.id) event_workflow_cancelled (requested req)

unfoldable pub abort_instance :
    Env → WorkflowInstance → WorkflowStep → WorkflowCancelRequest → Action Unit
unfolding mark_instance log
abort_instance env instance row req = do
  mark_instance env "update instance status to aborted" instance.id WorkflowStatus.aborted ""
      (some (by_request "Aborted" req))
  log env instance.id (some row.id) event_workflow_aborted (requested req)

abbrev pub is_cancel : CancelType → Bool
is_cancel CancelType.cancel = true
is_cancel CancelType.abort = false

unfoldable pub handle_cancellation :
    Env → WorkflowInstance → WorkflowStep → WorkflowCancelRequest → Action Unit
unfolding stop_active_steps cancel_instance abort_instance
handle_cancellation env instance row req = do
  inside "stop active steps" (stop_active_steps env instance.id)
  choose (is_cancel req.cancel_type) (cancel_instance env instance row req)
      (abort_instance env instance row req)
  ignore (delete_cancel_request instance.id)

-- The statuses that CancelWorkflow and AbortWorkflow refuse.
abbrev pub is_over : WorkflowStatus → Bool
is_over WorkflowStatus.completed = true
is_over WorkflowStatus.failed = true
is_over WorkflowStatus.cancelled = true
is_over WorkflowStatus.aborted = true
is_over _ = false

abbrev pub cancel_request : ℕ → String → CancelType → String → WorkflowCancelRequest
cancel_request id requested_by cancel_type reason = record {
  id = 0;
  instance_id = id;
  requested_by = requested_by;
  cancel_type = cancel_type;
  reason = some reason;
  created_at = 0;
}

abbrev pub already_over : Env → ℕ → WorkflowStatus → Fault
already_over env id status = message (
    str_append "workflow " (
      str_append (env.show id) (str_append " is already in terminal state: " (status_text status))))

-- The body that both methods repeat.
unfoldable pub request_stop : Env → ℕ → String → String → CancelType → String → Action Unit
unfolding log
request_stop env id requested_by reason cancel_type event = do
  instance ← call "get instance" (get_instance id)
  choose (is_over instance.status) (raise (already_over env id instance.status)) (do
    call "create cancel request"
        (create_cancel_request (cancel_request id requested_by cancel_type reason) env.now)
    log env id none event (
        (key_requested_by, Value.text requested_by)
        ∷ (key_reason, Value.text reason)
        ∷ (key_cancel_type, Value.cancel_type cancel_type)
        ∷ []))

unfoldable pub cancel_workflow : Env → ℕ → String → String → Action Unit
unfolding request_stop
cancel_workflow env id requested_by reason =
    request_stop env id requested_by reason CancelType.cancel event_cancellation_started

unfoldable pub abort_workflow : Env → ℕ → String → String → Action Unit
unfolding request_stop
abort_workflow env id requested_by reason =
    request_stop env id requested_by reason CancelType.abort event_abort_started

unfoldable pub get_status : ℕ → Action WorkflowStatus
get_status id = do instance ← call "get instance" (get_instance id); pure instance.status

unfoldable pub get_steps : ℕ → Action (List WorkflowStep)
get_steps id = call_bare (get_steps_by_instance id)
