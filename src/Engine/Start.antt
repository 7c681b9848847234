-- ===== src/Engine/Start.antt =====
-- engine.go: validateDefinition, RegisterWorkflow, Start, RequeueFromDLQ, MakeHumanDecision and
-- isTerminalStatus.
pub mod Started
use mathlib.Core.Option
use Prim.Native.String.{◌++◌ as str_append}
use floxy_pro.Prelude.{
  Bool, Option, String, [], false, if◌then◌else◌, is_set, leb, length, nat_eq, none, not, some,
  string_eq, true, ℕ, ◌==◌, ◌∷◌,
}
use floxy_pro.Engine.Calls.{mark_instance, say}
use floxy_pro.Engine.Env.{Env, log, run_hooks}
use floxy_pro.Engine.Human.{about_decision, decided_status}
use floxy_pro.Engine.Monad.{
  Action, Fault, call, call_bare, choose, done, inside, invalid, message, on_option, pure, raise,
  when, within, ◌>>=◌, ◌>>◌,
}
use floxy_pro.Engine.Names.{event_step_completed, event_workflow_started, key_workflow_id}
use floxy_pro.Engine.Outcome.{continue_workflow_after_human_decision, is_waiting_decision}
use floxy_pro.Engine.Steps.{enqueue_next_steps}
use floxy_pro.Graph.{validate_workflow_definition}
use floxy_pro.Model.{
  HumanDecision, HumanDecisionRecord, RawMessage, StepStatus, Time, WorkflowDefinition,
  WorkflowInstance, WorkflowStatus, WorkflowStep,
}
use floxy_pro.Prelude.Maps.{lookup}
use floxy_pro.Store.DeadLetters.{requeue_dead_letter}
use floxy_pro.Store.Definitions.{get_workflow_definition, save_workflow_definition}
use floxy_pro.Store.Instances.{create_instance, get_instance, update_instance_status}
use floxy_pro.Store.Requests.{create_human_decision}
use floxy_pro.Store.Steps.{get_step_by_id, is_human, update_step_status}

unfoldable pub validate_definition : WorkflowDefinition → Option Fault
unfolding validate_workflow_definition
validate_definition def =
    if def.name == ""
    then some (message "workflow name is required")
    else if def.definition.start == ""
    then some (message "start step is required")
    else if leb (length def.definition.steps) 0
    then some (message "at least one step is required")
    else if not (is_set (lookup def.definition.start def.definition.steps))
    then some (message (str_append "start step not found: " def.definition.start))
    else Option.map invalid (validate_workflow_definition def)

unfoldable pub check_definition : WorkflowDefinition → Action Unit
unfolding validate_definition
check_definition def =
    on_option (validate_definition def) done (λ e. raise (within "invalid workflow definition" e))

-- `fresh` is `uuid.NewString()`.
unfoldable pub register_workflow : Env → String → WorkflowDefinition → Action Unit
unfolding check_definition
register_workflow env fresh def = do
  check_definition def
  call_bare (save_workflow_definition fresh env.now def)

unfoldable pub requeue_from_dlq : ℕ → Option RawMessage → Action Unit
requeue_from_dlq id new_input = call "requeue dead letter" (requeue_dead_letter id new_input)

unfoldable pub start_instance :
    Env → WorkflowDefinition → String → RawMessage → WorkflowInstance → Action ℕ
unfolding run_hooks log mark_instance enqueue_next_steps
start_instance env def workflow_id input instance = do
  run_hooks "plugin hook failed" (λ plugin. plugin.on_workflow_start instance) env.plugins
  log env instance.id none event_workflow_started (say key_workflow_id workflow_id)
  mark_instance env "update status" instance.id WorkflowStatus.running "" none
  choose (def.definition.start == "") (raise (message "no start step defined")) (
      inside "enqueue start step"
        (enqueue_next_steps env instance.id (def.definition.start ∷ []) input))
  pure instance.id

unfoldable pub start_workflow : Env → String → RawMessage → Action ℕ
unfolding check_definition start_instance
start_workflow env workflow_id input = do
  def ← call "get workflow definition" (get_workflow_definition workflow_id)
  check_definition def
  instance ← call "create instance" (create_instance workflow_id input env.now)
  start_instance env def workflow_id input instance

unfoldable pub is_terminal_status : WorkflowStatus → Bool
is_terminal_status WorkflowStatus.completed = true
is_terminal_status WorkflowStatus.failed = true
is_terminal_status WorkflowStatus.cancelled = true
is_terminal_status WorkflowStatus.aborted = true
is_terminal_status WorkflowStatus.dlq = true
is_terminal_status _ = false

abbrev pub decision_record :
    WorkflowStep → ℕ → String → HumanDecision → Option String → Time → HumanDecisionRecord
decision_record row step_id decided_by decision comment now = record {
  id = 0;
  instance_id = row.instance_id;
  step_id = step_id;
  decided_by = decided_by;
  decision = decision;
  comment = comment;
  decided_at = now;
  created_at = 0;
}

abbrev pub is_pending : WorkflowStatus → Bool
is_pending WorkflowStatus.pending = true
is_pending _ = false

abbrev pub step_status_text : StepStatus → String
step_status_text StepStatus.pending = "pending"
step_status_text StepStatus.running = "running"
step_status_text StepStatus.completed = "completed"
step_status_text StepStatus.failed = "failed"
step_status_text StepStatus.skipped = "skipped"
step_status_text StepStatus.compensation = "compensation"
step_status_text StepStatus.rolled_back = "rolled_back"
step_status_text StepStatus.waiting_decision = "waiting_decision"
step_status_text StepStatus.confirmed = "confirmed"
step_status_text StepStatus.rejected = "rejected"
step_status_text StepStatus.paused = "paused"

-- The workflow goes on after a confirmed decision. The step is the row that the store holds, as
-- GetStepByID of the in-memory store returns its own pointer: it shows the new status.
unfoldable pub resume_workflow : Env → WorkflowStep → Action Unit
unfolding mark_instance continue_workflow_after_human_decision
resume_workflow env row = do
  instance ← call "get instance" (get_instance row.instance_id)
  when (is_pending instance.status)
      (mark_instance env "update instance status" row.instance_id WorkflowStatus.running "" none)
  continue_workflow_after_human_decision env instance row

unfoldable pub after_decision : Env → WorkflowStep → HumanDecision → Action Unit
unfolding resume_workflow
after_decision env row HumanDecision.confirmed = resume_workflow env row
after_decision env row HumanDecision.rejected =
    call_bare
      (update_instance_status row.instance_id WorkflowStatus.aborted "" none env.now env.now)

abbrev pub not_human : Env → ℕ → Fault
not_human env id = message (str_append "step " (str_append (env.show id) " is not a human step"))

abbrev pub not_waiting : Env → ℕ → StepStatus → Fault
not_waiting env id status = message (
    str_append "step " (
      str_append (env.show id) (
        str_append " is not waiting for decision (current status: "
          (str_append (step_status_text status) ")"))))

unfoldable pub make_human_decision : Env → ℕ → String → HumanDecision → Option String → Action Unit
unfolding log after_decision
make_human_decision env id decided_by decision comment = do
  row ← call "get step" (get_step_by_id id)
  choose (is_human row.step_type) done (raise (not_human env id))
  choose (is_waiting_decision row.status) done (raise (not_waiting env id row.status))
  call "create human decision"
      (create_human_decision (decision_record row id decided_by decision comment env.now) env.now)
  call "update step status" (update_step_status id (decided_status decision))
  log env row.instance_id (some id) event_step_completed (about_decision row decision decided_by)
  after_decision env (record row { status = decided_status decision }) decision
