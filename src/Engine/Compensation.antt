-- ===== src/Engine/Compensation.antt =====
-- engine.go: executeCompensationStep.
use floxy_pro.Prelude.{String, [], ltb, nat_eq, none, not, some, string_eq, suc, ◌&&◌, ◌∷◌}
use floxy_pro.Engine.Calls.{
  compensation_delay, definition_for, known_step, mark_step, say, schedule_after,
}
use floxy_pro.Engine.Env.{Env, ExecutionContext, Handler, Value, log}
use floxy_pro.Engine.Handlers.{interleave, variables_of}
use floxy_pro.Engine.Monad.{Action, call, choose, on_either, on_option, when, ◌>>=◌, ◌>>◌}
use floxy_pro.Engine.Names.{
  event_step_completed, event_step_failed, key_error, key_reason, key_retry_count,
}
use floxy_pro.Engine.Rollback.{about_step, too_many_retries}
use floxy_pro.Engine.Steps.{
  ask_steps, fail_workflow, has_failed_or_rolled_back_steps, has_steps_in_compensation,
  has_unfinished_steps,
}
use floxy_pro.Model.{StepDefinition, StepStatus, WorkflowInstance, WorkflowStep, priority_high}
use floxy_pro.Prelude.Maps.{insert, lookup}
use floxy_pro.Store.Steps.{update_step_compensation_retry}

unfoldable pub compensation_retry : Env → StepDefinition → WorkflowStep → String → Action Unit
unfolding schedule_after log compensation_delay
compensation_retry env undo row e =
    let attempts = suc row.compensation_retry_count in
    do
      call "update compensation retry"
          (update_step_compensation_retry row.id attempts StepStatus.compensation)
      schedule_after env "enqueue compensation retry" row.instance_id row.id priority_high
          (compensation_delay env undo attempts)
      log env row.instance_id (some row.id) event_step_failed (
          about_step row (
            (key_error, Value.text e)
            ∷ (key_retry_count, Value.number attempts)
            ∷ (key_reason, Value.text "compensation_retry")
            ∷ []))

unfoldable pub give_up_compensation : Env → WorkflowStep → String → Action Unit
unfolding mark_step log
give_up_compensation env row e = do
  mark_step env "update step status" row.id StepStatus.failed row.input (some e)
  log env row.instance_id (some row.id) event_step_failed
      (about_step row (say key_error too_many_retries))

unfoldable pub mark_rolled_back : Env → WorkflowStep → Action Unit
unfolding mark_step
mark_rolled_back env row =
    mark_step env "update step status" row.id StepStatus.rolled_back row.input none

-- The workflow fails once no step is unfinished or in compensation.
unfoldable pub settle_workflow : Env → WorkflowInstance → WorkflowStep → Action Unit
unfolding ask_steps fail_workflow
settle_workflow env instance row = do
  unfinished ← has_unfinished_steps row.instance_id
  compensating ← has_steps_in_compensation row.instance_id
  when (not unfinished && not compensating) (do
    broken ← has_failed_or_rolled_back_steps row.instance_id
    when broken (fail_workflow env row.instance_id instance))

unfoldable pub after_compensation : Env → WorkflowInstance → WorkflowStep → Action Unit
unfolding mark_rolled_back log settle_workflow
after_compensation env instance row = do
  mark_rolled_back env row
  log env row.instance_id (some row.id) event_step_completed (
      about_step row (
        (key_retry_count, Value.number row.compensation_retry_count)
        ∷ (key_reason, Value.text "compensation_success")
        ∷ []))
  settle_workflow env instance row

abbrev pub compensation_context : WorkflowStep → StepDefinition → ExecutionContext
compensation_context row undo = record {
  instance_id = row.instance_id;
  step_name = row.step_name;
  idempotency_key = row.idempotency_key;
  retry_count = row.compensation_retry_count;
  variables = insert "reason" (Value.text "compensation") (variables_of undo.metadata);
}

unfoldable pub run_compensation :
    Env → WorkflowInstance → WorkflowStep → StepDefinition → Handler → Action Unit
unfolding interleave compensation_retry give_up_compensation after_compensation
run_compensation env instance row undo handler = do
  interleave env
  on_either (handler (compensation_context row undo) row.input)
      (λ e.
        choose (ltb row.compensation_retry_count undo.max_retries)
          (compensation_retry env undo row e) (give_up_compensation env row e))
      (λ _. after_compensation env instance row)

unfoldable pub execute_compensation_step : Env → WorkflowInstance → WorkflowStep → Action Unit
unfolding definition_for known_step mark_rolled_back run_compensation
execute_compensation_step env instance row = do
  workflow ← definition_for instance
  def ← known_step "step definition not found: " row.step_name workflow.definition.steps
  on_option (lookup def.on_failure workflow.definition.steps) (mark_rolled_back env row) λ undo.
      on_option (lookup undo.handler env.handlers) (mark_rolled_back env row)
        (run_compensation env instance row undo)
