-- ===== src/Engine/Execute.antt =====
-- engine.go: executeStep.
-- A request to cancel that the store holds ends the handling.
use Prim.Native.String.{◌++◌ as str_append}
use floxy_pro.Prelude.{Bool, [], false, inl, inr, nat_eq, none, some, string_eq, true, ◌∷◌, ◌⊎◌}
use floxy_pro.Engine.Calls.{definition_for, known_step, mark_step}
use floxy_pro.Engine.Cancel.{handle_cancellation}
use floxy_pro.Engine.Env.{Env, Value, log, run_hooks}
use floxy_pro.Engine.Forks.{ran}
use floxy_pro.Engine.Handlers.{execute_condition, execute_fork, execute_join, execute_task}
use floxy_pro.Engine.Human.{Ran, aborted, execute_human, finished}
use floxy_pro.Engine.Monad.{
  Action, Fault, attempt, choose, done, message, on_either, on_result, pure, raise, recover, ◌>>=◌,
  ◌>>◌,
}
use floxy_pro.Engine.Names.{event_step_started, key_step_name, key_step_type}
use floxy_pro.Engine.Outcome.{handle_step_failure, handle_step_success}
use floxy_pro.Engine.Steps.{is_dlq}
use floxy_pro.Model.{
  RawMessage, StepDefinition, StepStatus, StepType, WorkflowInstance, WorkflowStep,
}
use floxy_pro.Store.Requests.{get_cancel_request}

unfoldable pub unless_cancelled :
    Bool → Env → WorkflowInstance → WorkflowStep → Action Unit → Action Unit
unfolding handle_cancellation
unless_cancelled asked env instance row next =
    choose asked
      (do
        request ← attempt (get_cancel_request instance.id)
        on_result request (λ _. next) (handle_cancellation env instance row))
      next

abbrev pub finishing : WorkflowStep → Action RawMessage → Action Ran
finishing row m = m >>= λ output. pure (finished output true row)

-- The switch on the type of the step.
unfoldable pub dispatch :
    Env → WorkflowInstance → WorkflowStep → StepDefinition → StepType → Action Ran
unfolding execute_task execute_fork execute_join execute_condition execute_human
dispatch env instance row def StepType.task = finishing row (execute_task env instance row def)
dispatch env instance row def StepType.fork = finishing row (execute_fork env instance row def)
dispatch env instance row def StepType.join = finishing row (execute_join env instance row)
dispatch env instance row def StepType.parallel = finishing row (execute_fork env instance row def)
dispatch env instance row def StepType.save_point = pure (finished row.input true row)
dispatch env instance row def StepType.condition =
    execute_condition env instance row def >>= λ result. pure (finished result.0 result.1 row)
dispatch env instance row def StepType.human = execute_human env instance row def
dispatch env instance row def (StepType.other text) =
    raise (message (str_append "unsupported step type: " text))

abbrev pub is_aborted : Fault ⊎ Ran → Bool
is_aborted (inl e) = false
is_aborted (inr (finished _ _ _)) = false
is_aborted (inr aborted) = true

unfoldable pub succeed : Env → WorkflowInstance → StepDefinition → Ran → Action Unit
unfolding handle_step_success
succeed env instance def (finished output next row) =
    handle_step_success env instance row def output next
succeed env instance def aborted = done

unfoldable pub run_step : Env → WorkflowInstance → WorkflowStep → StepDefinition → Action Unit
unfolding mark_step log dispatch unless_cancelled handle_step_failure succeed
run_step env instance row def = do
  mark_step env "update step status" row.id StepStatus.running "" none
  log env instance.id (some row.id) event_step_started
      ((key_step_name, Value.text row.step_name) ∷ (key_step_type, Value.step_type def.type) ∷ [])
  ran ← recover (dispatch env instance row def def.type)
  choose (is_aborted ran) done (
      unless_cancelled env.cancelled env instance row
        (on_either ran (handle_step_failure env instance row def) (succeed env instance def)))

unfoldable pub execute_step : Env → WorkflowInstance → WorkflowStep → Action Unit
unfolding definition_for known_step run_hooks unless_cancelled run_step
execute_step env instance row = choose (is_dlq instance.status) done (do
  workflow ← definition_for instance
  def ← known_step "step definition not found: " row.step_name workflow.definition.steps
  run_hooks "plugin hook OnStepStart failed" (λ plugin. plugin.on_step_start instance row)
      env.plugins
  unless_cancelled true env instance row (run_step env instance row def))
