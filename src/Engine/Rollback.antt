-- ===== src/Engine/Rollback.antt =====
-- engine.go: rollbackToSavePointOrRoot, rollbackStepsToSavePoint, rollbackStepChain,
-- rollbackStepChainWithVisited and rollbackStep. The map of visited steps is threaded through the
-- calls that share it, and the fuel bounds the depth of the recursion.
pub mod Attempts
use Prim.Native.String.{◌++◌ as str_append}
use floxy_pro.Prelude.{
  Bool, List, Option, String, [], contains, false, if◌then◌else◌, leb, nat_eq, none, some,
  string_eq, suc, true, zero, ℕ, ◌==◌, ◌||◌, ◌∷◌,
}
use floxy_pro.Engine.Calls.{compensation_delay, known_step, mark_step, say, schedule_after}
use floxy_pro.Engine.Env.{Env, Payload, Value, log}
use floxy_pro.Engine.Forks.{
  Branch, StepMap, determine_executed_branch, else_branch, next_branch, no_branch, step_map,
}
use floxy_pro.Engine.Monad.{
  Action, call, choose, done, fold_each, inside, on_option, out_of_fuel, pure, raise, when, ◌>>=◌,
  ◌>>◌,
}
use floxy_pro.Engine.Names.{
  event_step_failed, event_step_started, key_error, key_reason, key_retry_count, key_step_name,
  key_step_type,
}
use floxy_pro.Engine.Steps.{is_completed}
use floxy_pro.Engine.Walks.{
  find_nearest_save_point, is_condition, is_fork, is_parallel, is_unset_or_root, rounds,
}
use floxy_pro.Model.{
  DeadLetterRecord, StepDefinition, StepStatus, StepType, WorkflowDefinition, WorkflowStep,
  priority_high,
}
use floxy_pro.Prelude.Maps.{insert, lookup}
use floxy_pro.Store.DeadLetters.{create_dead_letter_record}
use floxy_pro.Store.Steps.{get_steps_by_instance, update_step_compensation_retry}

abbrev pub step_type_text : StepType → String
step_type_text StepType.task = "task"
step_type_text StepType.parallel = "parallel"
step_type_text StepType.condition = "condition"
step_type_text StepType.fork = "fork"
step_type_text StepType.join = "join"
step_type_text StepType.save_point = "save_point"
step_type_text StepType.human = "human"
step_type_text (StepType.other text) = text

abbrev pub about_step : WorkflowStep → Payload → Payload
about_step row more =
    (key_step_name, Value.text row.step_name)
    ∷ (key_step_type, Value.step_type row.step_type)
    ∷ more

abbrev pub dead_letter_of : String → WorkflowStep → Option String → String → DeadLetterRecord
dead_letter_of workflow_id row error reason = record {
  id = 0;
  instance_id = row.instance_id;
  workflow_id = workflow_id;
  step_id = row.id;
  step_name = row.step_name;
  step_type = step_type_text row.step_type;
  input = row.input;
  error = error;
  reason = reason;
  created_at = 0;
}

abbrev pub too_many_retries : String
too_many_retries = "compensation max retries exceeded"

unfoldable pub bury_step : Env → String → WorkflowStep → Action Unit
unfolding mark_step log
bury_step env workflow_id row = do
  mark_step env "update step status" row.id StepStatus.failed row.input none
  log env row.instance_id (some row.id) event_step_failed
      (about_step row (say key_error too_many_retries))
  call "create dead letter record" (
      create_dead_letter_record (dead_letter_of workflow_id row row.error too_many_retries) env.now)

unfoldable pub compensate_step : Env → StepDefinition → WorkflowStep → Action Unit
unfolding schedule_after log compensation_delay
compensate_step env undo row =
    let attempts = suc row.compensation_retry_count in
    do
      call "update step compensation retry"
          (update_step_compensation_retry row.id attempts StepStatus.compensation)
      schedule_after env "enqueue compensation step" row.instance_id row.id priority_high
          (compensation_delay env undo attempts)
      log env row.instance_id (some row.id) event_step_started (
          about_step row (
            (key_retry_count, Value.number attempts)
            ∷ (key_reason, Value.text "compensation")
            ∷ []))

unfoldable pub rollback_step : Env → WorkflowDefinition → WorkflowStep → Action Unit
unfolding known_step mark_step bury_step compensate_step
rollback_step env def row = do
  step_def ← known_step "step definition not found: " row.step_name def.definition.steps
  on_option (lookup step_def.on_failure def.definition.steps)
      (mark_step env "update step status" row.id StepStatus.rolled_back row.input none)
      (λ undo.
        choose (leb undo.max_retries row.compensation_retry_count) (bury_step env def.id row)
          (compensate_step env undo row))

abbrev pub branch_steps : StepDefinition → Branch → List String
branch_steps def next_branch = def.next
branch_steps def else_branch = def.else_branch ∷ []
branch_steps def no_branch = []

-- The steps that a rollback of a parallel branch goes on to.
unfoldable pub followed : StepMap → String → StepDefinition → List String
unfolding determine_executed_branch
followed rows name def =
    if is_condition def.type
    then elim (lookup name rows) [
      | none ↦ []
      | some row ↦
          if is_completed row.status
          then branch_steps def (determine_executed_branch def rows)
          else []
    ]
    else def.next

abbrev pub is_completed_or_failed : StepStatus → Bool
is_completed_or_failed StepStatus.completed = true
is_completed_or_failed StepStatus.failed = true
is_completed_or_failed _ = false

abbrev pub branches : Option StepDefinition → List String
branches none = []
branches (some def) = if is_fork def.type || is_parallel def.type then def.parallel else []

unfoldable pub roll_back_row : Env → WorkflowDefinition → StepMap → String → Action Unit
unfolding rollback_step
roll_back_row env def rows name = on_option (lookup name rows) done λ row.
    when (is_completed_or_failed row.status)
      (inside (str_append "rollback step " name) (rollback_step env def row))

module _ (env : Env) (def : WorkflowDefinition) (save_point : String) (rows : StepMap) where
  unfoldable pub rollback_step_chain_with_visited :
      ℕ → Bool → List String → String → Action (List String)
  unfolding roll_back_row known_step followed
  rollback_step_chain_with_visited zero parallel visited name = raise out_of_fuel
  rollback_step_chain_with_visited (suc fuel) parallel visited name =
      choose (contains visited name) (pure visited) (
        choose (name == save_point) (pure (name ∷ visited)) (do
          step_def ← known_step "step definition not found: " name def.definition.steps
          inner ←
              fold_each (branches (some step_def)) (name ∷ visited)
                (rollback_step_chain_with_visited fuel true)
          later ←
              fold_each (if parallel then followed rows name step_def else []) inner
                (rollback_step_chain_with_visited fuel true)
          roll_back_row env def rows name
          choose (parallel || is_unset_or_root step_def.prev) (pure later) (do
            siblings ←
                fold_each (branches (lookup step_def.prev def.definition.steps)) later
                  (rollback_step_chain_with_visited fuel true)
            rollback_step_chain_with_visited fuel false siblings step_def.prev)))

  -- A map of visited steps of its own, and fuel for a chain through every step.
  unfoldable pub rollback_step_chain : String → Action Unit
  unfolding rollback_step_chain_with_visited
  rollback_step_chain name = do
    _ ← rollback_step_chain_with_visited (rounds def.definition.steps) false [] name
    done

-- `if _, exists := stepMap[failedStep.StepName]; !exists { stepMap[…] = failedStep }`
abbrev pub with_failed : WorkflowStep → StepMap → StepMap
with_failed row rows = elim (lookup row.step_name rows) [
  | none ↦ insert row.step_name row rows
  | some _ ↦ rows
]

unfoldable pub rollback_steps_to_save_point :
    Env → ℕ → WorkflowStep → String → WorkflowDefinition → Action Unit
unfolding rollback_step_chain step_map
rollback_steps_to_save_point env id row save_point def = do
  rows ← call "get steps by instance" (get_steps_by_instance id)
  rollback_step_chain env def save_point (with_failed row (step_map rows [])) row.step_name

unfoldable pub rollback_to_save_point_or_root :
    Env → ℕ → WorkflowStep → WorkflowDefinition → Action Unit
unfolding rollback_steps_to_save_point find_nearest_save_point
rollback_to_save_point_or_root env id row def =
    rollback_steps_to_save_point env id row
      (find_nearest_save_point row.step_name def.definition.steps) def
