-- ===== src/Engine/Outcome.antt =====
-- engine.go: handleStepSuccess, handleStepFailure and continueWorkflowAfterHumanDecision.
-- For these the hooks that can only write to the log are left out.
pub mod Retried
pub mod Failed
pub mod Frozen
use floxy_pro.Prelude.{
  Bool, Option, String, [], false, if◌then◌else◌, leb, length, ltb, nat_eq, none, not, some,
  string_eq, suc, true, ℕ, ◌&&◌, ◌==◌, ◌||◌, ◌∷◌,
}
use floxy_pro.Engine.Branches.{
  note_error, replace_in_branch, stop_parallel_branches_in_fork, update_branch_join,
}
use floxy_pro.Engine.Calls.{about, definition_for, known_step, mark_instance, mark_step, say}
use floxy_pro.Engine.Env.{Env, Value, fault_text, log}
use floxy_pro.Engine.Forks.{is_step_in_fork_branch}
use floxy_pro.Engine.Joins.{notify_join_steps}
use floxy_pro.Engine.Monad.{
  Action, Fault, attempt, call, call_bare, choose, done, for_each, inside, on_either, on_option,
  on_result, pure, reads, recover, when, ◌>>=◌, ◌>>◌,
}
use floxy_pro.Engine.Names.{
  event_step_completed, event_step_failed, event_step_retry, key_error, key_reason, key_retry_count,
  key_step_name,
}
use floxy_pro.Engine.Rollback.{dead_letter_of, rollback_to_save_point_or_root}
use floxy_pro.Engine.Steps.{ask_steps, complete_workflow, enqueue_next_steps, has_unfinished_steps}
use floxy_pro.Engine.Walks.{find_condition_step_in_branch}
use floxy_pro.Graph.{Steps}
use floxy_pro.Model.{
  RawMessage, StepDefinition, StepStatus, WorkflowDefinition, WorkflowInstance, WorkflowStatus,
  WorkflowStep, priority_high,
}
use floxy_pro.Store.DeadLetters.{create_dead_letter_record, is_join}
use floxy_pro.Store.Definitions.{get_workflow_definition}
use floxy_pro.Store.Defs.{Result, err, found, ok}
use floxy_pro.Store.Queue.{enqueue_step}
use floxy_pro.Store.Steps.{is_human, pause_active_steps_and_clear_queue}

abbrev pub is_waiting_decision : StepStatus → Bool
is_waiting_decision StepStatus.waiting_decision = true
is_waiting_decision _ = false

-- `(next && len(stepDef.Next) == 0) || (!next && stepDef.Else == "")`
abbrev pub is_last : StepDefinition → Bool → Bool
is_last def true = leb (length def.next) 0
is_last def false = def.else_branch == ""

unfoldable pub finish_if_done : Env → WorkflowInstance → RawMessage → Action Unit
unfolding complete_workflow ask_steps
finish_if_done env instance output = do
  unfinished ← has_unfinished_steps instance.id
  choose unfinished done (complete_workflow env instance output)

unfoldable pub enqueue_unless_join : Env → ℕ → Steps → RawMessage → String → Action Unit
unfolding known_step enqueue_next_steps
enqueue_unless_join env id steps output name = do
  def ← known_step "next step definition not found: " name steps
  choose (is_join def.type) done (enqueue_next_steps env id (name ∷ []) output)

unfoldable pub follow_next : Env → ℕ → StepDefinition → Steps → RawMessage → Bool → Action Unit
unfolding enqueue_unless_join enqueue_next_steps
follow_next env id def steps output true =
    for_each def.next (enqueue_unless_join env id steps output)
follow_next env id def steps output false = enqueue_next_steps env id (def.else_branch ∷ []) output

unfoldable pub handle_step_success :
    Env → WorkflowInstance → WorkflowStep → StepDefinition → RawMessage → Bool → Action Unit
unfolding mark_step log definition_for update_branch_join notify_join_steps finish_if_done
    follow_next
handle_step_success env instance row def output next =
    choose (is_human def.type && is_waiting_decision row.status) done (do
      mark_step env "update step" row.id StepStatus.completed output none
      log env instance.id (some row.id) event_step_completed (say key_step_name row.step_name)
      found ← attempt (get_workflow_definition instance.workflow_id)
      on_result found (λ _. done)
          (λ workflow. update_branch_join env instance.id row def workflow.definition.steps)
      inside "notify join steps" (notify_join_steps env instance.id row.step_name true)
      choose (is_last def next) (finish_if_done env instance output) (do
        workflow ← on_result found (λ _. definition_for instance) pure
        follow_next env instance.id def workflow.definition.steps output next))

-- The condition of the retry.
unfoldable pub can_retry : StepDefinition → WorkflowStep → Bool
can_retry def row =
    (row.retry_count == 0 && ltb 0 def.max_retries)
    || (ltb 0 row.retry_count && ltb row.retry_count row.max_retries && not def.no_idempotent)

unfoldable pub retry_step :
    Env → WorkflowInstance → WorkflowStep → StepDefinition → String → Action Unit
unfolding mark_step log
retry_step env instance row def e = do
  mark_step env "update step" row.id StepStatus.failed "" (some e)
  log env instance.id (some row.id) event_step_retry (
      (key_step_name, Value.text row.step_name)
      ∷ (key_retry_count, Value.number (suc row.retry_count))
      ∷ (key_error, Value.text e)
      ∷ [])
  call_bare (enqueue_step instance.id (some row.id) priority_high def.delay env.now)

abbrev pub dlq_reason : String
dlq_reason = "dlq enabled: rollback/compensation skipped"

unfoldable pub park_in_dlq :
    Env → WorkflowInstance → WorkflowStep → WorkflowDefinition → String → Action Unit
unfolding mark_step mark_instance log notify_join_steps
park_in_dlq env instance row def e = do
  mark_step env "update step (paused)" row.id StepStatus.paused "" (some e)
  log env instance.id (some row.id) event_step_failed (
      (key_step_name, Value.text row.step_name)
      ∷ (key_error, Value.text e)
      ∷ (key_reason, Value.text "dlq")
      ∷ [])
  inside "notify join steps" (notify_join_steps env instance.id row.step_name false)
  call "create dead letter record"
      (create_dead_letter_record (dead_letter_of def.id row (some e) dlq_reason) env.now)
  call "freeze instance for dlq" (pause_active_steps_and_clear_queue instance.id)
  mark_instance env "update instance status to dlq" instance.id WorkflowStatus.dlq "" (some e)

-- The join of a failed branch of a condition.
unfoldable pub replace_failed : Env → ℕ → WorkflowStep → StepDefinition → Steps → Action Unit
unfolding replace_in_branch find_condition_step_in_branch
replace_failed env id row step_def steps =
    let condition = find_condition_step_in_branch step_def steps in
    when (not (condition == ""))
      (replace_in_branch env id row event_step_failed " (failed)" false steps condition)

unfoldable pub stop_and_roll_back : Env → ℕ → WorkflowStep → WorkflowDefinition → Action Unit
unfolding is_step_in_fork_branch stop_parallel_branches_in_fork rollback_to_save_point_or_root
    note_error
stop_and_roll_back env id row def = do
  in_fork ← reads (is_step_in_fork_branch id row.step_name)
  _ ←
      recover
        (when in_fork (stop_parallel_branches_in_fork env id row.step_name def.definition.steps))
  rolled_back ← recover (rollback_to_save_point_or_root env id row def)
  on_either rolled_back (note_error env id row event_step_failed "rollback failed: ") (λ _. done)

-- The step has failed, and the joins are told; the result is the definition, if it was found.
unfoldable pub note_failure :
    Env
    → WorkflowInstance
    → WorkflowStep
    → StepDefinition
    → String
    → Action (Result WorkflowDefinition)
unfolding mark_step log replace_failed notify_join_steps
note_failure env instance row step_def e = do
  mark_step env "update step" row.id StepStatus.failed "" (some e)
  log env instance.id (some row.id) event_step_failed (about row.step_name key_error e)
  found ← attempt (get_workflow_definition instance.workflow_id)
  on_result found (λ _. done)
      (λ def. replace_failed env instance.id row step_def def.definition.steps)
  inside "notify join steps" (notify_join_steps env instance.id row.step_name false)
  pure found

unfoldable pub fail_for_good :
    Env → WorkflowInstance → WorkflowStep → StepDefinition → String → Action Unit
unfolding note_failure mark_instance stop_and_roll_back
fail_for_good env instance row step_def e = do
  found ← note_failure env instance row step_def e
  again ←
      on_result found (λ _. attempt (get_workflow_definition instance.workflow_id))
        (λ def. pure (ok def))
  on_result again (λ _. done) (stop_and_roll_back env instance.id row)
  mark_instance env "update instance status" instance.id WorkflowStatus.failed "" (some e)

abbrev pub if_dlq : Result WorkflowDefinition → Option WorkflowDefinition
if_dlq (err e) = none
if_dlq (ok def) = if def.definition.dlq_enabled then some def else none

unfoldable pub handle_step_failure :
    Env → WorkflowInstance → WorkflowStep → StepDefinition → Fault → Action Unit
unfolding can_retry retry_step park_in_dlq fail_for_good fault_text
handle_step_failure env instance row step_def e =
    let words = fault_text env e in
    choose (can_retry step_def row) (retry_step env instance row step_def words) (do
      found ← attempt (get_workflow_definition instance.workflow_id)
      on_option (if_dlq found) (fail_for_good env instance row step_def words)
          (λ def. park_in_dlq env instance row def words))

unfoldable pub continue_workflow_after_human_decision :
    Env → WorkflowInstance → WorkflowStep → Action Unit
unfolding definition_for known_step handle_step_success
continue_workflow_after_human_decision env instance row = do
  def ← definition_for instance
  step_def ← known_step "step definition not found: " row.step_name def.definition.steps
  handle_step_success env instance row step_def "{\"status\": \"confirmed\"}" true
