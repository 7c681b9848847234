-- ===== src/Engine/Branches.antt =====
-- engine.go: what handleStepSuccess and handleStepFailure do with the join of a fork branch, and
-- stopParallelBranchesInFork.
use Prim.Native.String.{◌++◌ as str_append}
use floxy_pro.Prelude.{
  Bool, List, Option, String, [], any, contains, false, if◌then◌else◌, nat_eq, none, not, some,
  string_eq, true, ℕ, ◌&&◌, ◌==◌, ◌∷◌,
}
use floxy_pro.Engine.Calls.{about}
use floxy_pro.Engine.Env.{Env, Value, fault_text, log}
use floxy_pro.Engine.Forks.{
  find_fork_step_for_parallel_step, find_join_step_for_fork_branch, is_pending_or_running,
  is_terminal_step_in_fork_branch,
}
use floxy_pro.Engine.Joins.{notify_join_steps_for_step}
use floxy_pro.Engine.Monad.{
  Action, Fault, attempt, attempt_locked, call, choose, done, for_each, on_either, on_option,
  on_result, reads, recover, store_error, when, ◌>>=◌, ◌>>◌,
}
use floxy_pro.Engine.Names.{
  event_step_completed, event_step_failed, key_error, key_message, key_reason, key_step_name,
}
use floxy_pro.Engine.Walks.{find_condition_step_in_branch, is_fork, is_step_in_parallel_branch}
use floxy_pro.Graph.{Steps, is_virtual_step}
use floxy_pro.Model.{StepDefinition, StepStatus, WorkflowStep}
use floxy_pro.Prelude.Maps.{lookup}
use floxy_pro.Store.Joins.{
  add_to_join_wait_for, create_join_state, get_join_state, or_all, replace_in_join_wait_for,
}
use floxy_pro.Store.Steps.{get_steps_by_instance, update_step}

unfoldable pub note_error : Env → ℕ → WorkflowStep → String → String → Fault → Action Unit
unfolding log fault_text
note_error env id row event words e =
    log env id (some row.id) event
      (about row.step_name key_error (str_append words (fault_text env e)))

abbrev pub replaced_words : String → String → String → String → String
replaced_words virtual name join ending = str_append "Replaced virtual step " (
    str_append virtual
      (str_append " with " (str_append name (str_append " in join " (str_append join ending)))))

-- The virtual step of a condition gives way to the step that has ended its branch.
unfoldable pub replace_virtual_step :
    Env → ℕ → WorkflowStep → String → String → Bool → String → String → Action Unit
unfolding note_error notify_join_steps_for_step log
replace_virtual_step env id row event ending success join condition =
    let virtual = str_append "cond#" condition in
    do
      replaced ←
          attempt_locked (replace_in_join_wait_for false id join virtual row.step_name env.now)
      on_result replaced
          (λ e.
            note_error env id row event "Failed to replace virtual step in join waitFor: "
              (store_error e))
          (λ _. do
            log env id (some row.id) event
                (about row.step_name key_message (replaced_words virtual row.step_name join ending))
            notified ← recover (notify_join_steps_for_step env id join row.step_name success)
            on_either notified
                (note_error env id row event
                  "Failed to notify join after virtual step replacement: ")
                (λ _. done))

-- `if conditionStepName != "" { … if joinStepName != "" { … } }`
unfoldable pub replace_in_branch :
    Env → ℕ → WorkflowStep → String → String → Bool → Steps → String → Action Unit
unfolding replace_virtual_step find_join_step_for_fork_branch
replace_in_branch env id row event ending success steps condition = do
  join ← reads (find_join_step_for_fork_branch id row.step_name steps)
  when (not (join == "")) (replace_virtual_step env id row event ending success join condition)

-- `!isAlreadyWaiting && !isVirtual`
abbrev pub is_new_in : List String → String → Bool
is_new_in waiting name = not (contains waiting name) && not (any is_virtual_step waiting)

unfoldable pub wait_for_terminal : Env → ℕ → WorkflowStep → String → Action Unit
unfolding note_error log
wait_for_terminal env id row join = do
  added ← attempt_locked (add_to_join_wait_for false id join row.step_name env.now)
  on_result added
      (λ e.
        note_error env id row event_step_completed "Failed to add step to join waitFor: "
          (store_error e))
      (λ _. log env id (some row.id) event_step_completed (
        about row.step_name key_message
          (str_append "Added terminal step to join " (str_append join " waitFor"))))

unfoldable pub create_terminal_join : Env → ℕ → WorkflowStep → String → StepDefinition → Action Unit
unfolding note_error
create_terminal_join env id row join def = do
  created ←
      attempt_locked
        (create_join_state false id join (row.step_name ∷ []) (or_all def.join_strategy) env.now)
  on_result created
      (λ e.
        note_error env id row event_step_completed "Failed to create join state: " (store_error e))
      (λ _. done)

-- A step that ends a branch of a fork is one that the join waits for.
unfoldable pub add_terminal_step : Env → ℕ → WorkflowStep → Steps → Action Unit
unfolding wait_for_terminal create_terminal_join find_join_step_for_fork_branch
add_terminal_step env id row steps = do
  join ← reads (find_join_step_for_fork_branch id row.step_name steps)
  when (not (join == "")) (do
    state ← attempt (get_join_state id join)
    on_result state (λ _. on_option (lookup join steps) done (create_terminal_join env id row join))
        (λ j. when (is_new_in j.waiting_for row.step_name) (wait_for_terminal env id row join)))

unfoldable pub update_branch_join : Env → ℕ → WorkflowStep → StepDefinition → Steps → Action Unit
unfolding replace_in_branch add_terminal_step find_condition_step_in_branch
    is_terminal_step_in_fork_branch
update_branch_join env id row step_def steps =
    let condition = find_condition_step_in_branch step_def steps in
    choose (not (condition == ""))
      (replace_in_branch env id row event_step_completed "" true steps condition)
      (do
        terminal ← reads (is_terminal_step_in_fork_branch id row.step_name steps)
        when terminal (add_terminal_step env id row steps))

abbrev pub skip_message : String
skip_message = "Skipped due to parallel branch failure"

unfoldable pub skip_step : Env → ℕ → WorkflowStep → Action Unit
unfolding log
skip_step env id row = do
  skipped ← attempt (update_step row.id StepStatus.skipped "" (some skip_message) env.now)
  on_result skipped (λ _. done)
      λ _. log env id (some row.id) event_step_failed (
        (key_step_name, Value.text row.step_name)
        ∷ (key_reason, Value.text "parallel_branch_failure")
        ∷ (key_message, Value.text skip_message)
        ∷ [])

-- The pending and running steps of the branches of the fork, but for the step that failed.
abbrev pub to_stop : String → StepDefinition → Steps → WorkflowStep → Bool
to_stop name fork steps row =
    not (row.step_name == name)
    && is_step_in_parallel_branch row.step_name fork steps
    && is_pending_or_running row.status

abbrev pub fork_only : Option StepDefinition → Option StepDefinition
fork_only none = none
fork_only (some def) = if is_fork def.type then some def else none

unfoldable pub stop_parallel_branches_in_fork : Env → ℕ → String → Steps → Action Unit
unfolding find_fork_step_for_parallel_step is_step_in_parallel_branch skip_step
stop_parallel_branches_in_fork env id name steps = do
  fork_name ← reads (find_fork_step_for_parallel_step id name)
  choose (fork_name == "") done (
      on_option (fork_only (lookup fork_name steps)) done λ fork. do
        rows ← call "get steps" (get_steps_by_instance id)
        for_each rows (λ row. when (to_stop name fork steps row) (skip_step env id row)))
