-- ===== src/Tests/EngineRuns.antt =====
-- Runs of the engine on small stores.
use floxy_pro.Prelude.{
  Bool, [], false, inl, inr, length, ltb, nat_eq, none, pair_eq, refl, some, string_eq, true, ℕ,
  ◌&&◌, ◌<◌, ◌∷◌, ◌≡◌, ◌≢◌, ◌≤◌, ◌⊎◌,
}
use floxy_pro.Engine.Calls.{
  calculate_retry_delay, compensation_delay, definition_for, known_step, mark_instance,
}
use floxy_pro.Engine.Cancel.{abort_workflow, cancel_request, cancel_workflow}
use floxy_pro.Engine.Cancel.Requests.{cancel_workflow_lem}
use floxy_pro.Engine.Ends.{is_fuel}
use floxy_pro.Engine.Ends.Rollback.{rollback_step_chain_ends}
use floxy_pro.Engine.Env.{log}
use floxy_pro.Engine.Env.Logged.{with_events}
use floxy_pro.Engine.Handlers.{execute_join, is_all}
use floxy_pro.Engine.Handlers.Ready.{execute_join_ready}
use floxy_pro.Engine.Monad.{
  Run, attempt, blocked, call, choose, failed, for_each, for_each_from, ignore, message, on_result,
  or_raise, pure, raise, recover, returned, ◌>>=◌,
}
use floxy_pro.Engine.Outcome.{handle_step_failure}
use floxy_pro.Engine.Rollback.{rollback_step, rollback_step_chain}
use floxy_pro.Engine.Rollback.Attempts.{rollback_step_bounds}
use floxy_pro.Engine.Steps.{
  ask_steps, complete_workflow, enqueue_completed_steps_for_rollback, fail_workflow,
  last_save_point,
}
use floxy_pro.Engine.Steps.Completed.{complete_workflow-NotCompleted, complete_workflow_lem}
use floxy_pro.Model.{
  CancelType, DeadLetterRecord, JoinState, JoinStrategy, QueueItem, StepDefinition, StepStatus,
  WorkflowDefinition, WorkflowInstance, WorkflowStatus, WorkflowStep, priority_high,
}
use floxy_pro.Prelude.Maps.{adjust, insert, lookup}
use floxy_pro.Prelude.Sorting.{sort_by}
use floxy_pro.Store.Definitions.{get_workflow_definition}
use floxy_pro.Store.Defs.{MemoryStore, new_memory_store}
use floxy_pro.Store.Events.{log_event}
use floxy_pro.Store.Instances.{get_instance, update_instance_status, with_status}
use floxy_pro.Store.Joins.{get_join_state, join_state_key}
use floxy_pro.Store.Steps.{get_steps_by_instance, present}
use floxy_pro.Tests.Engine.{open_instance, open_row, plain_env, step_named}

abbrev pub store_of : {A : Type 0} → Run A → MemoryStore
store_of (returned a s) = s
store_of (failed e s) = s
store_of blocked = new_memory_store

-- A workflow with a step that has a compensation, and one that does not end in the dead letter queue.
abbrev pub undoable : StepDefinition
undoable = record (step_named "a" "work" "_root_" []) { on_failure = "undo" }

abbrev pub undo : StepDefinition
undo = record (step_named "undo" "work" "" []) { max_retries = 2; retry_delay = 10 }

abbrev pub saga : Bool → WorkflowDefinition
saga dlq = record {
  id = "saga";
  name = "saga";
  version = 1;
  definition = record {
    steps = ("a", undoable) ∷ ("undo", undo) ∷ [];
    start = "a";
    dlq_enabled = dlq;
  };
  created_at = 0;
}

abbrev pub saga_instance : WorkflowInstance
saga_instance = record open_instance { workflow_id = "saga" }

abbrev pub saga_store : Bool → MemoryStore
saga_store dlq = record new_memory_store {
  definitions = ("saga", saga dlq) ∷ [];
  instances = (1, saga_instance) ∷ [];
  steps = (1, open_row) ∷ [];
  steps_by_instance = (1, 1 ∷ []) ∷ [];
}

rollback_step_bounds_example :
    (t : MemoryStore) × (rollback_step plain_env (saga false) open_row (saga_store false)
      ≡ returned tt t)
    × ((0 < 2
          × ((r : WorkflowStep) × (lookup 1 t.steps ≡ some r)
              × (r.status ≡ StepStatus.compensation)
              × (r.compensation_retry_count ≡ 1)
              × (r.compensation_retry_count ≤ 2)
              × ((item : QueueItem) × (lookup (saga_store false).next_queue_id t.queue ≡ some item)
                  × (item.step_id ≡ some 1)
                  × (item.scheduled_at ≡ 110)
                  × (item.attempted_at ≡ none)
                  × (item.priority ≡ priority_high))))
        ⊎ (2 ≤ 0
            × ((r : WorkflowStep) × (lookup 1 t.steps ≡ some r)
                × (r.status ≡ StepStatus.failed)
                × (r.compensation_retry_count ≡ 0)
                × (t.queue ≡ (saga_store false).queue)
                × ((letter : DeadLetterRecord) × (lookup
                        (saga_store false).next_dead_letter_id
                        t.dead_letters
                      ≡ some letter)
                    × (letter.step_id ≡ 1)))))
unfolding lookup new_memory_store compensation_delay calculate_retry_delay
rollback_step_bounds_example =
    rollback_step_bounds plain_env (saga false) open_row (saga_store false) undoable undo refl refl
      refl

rollback_step_chain_ends_example : is_fuel (message "step definition not found: ghost") ≡ false
unfolding rollback_step_chain ◌>>=◌ choose known_step or_raise raise lookup new_memory_store
rollback_step_chain_ends_example =
    rollback_step_chain_ends plain_env (saga false) "_root_" [] "ghost" (saga_store false)
      (saga_store false) (message "step definition not found: ghost") refl

abbrev joined : JoinState
joined = record {
  instance_id = 1;
  join_step_name = "a";
  waiting_for = "x" ∷ [];
  completed = "x" ∷ [];
  failed = [];
  join_strategy = JoinStrategy.all;
  is_ready = true;
  created_at = 0;
  updated_at = 0;
}

abbrev joined_store : MemoryStore
joined_store = record new_memory_store { join_states = ((1, "a"), joined) ∷ [] }

execute_join_ready_example :
    (state : JoinState) × (lookup (join_state_key 1 "a") joined_store.join_states ≡ some state)
    × (state.is_ready ≡ true)
    × ((ltb 0 (length state.failed) && is_all state.join_strategy) ≡ false)
unfolding execute_join ◌>>=◌ choose call get_join_state join_state_key lookup new_memory_store log
    ignore log_event insert get_steps_by_instance present or_raise pure
execute_join_ready_example =
    execute_join_ready plain_env open_instance open_row "{}" joined_store
      (store_of (execute_join plain_env open_instance open_row joined_store)) refl

abbrev retry_store : MemoryStore
retry_store = record (saga_store false) { steps = (1, record open_row { max_retries = 2 }) ∷ [] }

abbrev retry_row : WorkflowStep
retry_row = record open_row { max_retries = 2 }

abbrev retry_run : Run Unit
retry_run = handle_step_failure plain_env saga_instance retry_row undo (message "boom") retry_store

complete_workflow_lem_example :
    (t : MemoryStore) × (complete_workflow plain_env saga_instance "out" (saga_store false)
      ≡ returned tt t)
    × ((j : WorkflowInstance) × (lookup 1 t.instances ≡ some j)
        × (j.status ≡ WorkflowStatus.completed)
        × (j.output ≡ "out"))
unfolding lookup new_memory_store get_steps_by_instance present sort_by
complete_workflow_lem_example =
    complete_workflow_lem plain_env saga_instance "out" (saga_store false) saga_instance refl
      (open_row ∷ []) refl ((λ broken. elim broken [ inl e ↦ cc | inr e ↦ cc ]), tt)

abbrev failed_row : WorkflowStep
failed_row = record open_row { status = StepStatus.failed }

abbrev failed_store : MemoryStore
failed_store = record (saga_store false) { steps = (1, failed_row) ∷ [] }

complete_workflow-NotCompleted_example :
    (j : WorkflowInstance) × (lookup 1
        (store_of (complete_workflow plain_env saga_instance "out" failed_store)).instances
      ≡ some j)
    × ((j ≡ saga_instance) ⊎ (j.status ≡ WorkflowStatus.failed))
unfolding lookup new_memory_store get_steps_by_instance present sort_by complete_workflow ◌>>=◌
    ask_steps attempt on_result pure choose recover enqueue_completed_steps_for_rollback call
    get_instance get_workflow_definition definition_for for_each for_each_from fail_workflow
    mark_instance update_instance_status with_status adjust log ignore log_event insert
    last_save_point
complete_workflow-NotCompleted_example =
    complete_workflow-NotCompleted plain_env saga_instance "out" failed_store saga_instance refl
      (failed_row ∷ []) refl
      (store_of (complete_workflow plain_env saga_instance "out" failed_store)) [] [] failed_row
      refl (inl refl) refl

abbrev IsAsked : CancelType → MemoryStore → Type 0
IsAsked cancel_type t =
    (lookup 1 t.cancel_requests
      ≡ some (record (cancel_request 1 "me" cancel_type "late") {
        id = (saga_store false).next_cancel_request_id;
        created_at = 100;
      }))
    × ((k : ℕ) → 1 ≢ k → lookup k t.cancel_requests ≡ lookup k (saga_store false).cancel_requests)
    × (t ≡ record (with_events t (saga_store false)) {
      cancel_requests = t.cancel_requests;
      next_cancel_request_id = t.next_cancel_request_id;
    })

cancel_workflow_lem_example :
    ((t : MemoryStore) × (cancel_workflow plain_env 1 "me" "late" (saga_store false)
        ≡ returned tt t)
      × IsAsked CancelType.cancel t)
    × ((t : MemoryStore) × (abort_workflow plain_env 1 "me" "late" (saga_store false)
          ≡ returned tt t)
        × IsAsked CancelType.abort t)
unfolding lookup new_memory_store
cancel_workflow_lem_example =
    cancel_workflow_lem plain_env 1 "me" "late" (saga_store false) saga_instance refl refl
