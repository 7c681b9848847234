-- ===== src/Tests/EngineOutcome.antt =====
-- Whole runs of a step: one that fails with and without a dead letter queue, and one that succeeds.
use floxy_pro.Prelude.{
  Bool, List, [], false, inl, nat_eq, none, refl, some, string_eq, true, ◌++◌, ◌∷◌, ◌≡◌,
}
use floxy_pro.Engine.Branches.{update_branch_join}
use floxy_pro.Engine.Calls.{
  add_step, definition_for, known_step, mark_instance, mark_step, schedule,
}
use floxy_pro.Engine.Env.{create_step_row, fault_text, log, pending_step, run_hooks}
use floxy_pro.Engine.Exclusive.{execute_step_exclusive, store_after}
use floxy_pro.Engine.Execute.{dispatch, execute_step, run_step, succeed, unless_cancelled}
use floxy_pro.Engine.Forks.{is_terminal_step_in_fork_branch}
use floxy_pro.Engine.Handlers.{execute_task, interleave}
use floxy_pro.Engine.Joins.{notify_if_awaited, notify_join_steps}
use floxy_pro.Engine.Monad.{
  Run, attempt, call, call_bare, choose, for_each, ignore, inside, message, on_either, on_option,
  on_result, or_raise, pure, reads, recover, returned, when, ◌>>=◌,
}
use floxy_pro.Engine.Outcome.{
  can_retry, enqueue_unless_join, follow_next, handle_step_failure, handle_step_success,
  note_failure, park_in_dlq, replace_failed,
}
use floxy_pro.Engine.Outcome.Failed.{handle_step_failure_fails}
use floxy_pro.Engine.Outcome.Frozen.{IsParked, handle_step_failure-IsParked}
use floxy_pro.Engine.Steps.{enqueue_next_step, enqueue_next_steps}
use floxy_pro.Engine.Walks.{find_condition_step_in_branch, walk}
use floxy_pro.Model.{StepType, WorkflowDefinition, WorkflowInstance, WorkflowStatus}
use floxy_pro.Prelude.Maps.{adjust, delete_where, insert, lookup}
use floxy_pro.Store.Claims.{Never}
use floxy_pro.Store.DeadLetters.{create_dead_letter_record}
use floxy_pro.Store.Definitions.{get_workflow_definition, save_workflow_definition}
use floxy_pro.Store.Defs.{MemoryStore, Result, new_memory_store, ok}
use floxy_pro.Store.Events.{log_event}
use floxy_pro.Store.Instances.{create_instance, get_instance, update_instance_status, with_status}
use floxy_pro.Store.Operations.{Operation, perform, perform_all}
use floxy_pro.Store.Queue.{dequeue_step, effective_priority, enqueue_step, scan_queue, visit}
use floxy_pro.Store.Requests.{get_cancel_request}
use floxy_pro.Store.Steps.{
  create_step, pause_active_steps_and_clear_queue, registered, update_step, with_step_status,
  write_each,
}
use floxy_pro.Store.Valid.{IsValid}
use floxy_pro.Store.Valid.Sequences.{reachable-IsValid}
use floxy_pro.Tests.Engine.{open_instance, open_item, open_row, open_store, opened, plain_env}
use floxy_pro.Tests.EngineRuns.{saga, saga_instance, store_of, undoable}

abbrev saga_operations : Bool → List Operation
saga_operations dlq =
    Operation.save_definition "saga" 0 (saga dlq)
    ∷ Operation.new_instance "saga" "{}" 0
    ∷ Operation.set_instance 1 WorkflowStatus.running "" none 0 0
    ∷ Operation.new_step "key" 0 (pending_step 1 "a" StepType.task "{}" 0)
    ∷ []

abbrev failing_run : Bool → Run Unit
failing_run dlq =
    handle_step_failure plain_env saga_instance open_row undoable (message "boom")
      (perform_all (saga_operations dlq) new_memory_store)

handle_step_failure-IsParked_example : IsParked saga_instance open_row (store_of (failing_run true))
unfolding perform_all perform new_memory_store save_workflow_definition create_instance
    update_instance_status with_status create_step registered lookup insert adjust
    handle_step_failure can_retry choose ◌>>=◌ attempt get_workflow_definition on_option park_in_dlq
    mark_step call update_step with_step_status log ignore log_event inside notify_join_steps
    call_bare get_instance for_each notify_if_awaited when create_dead_letter_record
    pause_active_steps_and_clear_queue write_each delete_where mark_instance pure
handle_step_failure-IsParked_example =
    handle_step_failure-IsParked plain_env saga_instance open_row undoable (message "boom")
      (saga true) (perform_all (saga_operations true) new_memory_store)
      (store_of (failing_run true)) (reachable-IsValid (saga_operations true)) refl refl refl refl

abbrev open_saga : MemoryStore
open_saga = perform_all (saga_operations false) new_memory_store

abbrev noted_run : Run (Result WorkflowDefinition)
noted_run = note_failure plain_env saga_instance open_row undoable "boom" open_saga

handle_step_failure_fails_example :
    (t : MemoryStore) × (failing_run false ≡ returned tt t)
    × ((j : WorkflowInstance) × (lookup 1 t.instances ≡ some j)
        × (j.status ≡ WorkflowStatus.failed)
        × (j.error ≡ some "boom"))
unfolding perform_all perform new_memory_store save_workflow_definition create_instance
    update_instance_status with_status create_step registered lookup insert adjust can_retry choose
    ◌>>=◌ attempt get_workflow_definition on_option fault_text note_failure mark_step call
    update_step with_step_status log ignore log_event inside notify_join_steps call_bare
    get_instance for_each notify_if_awaited when pure replace_failed find_condition_step_in_branch
    walk on_result
handle_step_failure_fails_example =
    handle_step_failure_fails plain_env saga_instance open_row undoable (message "boom") open_saga
      (store_of noted_run) (ok (saga false)) _ (saga false) refl refl refl refl refl

abbrev claimed : MemoryStore
claimed = (dequeue_step "w" 100 open_store).1

abbrev executed : MemoryStore
executed = store_of (execute_step plain_env open_instance open_row claimed)

execute_step_exclusive_example :
    IsValid executed
    × Never 1 (Operation.dequeue "v" 200 ∷ []) executed
    × ((ops : List Operation) × (perform_all ops claimed ≡ executed)
        × Never 1 (ops ++ Operation.dequeue "v" 200 ∷ []) claimed)
unfolding perform_all perform new_memory_store save_workflow_definition create_instance
    update_instance_status with_status create_step registered lookup insert adjust enqueue_step
    dequeue_step scan_queue visit effective_priority execute_step choose ◌>>=◌ definition_for
    known_step or_raise pure call get_workflow_definition run_hooks unless_cancelled attempt
    get_cancel_request on_result run_step mark_step update_step with_step_status log ignore
    log_event recover dispatch execute_task interleave on_either succeed handle_step_success
    update_branch_join find_condition_step_in_branch walk reads is_terminal_step_in_fork_branch
    inside notify_join_steps call_bare get_instance for_each notify_if_awaited when follow_next
    enqueue_unless_join enqueue_next_steps enqueue_next_step add_step create_step_row schedule
    store_after
execute_step_exclusive_example =
    execute_step_exclusive plain_env "w" 100 open_store executed open_item open_instance open_row
      (Operation.dequeue "v" 200 ∷ []) (reachable-IsValid opened) refl tt (inl refl) (refl, tt)
