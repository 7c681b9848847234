-- ===== src/Store/Valid/Sequences.antt =====
-- Every sequence of operations keeps the store valid.
use floxy_pro.Prelude.{List, [], false, nat_eq, none, some, ◌∷◌}
use floxy_pro.Prelude.Maps.{lookup}
use floxy_pro.Store.Cleanup.{cleanup_old_workflows}
use floxy_pro.Store.Definitions.{save_workflow_definition}
use floxy_pro.Store.Defs.{MemoryStore, new_memory_store, set_aging_enabled, set_aging_rate}
use floxy_pro.Store.Events.{log_event}
use floxy_pro.Store.Operations.{Operation, perform, perform_all}
use floxy_pro.Store.Requests.{create_human_decision, delete_cancel_request}
use floxy_pro.Store.Valid.{IsValid}
use floxy_pro.Store.Valid.Items.{
  dequeue_step-IsValid, enqueue_step-IsValid, release_queue_item-IsValid, remove_from_queue-IsValid,
  reschedule_and_release_queue_item-IsValid,
}
use floxy_pro.Store.Valid.Joins.{
  add_to_join_wait_for-IsValid, create_join_state-IsValid, replace_in_join_wait_for-IsValid,
  update_join_state-IsValid,
}
use floxy_pro.Store.Valid.Letters.{
  create_cancel_request-IsValid, create_dead_letter_record-IsValid, forget_old-IsValid,
  requeue_dead_letter-IsValid,
}
use floxy_pro.Store.Valid.Tables.{
  create_instance-IsValid, create_step-IsValid, pause_active_steps_and_clear_queue-IsValid,
  update_instance_status-IsValid, update_step-IsValid, update_step_compensation_retry-IsValid,
  update_step_status-IsValid,
}

-- Each operation that changes the store keeps it valid.
pub perform-IsValid : (op : Operation) (s : MemoryStore) → IsValid s → IsValid (perform op s)
unfolding perform save_workflow_definition log_event delete_cancel_request create_human_decision
    cleanup_old_workflows set_aging_enabled set_aging_rate
perform-IsValid (Operation.new_instance w input now) s h = create_instance-IsValid s h w input now
perform-IsValid (Operation.set_instance id status output error now later) s h =
    update_instance_status-IsValid s h id status output error now later
perform-IsValid (Operation.new_step fresh now step) s h = create_step-IsValid s h fresh now step
perform-IsValid (Operation.set_step id status output error now) s h =
    update_step-IsValid s h id status output error now
perform-IsValid (Operation.set_step_status id status) s h = update_step_status-IsValid s h id status
perform-IsValid (Operation.set_compensation id retries status) s h =
    update_step_compensation_retry-IsValid s h id retries status
perform-IsValid (Operation.freeze id) s h = pause_active_steps_and_clear_queue-IsValid s h id
perform-IsValid (Operation.enqueue i step priority delay now) s h =
    enqueue_step-IsValid s h i step priority delay now
perform-IsValid (Operation.dequeue worker now) s h = dequeue_step-IsValid s h worker now
perform-IsValid (Operation.remove id) s h = remove_from_queue-IsValid s h id
perform-IsValid (Operation.release id) s h = release_queue_item-IsValid s h id
perform-IsValid (Operation.reschedule id delay now) s h =
    reschedule_and_release_queue_item-IsValid s h id delay now
perform-IsValid (Operation.new_join id name waiting strategy now) s h =
    create_join_state-IsValid s h false id name waiting strategy now
perform-IsValid (Operation.set_join id name step success now) s h =
    update_join_state-IsValid s h id name step success now
perform-IsValid (Operation.wait_for id name step now) s h =
    add_to_join_wait_for-IsValid s h false id name step now
perform-IsValid (Operation.wait_instead_of id name old new now) s h =
    replace_in_join_wait_for-IsValid s h false id name old new now
perform-IsValid (Operation.request_cancel req now) s h = create_cancel_request-IsValid s h req now
perform-IsValid (Operation.bury rec now) s h = create_dead_letter_record-IsValid s h rec now
perform-IsValid (Operation.requeue id input) s h = requeue_dead_letter-IsValid s h id input
perform-IsValid (Operation.cleanup now) s h = forget_old-IsValid now s.instances s h
perform-IsValid (Operation.log i step event_type none now) s h = h
perform-IsValid (Operation.log i step event_type (some payload) now) s h = assumption h
perform-IsValid (Operation.save_definition fresh now def) s h = assumption h
perform-IsValid (Operation.drop_cancel id) s h = assumption h
perform-IsValid (Operation.decide decision now) s h = assumption h
perform-IsValid (Operation.age enabled) s h = assumption h
perform-IsValid (Operation.age_by rate) s h = assumption h

pub perform_all-IsValid :
    (ops : List Operation) (s : MemoryStore) → IsValid s → IsValid (perform_all ops s)
unfolding perform_all
perform_all-IsValid [] s h = h
perform_all-IsValid (op ∷ ops) s h = perform_all-IsValid ops (perform op s) (perform-IsValid op s h)

pub new_memory_store-IsValid : IsValid new_memory_store
unfolding new_memory_store lookup
new_memory_store-IsValid = record {
  queue = record { distinct = tt; entries = λ k v e. cc };
  steps = record { distinct = tt; entries = λ k v e. cc; lists = λ k v e. cc };
  instances = λ k v e. cc;
  letters = λ k v e. cc;
  joins = record { distinct = tt; entries = λ k v e. cc };
}

-- After any sequence of operations on a new store: the keys of the queue, of the steps and of the join
-- states are distinct; every queue item, step, instance and dead letter stands under its own
-- identifier, which is below the counter of its table; a queue item names a worker only while it is
-- claimed; every step is in the list of its instance, and a list names no step of another instance
-- and no identifier that is not below the counter; a join state stands under the key of its own
-- instance and name.
pub reachable-IsValid : (ops : List Operation) → IsValid (perform_all ops new_memory_store)
reachable-IsValid ops = perform_all-IsValid ops new_memory_store new_memory_store-IsValid
