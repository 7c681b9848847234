-- ===== src/Store/Operations.antt =====
-- The operations of the store that change its state, as data, and a run of them in sequence.
use floxy_pro.Prelude.{Bool, List, Option, String, [], false, nat_eq, string_eq, ℕ, ◌∷◌}
use floxy_pro.Model.{
  DeadLetterRecord, Duration, HumanDecisionRecord, JoinStrategy, Priority, RawMessage, StepStatus,
  Time, WorkflowCancelRequest, WorkflowDefinition, WorkflowStatus, WorkflowStep,
}
use floxy_pro.Store.Cleanup.{cleanup_old_workflows}
use floxy_pro.Store.DeadLetters.{create_dead_letter_record, requeue_dead_letter}
use floxy_pro.Store.Definitions.{save_workflow_definition}
use floxy_pro.Store.Defs.{MemoryStore, set_aging_enabled, set_aging_rate}
use floxy_pro.Store.Events.{log_event}
use floxy_pro.Store.Instances.{create_instance, update_instance_status}
use floxy_pro.Store.Joins.{
  Locked, add_to_join_wait_for, create_join_state, deadlock, replace_in_join_wait_for, returns,
  update_join_state,
}
use floxy_pro.Store.Queue.{
  dequeue_step, enqueue_step, release_queue_item, remove_from_queue,
  reschedule_and_release_queue_item,
}
use floxy_pro.Store.Requests.{create_cancel_request, create_human_decision, delete_cancel_request}
use floxy_pro.Store.Steps.{
  create_step, pause_active_steps_and_clear_queue, update_step, update_step_compensation_retry,
  update_step_status,
}

pub data Operation : Type 0 where
  save_definition : String → Time → WorkflowDefinition → Operation
  new_instance : String → RawMessage → Time → Operation
  set_instance : ℕ → WorkflowStatus → RawMessage → Option String → Time → Time → Operation
  new_step : String → Time → WorkflowStep → Operation
  set_step : ℕ → StepStatus → RawMessage → Option String → Time → Operation
  set_step_status : ℕ → StepStatus → Operation
  set_compensation : ℕ → ℕ → StepStatus → Operation
  freeze : ℕ → Operation
  enqueue : ℕ → Option ℕ → Priority → Duration → Time → Operation
  dequeue : String → Time → Operation
  remove : ℕ → Operation
  release : ℕ → Operation
  reschedule : ℕ → Duration → Time → Operation
  log : ℕ → Option ℕ → String → Option RawMessage → Time → Operation
  new_join : ℕ → String → List String → JoinStrategy → Time → Operation
  set_join : ℕ → String → String → Bool → Time → Operation
  wait_for : ℕ → String → String → Time → Operation
  wait_instead_of : ℕ → String → String → String → Time → Operation
  request_cancel : WorkflowCancelRequest → Time → Operation
  drop_cancel : ℕ → Operation
  decide : HumanDecisionRecord → Time → Operation
  bury : DeadLetterRecord → Time → Operation
  requeue : ℕ → Option RawMessage → Operation
  cleanup : Time → Operation
  age : Bool → Operation
  age_by : ℕ → Operation

-- A call that never returns leaves the store as it was.
abbrev pub locked_after : {A : Type 0} → MemoryStore → Locked A → MemoryStore
locked_after s (returns r after) = after
locked_after s deadlock = s

unfoldable pub perform : Operation → MemoryStore → MemoryStore
perform (save_definition fresh now def) s = (save_workflow_definition fresh now def s).1
perform (new_instance workflow_id input now) s = (create_instance workflow_id input now s).1
perform (set_instance id status output error now later) s =
    (update_instance_status id status output error now later s).1
perform (new_step fresh now step) s = (create_step fresh now step s).1
perform (set_step id status output error now) s = (update_step id status output error now s).1
perform (set_step_status id status) s = (update_step_status id status s).1
perform (set_compensation id retries status) s =
    (update_step_compensation_retry id retries status s).1
perform (freeze id) s = (pause_active_steps_and_clear_queue id s).1
perform (enqueue instance_id step_id priority delay now) s =
    (enqueue_step instance_id step_id priority delay now s).1
perform (dequeue worker now) s = (dequeue_step worker now s).1
perform (remove id) s = (remove_from_queue id s).1
perform (release id) s = (release_queue_item id s).1
perform (reschedule id delay now) s = (reschedule_and_release_queue_item id delay now s).1
perform (log instance_id step_id event_type encoded now) s =
    (log_event instance_id step_id event_type encoded now s).1
perform (new_join id name waiting strategy now) s =
    locked_after s (create_join_state false id name waiting strategy now s)
perform (set_join id name step success now) s = (update_join_state id name step success now s).1
perform (wait_for id name step now) s =
    locked_after s (add_to_join_wait_for false id name step now s)
perform (wait_instead_of id name old new now) s =
    locked_after s (replace_in_join_wait_for false id name old new now s)
perform (request_cancel req now) s = (create_cancel_request req now s).1
perform (drop_cancel id) s = (delete_cancel_request id s).1
perform (decide decision now) s = (create_human_decision decision now s).1
perform (bury rec now) s = (create_dead_letter_record rec now s).1
perform (requeue id new_input) s = (requeue_dead_letter id new_input s).1
perform (cleanup now) s = (cleanup_old_workflows now s).1
perform (age enabled) s = set_aging_enabled enabled s
perform (age_by rate) s = set_aging_rate rate s

unfoldable pub perform_all : List Operation → MemoryStore → MemoryStore
perform_all [] s = s
perform_all (op ∷ ops) s = perform_all ops (perform op s)
