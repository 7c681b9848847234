-- ===== src/Engine/Traced/Ops.antt =====
-- The calls of the store that the engine makes, as operations that do not give back the queue item `k`.
use floxy_pro.Prelude.{
  Bool, Option, String, ap, false, nat_eq, not, refl, string_eq, subst, sym, true, ℕ, ◌≡◌,
}
use floxy_pro.Engine.Env.{Env, create_step_row}
use floxy_pro.Engine.Traced.{Trace, Trace-one, Trace-refl, TracedOp}
use floxy_pro.Model.{
  DeadLetterRecord, Duration, HumanDecisionRecord, Priority, RawMessage, StepStatus, Time,
  WorkflowCancelRequest, WorkflowDefinition, WorkflowStatus, WorkflowStep,
}
use floxy_pro.Store.Claims.{frees}
use floxy_pro.Store.DeadLetters.{create_dead_letter_record, requeue_dead_letter}
use floxy_pro.Store.Definitions.{get_workflow_definition, save_workflow_definition}
use floxy_pro.Store.Defs.{MemoryStore, Op}
use floxy_pro.Store.Events.{log_event}
use floxy_pro.Store.Instances.{create_instance, get_instance, update_instance_status}
use floxy_pro.Store.Joins.{get_join_state, update_join_state}
use floxy_pro.Store.Operations.{Operation, perform}
use floxy_pro.Store.Queue.{enqueue_step, remove_from_queue}
use floxy_pro.Store.Requests.{
  create_cancel_request, create_human_decision, delete_cancel_request, get_cancel_request,
  get_human_decision,
}
use floxy_pro.Store.Steps.{
  get_active_steps_for_update, get_step_by_id, get_steps_by_instance,
  pause_active_steps_and_clear_queue, update_step, update_step_compensation_retry,
  update_step_status,
}

-- Every operation but those that give the queue item `k` back.
unfoldable pub keeps : ℕ → Operation → Bool
keeps k op = not (frees k op)

pub kept : (k : ℕ) (op : Operation) → frees k op ≡ false → keeps k op ≡ true
unfolding keeps
kept k op e = ap not e

module _ (P : Operation → Bool) where
  -- A call that changes nothing.
  pub read-TracedOp : {A : Type 0} (op : Op A) → ((s : MemoryStore) → (op s).1 ≡ s) → TracedOp P op
  read-TracedOp op same = record { run = λ s. subst (Trace P s) (sym (same s)) (Trace-refl P s) }

  pub one-TracedOp :
      {A : Type 0} (op : Op A) (name : Operation)
      → P name ≡ true
      → ((s : MemoryStore) → perform name s ≡ (op s).1)
      → TracedOp P op
  one-TracedOp op name kind same = record {
    run = λ s. subst (Trace P s) (same s) (Trace-one P name s kind);
  }

pub get_workflow_definition-TracedOp :
    {P : Operation → Bool} (id : String) → TracedOp P (get_workflow_definition id)
unfolding get_workflow_definition
get_workflow_definition-TracedOp {P} id = read-TracedOp P _ (λ s. refl)

pub get_instance-TracedOp : {P : Operation → Bool} (id : ℕ) → TracedOp P (get_instance id)
unfolding get_instance
get_instance-TracedOp {P} id = read-TracedOp P _ (λ s. refl)

pub get_steps_by_instance-TracedOp :
    {P : Operation → Bool} (id : ℕ) → TracedOp P (get_steps_by_instance id)
unfolding get_steps_by_instance
get_steps_by_instance-TracedOp {P} id = read-TracedOp P _ (λ s. refl)

pub get_active_steps_for_update-TracedOp :
    {P : Operation → Bool} (id : ℕ) → TracedOp P (get_active_steps_for_update id)
unfolding get_active_steps_for_update
get_active_steps_for_update-TracedOp {P} id = read-TracedOp P _ (λ s. refl)

pub get_step_by_id-TracedOp : {P : Operation → Bool} (id : ℕ) → TracedOp P (get_step_by_id id)
unfolding get_step_by_id
get_step_by_id-TracedOp {P} id = read-TracedOp P _ (λ s. refl)

pub get_cancel_request-TracedOp :
    {P : Operation → Bool} (id : ℕ) → TracedOp P (get_cancel_request id)
unfolding get_cancel_request
get_cancel_request-TracedOp {P} id = read-TracedOp P _ (λ s. refl)

pub get_human_decision-TracedOp :
    {P : Operation → Bool} (id : ℕ) → TracedOp P (get_human_decision id)
unfolding get_human_decision
get_human_decision-TracedOp {P} id = read-TracedOp P _ (λ s. refl)

pub get_join_state-TracedOp :
    {P : Operation → Bool} (id : ℕ) (name : String) → TracedOp P (get_join_state id name)
unfolding get_join_state
get_join_state-TracedOp {P} id name = read-TracedOp P _ (λ s. refl)

pub log_event-TracedOp :
    (k : ℕ) (id : ℕ) (step : Option ℕ) (event_type : String) (encoded : Option RawMessage)
    (now : Time)
    → TracedOp (keeps k) (log_event id step event_type encoded now)
unfolding perform
log_event-TracedOp k id step event_type encoded now =
    one-TracedOp _ _ (Operation.log id step event_type encoded now) (kept _ _ refl) (λ s. refl)

pub update_instance_status-TracedOp :
    (k : ℕ) (id : ℕ) (status : WorkflowStatus) (output : RawMessage) (error : Option String)
    (now later : Time)
    → TracedOp (keeps k) (update_instance_status id status output error now later)
unfolding perform
update_instance_status-TracedOp k id status output error now later =
    one-TracedOp _ _ (Operation.set_instance id status output error now later) (kept _ _ refl)
      (λ s. refl)

pub create_instance-TracedOp :
    (k : ℕ) (id : String) (input : RawMessage) (now : Time)
    → TracedOp (keeps k) (create_instance id input now)
unfolding perform
create_instance-TracedOp k id input now =
    one-TracedOp _ _ (Operation.new_instance id input now) (kept _ _ refl) (λ s. refl)

pub update_step-TracedOp :
    (k : ℕ) (id : ℕ) (status : StepStatus) (output : RawMessage) (error : Option String)
    (now : Time)
    → TracedOp (keeps k) (update_step id status output error now)
unfolding perform
update_step-TracedOp k id status output error now =
    one-TracedOp _ _ (Operation.set_step id status output error now) (kept _ _ refl) (λ s. refl)

pub update_step_status-TracedOp :
    (k : ℕ) (id : ℕ) (status : StepStatus) → TracedOp (keeps k) (update_step_status id status)
unfolding perform
update_step_status-TracedOp k id status =
    one-TracedOp _ _ (Operation.set_step_status id status) (kept _ _ refl) (λ s. refl)

pub update_step_compensation_retry-TracedOp :
    (k : ℕ) (id retries : ℕ) (status : StepStatus)
    → TracedOp (keeps k) (update_step_compensation_retry id retries status)
unfolding perform
update_step_compensation_retry-TracedOp k id retries status =
    one-TracedOp _ _ (Operation.set_compensation id retries status) (kept _ _ refl) (λ s. refl)

pub pause_active_steps_and_clear_queue-TracedOp :
    (k : ℕ) (id : ℕ) → TracedOp (keeps k) (pause_active_steps_and_clear_queue id)
unfolding perform
pause_active_steps_and_clear_queue-TracedOp k id =
    one-TracedOp _ _ (Operation.freeze id) (kept _ _ refl) (λ s. refl)

pub enqueue_step-TracedOp :
    (k : ℕ) (id : ℕ) (step : Option ℕ) (priority : Priority) (delay : Duration) (now : Time)
    → TracedOp (keeps k) (enqueue_step id step priority delay now)
unfolding perform
enqueue_step-TracedOp k id step priority delay now =
    one-TracedOp _ _ (Operation.enqueue id step priority delay now) (kept _ _ refl) (λ s. refl)

pub remove_from_queue-TracedOp : (k : ℕ) (id : ℕ) → TracedOp (keeps k) (remove_from_queue id)
unfolding perform
remove_from_queue-TracedOp k id = one-TracedOp _ _ (Operation.remove id) (kept _ _ refl) (λ s. refl)

pub update_join_state-TracedOp :
    (k : ℕ) (id : ℕ) (name step : String) (success : Bool) (now : Time)
    → TracedOp (keeps k) (update_join_state id name step success now)
unfolding perform
update_join_state-TracedOp k id name step success now =
    one-TracedOp _ _ (Operation.set_join id name step success now) (kept _ _ refl) (λ s. refl)

pub create_cancel_request-TracedOp :
    (k : ℕ) (req : WorkflowCancelRequest) (now : Time)
    → TracedOp (keeps k) (create_cancel_request req now)
unfolding perform
create_cancel_request-TracedOp k req now =
    one-TracedOp _ _ (Operation.request_cancel req now) (kept _ _ refl) (λ s. refl)

pub delete_cancel_request-TracedOp :
    (k : ℕ) (id : ℕ) → TracedOp (keeps k) (delete_cancel_request id)
unfolding perform
delete_cancel_request-TracedOp k id =
    one-TracedOp _ _ (Operation.drop_cancel id) (kept _ _ refl) (λ s. refl)

pub create_human_decision-TracedOp :
    (k : ℕ) (rec : HumanDecisionRecord) (now : Time)
    → TracedOp (keeps k) (create_human_decision rec now)
unfolding perform
create_human_decision-TracedOp k rec now =
    one-TracedOp _ _ (Operation.decide rec now) (kept _ _ refl) (λ s. refl)

pub create_dead_letter_record-TracedOp :
    (k : ℕ) (rec : DeadLetterRecord) (now : Time)
    → TracedOp (keeps k) (create_dead_letter_record rec now)
unfolding perform
create_dead_letter_record-TracedOp k rec now =
    one-TracedOp _ _ (Operation.bury rec now) (kept _ _ refl) (λ s. refl)

pub requeue_dead_letter-TracedOp :
    (k : ℕ) (id : ℕ) (new_input : Option RawMessage)
    → TracedOp (keeps k) (requeue_dead_letter id new_input)
unfolding perform
requeue_dead_letter-TracedOp k id new_input =
    one-TracedOp _ _ (Operation.requeue id new_input) (kept _ _ refl) (λ s. refl)

pub save_workflow_definition-TracedOp :
    (k : ℕ) (fresh : String) (now : Time) (def : WorkflowDefinition)
    → TracedOp (keeps k) (save_workflow_definition fresh now def)
unfolding perform
save_workflow_definition-TracedOp k fresh now def =
    one-TracedOp _ _ (Operation.save_definition fresh now def) (kept _ _ refl) (λ s. refl)

pub create_step_row-TracedOp :
    (k : ℕ) (env : Env) (row : WorkflowStep) → TracedOp (keeps k) (create_step_row env row)
unfolding perform create_step_row
create_step_row-TracedOp k env row = record {
  run = λ s.
      Trace-one _ (Operation.new_step (env.fresh s.next_step_id) env.now row) s (kept _ _ refl);
}
