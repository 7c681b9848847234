-- ===== src/Engine/Traced/Calls.antt =====
-- The calls of the store with the engine's clock, its log and its hooks; and the rules for an action
-- of the engine, for `search`.
use floxy_pro.Prelude.{Bool, List, Option, String, false, nat_eq, none, refl, some, string_eq, ℕ}
use floxy_pro.Engine.Calls.{
  add_step, definition_for, known_step, mark_instance, mark_step, schedule,
}
use floxy_pro.Engine.Env.{Env, Payload, Plugin, first_failure, log, run_hooks}
use floxy_pro.Engine.Monad.{attempt_locked, from_locked}
use floxy_pro.Engine.Traced.{
  Trace, Trace-one, Traced, TracedRun, attempt-Traced, bind-Traced, call-Traced, call_bare-Traced,
  choose-Traced, fold_each-Traced, for_each-Traced, for_each_from-Traced, ignore-Traced,
  inside-Traced, on_either-Traced, on_option-Traced, on_result-Traced, or_raise-Traced, pure-Traced,
  raise-Traced, reads-Traced, recover-Traced, when-Traced,
}
use floxy_pro.Engine.Traced.Ops.{
  create_cancel_request-TracedOp, create_dead_letter_record-TracedOp,
  create_human_decision-TracedOp, create_instance-TracedOp, create_step_row-TracedOp,
  delete_cancel_request-TracedOp, enqueue_step-TracedOp, get_active_steps_for_update-TracedOp,
  get_cancel_request-TracedOp, get_human_decision-TracedOp, get_instance-TracedOp,
  get_join_state-TracedOp, get_step_by_id-TracedOp, get_steps_by_instance-TracedOp,
  get_workflow_definition-TracedOp, keeps, kept, log_event-TracedOp,
  pause_active_steps_and_clear_queue-TracedOp, remove_from_queue-TracedOp,
  update_instance_status-TracedOp, update_join_state-TracedOp, update_step-TracedOp,
  update_step_compensation_retry-TracedOp, update_step_status-TracedOp,
}
use floxy_pro.Graph.{Steps}
use floxy_pro.Model.{
  Duration, JoinStrategy, Priority, RawMessage, StepStatus, Time, WorkflowInstance, WorkflowStatus,
  WorkflowStep,
}
use floxy_pro.Prelude.Maps.{lookup}
use floxy_pro.Store.Defs.{MemoryStore}
use floxy_pro.Store.Joins.{
  Locked, add_to_join_wait_for, create_join_state, deadlock, replace_in_join_wait_for, returns,
}
use floxy_pro.Store.Operations.{Operation, locked_after, perform}

pub log-Traced :
    (k : ℕ) (env : Env) (id : ℕ) (step : Option ℕ) (event_type : String) (payload : Payload)
    → Traced (keeps k) (log env id step event_type payload)
unfolding log
log-Traced k env id step event_type payload =
    ignore-Traced _ (log_event-TracedOp _ id step event_type (env.marshal payload) env.now)

pub run_hooks-Traced :
    {P : Operation → Bool} (context : String) (hook : Plugin → Option String)
    (plugins : Option (List Plugin))
    → Traced P (run_hooks context hook plugins)
unfolding run_hooks
run_hooks-Traced context hook none = pure-Traced tt
run_hooks-Traced context hook (some plugins) =
    on_option-Traced (first_failure hook plugins) _ _ (pure-Traced tt) (λ e. raise-Traced _)

-- The calls that take the mutex twice: one that blocks does nothing.
from_locked-TracedRun :
    {A : Type 0} (P : Operation → Bool) (s : MemoryStore) (l : Locked A)
    → Trace P s (locked_after s l)
    → TracedRun P s (from_locked l)
from_locked-TracedRun P s (returns r t) trace = trace
from_locked-TracedRun P s deadlock trace = tt

pub create_join_state-Traced :
    (k : ℕ) (id : ℕ) (name : String) (waiting : List String) (strategy : JoinStrategy) (now : Time)
    → Traced (keeps k) (attempt_locked (create_join_state false id name waiting strategy now))
unfolding perform attempt_locked
create_join_state-Traced k id name waiting strategy now = record {
  run = λ s.
      from_locked-TracedRun _ s (create_join_state false id name waiting strategy now s)
        (Trace-one _ (Operation.new_join id name waiting strategy now) s (kept _ _ refl));
}

pub add_to_join_wait_for-Traced :
    (k : ℕ) (id : ℕ) (name step : String) (now : Time)
    → Traced (keeps k) (attempt_locked (add_to_join_wait_for false id name step now))
unfolding perform attempt_locked
add_to_join_wait_for-Traced k id name step now = record {
  run = λ s.
      from_locked-TracedRun _ s (add_to_join_wait_for false id name step now s)
        (Trace-one _ (Operation.wait_for id name step now) s (kept _ _ refl));
}

pub replace_in_join_wait_for-Traced :
    (k : ℕ) (id : ℕ) (name old new : String) (now : Time)
    → Traced (keeps k) (attempt_locked (replace_in_join_wait_for false id name old new now))
unfolding perform attempt_locked
replace_in_join_wait_for-Traced k id name old new now = record {
  run = λ s.
      from_locked-TracedRun _ s (replace_in_join_wait_for false id name old new now s)
        (Trace-one _ (Operation.wait_instead_of id name old new now) s (kept _ _ refl));
}

pub definition_for-Traced :
    {P : Operation → Bool} (instance : WorkflowInstance) → Traced P (definition_for instance)
unfolding definition_for
definition_for-Traced instance = call-Traced _ _ (get_workflow_definition-TracedOp _)

pub mark_step-Traced :
    (k : ℕ) (env : Env) (context : String) (id : ℕ) (status : StepStatus) (output : RawMessage)
    (error : Option String)
    → Traced (keeps k) (mark_step env context id status output error)
unfolding mark_step
mark_step-Traced k env context id status output error =
    call-Traced context _ (update_step-TracedOp _ id status output error env.now)

pub mark_instance-Traced :
    (k : ℕ) (env : Env) (context : String) (id : ℕ) (status : WorkflowStatus) (output : RawMessage)
    (error : Option String)
    → Traced (keeps k) (mark_instance env context id status output error)
unfolding mark_instance
mark_instance-Traced k env context id status output error =
    call-Traced context _ (update_instance_status-TracedOp _ id status output error env.now env.now)

pub schedule-Traced :
    (k : ℕ) (env : Env) (context : String) (instance_id step_id : ℕ) (priority : Priority)
    (delay : Duration)
    → Traced (keeps k) (schedule env context instance_id step_id priority delay)
unfolding schedule
schedule-Traced k env context instance_id step_id priority delay =
    call-Traced context _
      (enqueue_step-TracedOp _ instance_id (some step_id) priority delay env.now)

pub add_step-Traced :
    (k : ℕ) (env : Env) (context : String) (row : WorkflowStep)
    → Traced (keeps k) (add_step env context row)
unfolding add_step
add_step-Traced k env context row = call-Traced context _ (create_step_row-TracedOp _ env row)

pub known_step-Traced :
    {P : Operation → Bool} (words name : String) (steps : Steps)
    → Traced P (known_step words name steps)
unfolding known_step
known_step-Traced words name steps = or_raise-Traced (lookup name steps) _

pub ruleset work_rules = (
  bind-Traced, pure-Traced, raise-Traced, reads-Traced, call-Traced, call_bare-Traced,
  attempt-Traced, ignore-Traced, recover-Traced, inside-Traced, or_raise-Traced, when-Traced,
  choose-Traced, fold_each-Traced, for_each-Traced, for_each_from-Traced, on_result-Traced,
  on_option-Traced, on_either-Traced, log-Traced, run_hooks-Traced, definition_for-Traced,
  mark_step-Traced, mark_instance-Traced, schedule-Traced, add_step-Traced, known_step-Traced,
  get_workflow_definition-TracedOp, get_instance-TracedOp, get_steps_by_instance-TracedOp,
  get_active_steps_for_update-TracedOp, get_step_by_id-TracedOp, get_cancel_request-TracedOp,
  get_human_decision-TracedOp, get_join_state-TracedOp, update_step-TracedOp,
  update_step_status-TracedOp, update_step_compensation_retry-TracedOp,
  pause_active_steps_and_clear_queue-TracedOp, enqueue_step-TracedOp, remove_from_queue-TracedOp,
  update_join_state-TracedOp, create_cancel_request-TracedOp, delete_cancel_request-TracedOp,
  create_human_decision-TracedOp, create_dead_letter_record-TracedOp, create_step_row-TracedOp,
  create_instance-TracedOp, create_join_state-Traced, add_to_join_wait_for-Traced,
  replace_in_join_wait_for-Traced,
)
