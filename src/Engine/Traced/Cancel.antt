-- ===== src/Engine/Traced/Cancel.antt =====
-- The handling of a request to cancel as operations of the store.
use floxy_pro.Prelude.{List, nat_eq, ℕ}
use floxy_pro.Engine.Cancel.{
  abort_instance, cancel_instance, cancel_rollback_failed, handle_cancellation, roll_back_completed,
  stop_active_steps, stop_step,
}
use floxy_pro.Engine.Env.{Env}
use floxy_pro.Engine.Monad.{Fault}
use floxy_pro.Engine.Traced.{Traced, bind-Traced, ignore-Traced, raise-Traced}
use floxy_pro.Engine.Traced.Calls.{work_rules}
use floxy_pro.Engine.Traced.Ops.{keeps, update_instance_status-TracedOp}
use floxy_pro.Engine.Traced.Rollback.{rollback_step_chain-Traced}
use floxy_pro.Model.{WorkflowCancelRequest, WorkflowDefinition, WorkflowInstance, WorkflowStep}

stop_step-Traced :
    (k : ℕ) (env : Env) (id : ℕ) (row : WorkflowStep) → Traced (keeps k) (stop_step env id row)
unfolding stop_step
stop_step-Traced k env id row = search work_rules depth 12

stop_active_steps-Traced :
    (k : ℕ) (env : Env) (id : ℕ) → Traced (keeps k) (stop_active_steps env id)
unfolding stop_active_steps
stop_active_steps-Traced k env id = search (work_rules, stop_step-Traced) depth 12

cancel_rollback_failed-Traced :
    (k : ℕ) (env : Env) (instance : WorkflowInstance) (row : WorkflowStep)
    (req : WorkflowCancelRequest) (e : Fault)
    → Traced (keeps k) (cancel_rollback_failed env instance row req e)
unfolding cancel_rollback_failed
cancel_rollback_failed-Traced k env instance row req e = bind-Traced _ _ (search work_rules) λ _.
    bind-Traced _ _ (ignore-Traced _ (update_instance_status-TracedOp _ _ _ _ _ _ _))
      λ _. bind-Traced _ _ (search work_rules) λ _. raise-Traced _

roll_back_completed-Traced :
    (k : ℕ) (env : Env) (instance : WorkflowInstance) (row : WorkflowStep)
    (req : WorkflowCancelRequest) (def : WorkflowDefinition) (rows : List WorkflowStep)
    → Traced (keeps k) (roll_back_completed env instance row req def rows)
unfolding roll_back_completed
roll_back_completed-Traced k env instance row req def rows =
    search (work_rules, rollback_step_chain-Traced, cancel_rollback_failed-Traced) depth 12

cancel_instance-Traced :
    (k : ℕ) (env : Env) (instance : WorkflowInstance) (row : WorkflowStep)
    (req : WorkflowCancelRequest)
    → Traced (keeps k) (cancel_instance env instance row req)
unfolding cancel_instance
cancel_instance-Traced k env instance row req =
    search (work_rules, roll_back_completed-Traced) depth 16

abort_instance-Traced :
    (k : ℕ) (env : Env) (instance : WorkflowInstance) (row : WorkflowStep)
    (req : WorkflowCancelRequest)
    → Traced (keeps k) (abort_instance env instance row req)
unfolding abort_instance
abort_instance-Traced k env instance row req = search work_rules depth 12

pub handle_cancellation-Traced :
    (k : ℕ) (env : Env) (instance : WorkflowInstance) (row : WorkflowStep)
    (req : WorkflowCancelRequest)
    → Traced (keeps k) (handle_cancellation env instance row req)
unfolding handle_cancellation
handle_cancellation-Traced k env instance row req =
    search (work_rules, stop_active_steps-Traced, cancel_instance-Traced, abort_instance-Traced)
      depth 12
