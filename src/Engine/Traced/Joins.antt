-- ===== src/Engine/Traced/Joins.antt =====
-- The actions on joins and the rollback.
use floxy_pro.Prelude.{Bool, String, nat_eq, string_eq, ℕ}
use floxy_pro.Engine.Env.{Env}
use floxy_pro.Engine.Joins.{
  create_join_step, is_awaited_by, log_join_updated, notify_if_awaited, notify_join,
  notify_join_steps, notify_join_steps_for_step,
}
use floxy_pro.Engine.Traced.{Traced}
use floxy_pro.Engine.Traced.Calls.{work_rules}
use floxy_pro.Engine.Traced.Ops.{keeps}
use floxy_pro.Model.{RawMessage, StepDefinition, WorkflowInstance}

create_join_step-Traced :
    (k : ℕ) (env : Env) (instance : WorkflowInstance) (id : ℕ) (name : String) (input : RawMessage)
    → Traced (keeps k) (create_join_step env instance id name input)
unfolding create_join_step
create_join_step-Traced k env instance id name input = search work_rules depth 12

log_join_updated-Traced :
    (k : ℕ) (env : Env) (id : ℕ) (name completed : String) (success ready : Bool)
    → Traced (keeps k) (log_join_updated env id name completed success ready)
unfolding log_join_updated
log_join_updated-Traced k env id name completed success ready = search work_rules

notify_join-Traced :
    (k : ℕ) (env : Env) (instance : WorkflowInstance) (id : ℕ) (name : String)
    (def : StepDefinition) (completed : String) (success : Bool)
    → Traced (keeps k) (notify_join env instance id name def completed success)
unfolding notify_join
notify_join-Traced k env instance id name def completed success =
    search (work_rules, create_join_step-Traced) depth 12

pub notify_join_steps_for_step-Traced :
    (k : ℕ) (env : Env) (id : ℕ) (name completed : String) (success : Bool)
    → Traced (keeps k) (notify_join_steps_for_step env id name completed success)
unfolding notify_join_steps_for_step
notify_join_steps_for_step-Traced k env id name completed success =
    search (work_rules, notify_join-Traced) depth 12

is_awaited_by-Traced :
    (k : ℕ) (id : ℕ) (name : String) (def : StepDefinition) (completed : String)
    → Traced (keeps k) (is_awaited_by id name def completed)
unfolding is_awaited_by
is_awaited_by-Traced k id name def completed = search work_rules depth 12

notify_if_awaited-Traced :
    (k : ℕ) (env : Env) (instance : WorkflowInstance) (id : ℕ) (completed : String) (success : Bool)
    (entry : String × StepDefinition)
    → Traced (keeps k) (notify_if_awaited env instance id completed success entry)
unfolding notify_if_awaited
notify_if_awaited-Traced k env instance id completed success (name, def) =
    search (work_rules, is_awaited_by-Traced, notify_join-Traced) depth 12

pub notify_join_steps-Traced :
    (k : ℕ) (env : Env) (id : ℕ) (completed : String) (success : Bool)
    → Traced (keeps k) (notify_join_steps env id completed success)
unfolding notify_join_steps
notify_join_steps-Traced k env id completed success =
    search (work_rules, notify_if_awaited-Traced) depth 12
