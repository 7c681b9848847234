-- ===== src/Engine/Traced/Steps.antt =====
-- The actions on the steps of an instance and on its end.
use floxy_pro.Prelude.{Bool, List, String, nat_eq, string_eq, ℕ}
use floxy_pro.Engine.Env.{Env}
use floxy_pro.Engine.Steps.{
  ask_steps, complete_workflow, create_first_step, enqueue_compensation,
  enqueue_completed_steps_for_rollback, enqueue_next_step, enqueue_next_steps, fail_workflow,
  undo_without_handler,
}
use floxy_pro.Engine.Traced.{Traced}
use floxy_pro.Engine.Traced.Calls.{work_rules}
use floxy_pro.Engine.Traced.Ops.{keeps}
use floxy_pro.Graph.{Steps}
use floxy_pro.Model.{RawMessage, WorkflowInstance, WorkflowStep}
use floxy_pro.Store.Operations.{Operation}

pub ask_steps-Traced :
    {P : Operation → Bool} (holds : WorkflowStep → Bool) (id : ℕ) → Traced P (ask_steps holds id)
unfolding ask_steps
ask_steps-Traced holds id = search work_rules

pub enqueue_next_step-Traced :
    (k : ℕ) (env : Env) (id : ℕ) (steps : Steps) (input : RawMessage) (name : String)
    → Traced (keeps k) (enqueue_next_step env id steps input name)
unfolding enqueue_next_step
enqueue_next_step-Traced k env id steps input name = search work_rules

pub enqueue_next_steps-Traced :
    (k : ℕ) (env : Env) (id : ℕ) (names : List String) (input : RawMessage)
    → Traced (keeps k) (enqueue_next_steps env id names input)
unfolding enqueue_next_steps
enqueue_next_steps-Traced k env id names input = search (work_rules, enqueue_next_step-Traced)

pub create_first_step-Traced :
    (k : ℕ) (env : Env) (instance : WorkflowInstance)
    → Traced (keeps k) (create_first_step env instance)
unfolding create_first_step
create_first_step-Traced k env instance = search work_rules

undo_without_handler-Traced :
    (k : ℕ) (env : Env) (id : ℕ) (row : WorkflowStep)
    → Traced (keeps k) (undo_without_handler env id row)
unfolding undo_without_handler
undo_without_handler-Traced k env id row = search work_rules

enqueue_compensation-Traced :
    (k : ℕ) (env : Env) (id index : ℕ) (row : WorkflowStep)
    → Traced (keeps k) (enqueue_compensation env id index row)
unfolding enqueue_compensation
enqueue_compensation-Traced k env id index row = search work_rules

pub enqueue_completed_steps_for_rollback-Traced :
    (k : ℕ) (env : Env) (id : ℕ) → Traced (keeps k) (enqueue_completed_steps_for_rollback env id)
unfolding enqueue_completed_steps_for_rollback
enqueue_completed_steps_for_rollback-Traced k env id =
    search (work_rules, undo_without_handler-Traced, enqueue_compensation-Traced) depth 12

pub fail_workflow-Traced :
    (k : ℕ) (env : Env) (id : ℕ) (instance : WorkflowInstance)
    → Traced (keeps k) (fail_workflow env id instance)
unfolding fail_workflow
fail_workflow-Traced k env id instance = search work_rules

pub complete_workflow-Traced :
    (k : ℕ) (env : Env) (instance : WorkflowInstance) (output : RawMessage)
    → Traced (keeps k) (complete_workflow env instance output)
unfolding complete_workflow
complete_workflow-Traced k env instance output =
    search
      (
        work_rules, ask_steps-Traced, enqueue_completed_steps_for_rollback-Traced,
        fail_workflow-Traced,
      )
      depth 12
