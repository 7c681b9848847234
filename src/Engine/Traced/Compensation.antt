-- ===== src/Engine/Traced/Compensation.antt =====
-- A compensation as operations of the store.
use floxy_pro.Prelude.{All, String, nat_eq, string_eq, true, ℕ, ◌≡◌}
use floxy_pro.Engine.Compensation.{
  after_compensation, compensation_retry, execute_compensation_step, give_up_compensation,
  mark_rolled_back, run_compensation, settle_workflow,
}
use floxy_pro.Engine.Env.{Env, Handler}
use floxy_pro.Engine.Traced.{Traced, bind-Traced, on_option-Traced}
use floxy_pro.Engine.Traced.Calls.{definition_for-Traced, known_step-Traced, work_rules}
use floxy_pro.Engine.Traced.Handlers.{interleave-Traced}
use floxy_pro.Engine.Traced.Ops.{keeps}
use floxy_pro.Engine.Traced.Steps.{ask_steps-Traced, fail_workflow-Traced}
use floxy_pro.Model.{StepDefinition, WorkflowInstance, WorkflowStep}

compensation_retry-Traced :
    (k : ℕ) (env : Env) (undo : StepDefinition) (row : WorkflowStep) (e : String)
    → Traced (keeps k) (compensation_retry env undo row e)
unfolding compensation_retry
compensation_retry-Traced k env undo row e = search work_rules depth 12

give_up_compensation-Traced :
    (k : ℕ) (env : Env) (row : WorkflowStep) (e : String)
    → Traced (keeps k) (give_up_compensation env row e)
unfolding give_up_compensation
give_up_compensation-Traced k env row e = search work_rules depth 12

mark_rolled_back-Traced :
    (k : ℕ) (env : Env) (row : WorkflowStep) → Traced (keeps k) (mark_rolled_back env row)
unfolding mark_rolled_back
mark_rolled_back-Traced k env row = search work_rules depth 12

settle_workflow-Traced :
    (k : ℕ) (env : Env) (instance : WorkflowInstance) (row : WorkflowStep)
    → Traced (keeps k) (settle_workflow env instance row)
unfolding settle_workflow
settle_workflow-Traced k env instance row =
    search (work_rules, ask_steps-Traced, fail_workflow-Traced) depth 12

after_compensation-Traced :
    (k : ℕ) (env : Env) (instance : WorkflowInstance) (row : WorkflowStep)
    → Traced (keeps k) (after_compensation env instance row)
unfolding after_compensation
after_compensation-Traced k env instance row = search (work_rules, settle_workflow-Traced) depth 12

run_compensation-Traced :
    (k : ℕ) (env : Env) (instance : WorkflowInstance) (row : WorkflowStep) (undo : StepDefinition)
    (handler : Handler)
    → All (λ op. keeps k op ≡ true) env.meanwhile
    → Traced (keeps k) (run_compensation env instance row undo handler)
unfolding run_compensation
run_compensation-Traced k env instance row undo handler safe =
    bind-Traced _ _ (interleave-Traced k env safe) λ _.
      search
        (
          work_rules, compensation_retry-Traced, give_up_compensation-Traced,
          after_compensation-Traced,
        )
        depth 12

-- Where no goroutine gives item `k` back while the compensation handler runs, executing a
-- compensation writes to the store by a sequence of operations that do not give the item back.
pub execute_compensation_step-Traced :
    (k : ℕ) (env : Env) (instance : WorkflowInstance) (row : WorkflowStep)
    → All (λ op. keeps k op ≡ true) env.meanwhile
    → Traced (keeps k) (execute_compensation_step env instance row)
unfolding execute_compensation_step
execute_compensation_step-Traced k env instance row safe =
    bind-Traced _ _ (definition_for-Traced instance) λ workflow.
      bind-Traced _ _ (known_step-Traced _ _ _) λ def.
        on_option-Traced _ _ _ (mark_rolled_back-Traced k env row) λ undo.
          on_option-Traced _ _ _ (mark_rolled_back-Traced k env row)
            λ handler. run_compensation-Traced k env instance row undo handler safe
