-- ===== src/Engine/Traced/Rollback.antt =====
-- The rollback as operations of the store.
use floxy_pro.Prelude.{Bool, List, String, nat_eq, string_eq, suc, zero, ℕ}
use floxy_pro.Engine.Env.{Env}
use floxy_pro.Engine.Forks.{StepMap}
use floxy_pro.Engine.Rollback.{
  bury_step, compensate_step, roll_back_row, rollback_step, rollback_step_chain,
  rollback_step_chain_with_visited, rollback_steps_to_save_point, rollback_to_save_point_or_root,
}
use floxy_pro.Engine.Traced.{Traced, raise-Traced}
use floxy_pro.Engine.Traced.Calls.{work_rules}
use floxy_pro.Engine.Traced.Ops.{keeps}
use floxy_pro.Model.{StepDefinition, WorkflowDefinition, WorkflowStep}

bury_step-Traced :
    (k : ℕ) (env : Env) (workflow_id : String) (row : WorkflowStep)
    → Traced (keeps k) (bury_step env workflow_id row)
unfolding bury_step
bury_step-Traced k env workflow_id row = search work_rules depth 12

compensate_step-Traced :
    (k : ℕ) (env : Env) (undo : StepDefinition) (row : WorkflowStep)
    → Traced (keeps k) (compensate_step env undo row)
unfolding compensate_step
compensate_step-Traced k env undo row = search work_rules depth 12

rollback_step-Traced :
    (k : ℕ) (env : Env) (def : WorkflowDefinition) (row : WorkflowStep)
    → Traced (keeps k) (rollback_step env def row)
unfolding rollback_step
rollback_step-Traced k env def row =
    search (work_rules, bury_step-Traced, compensate_step-Traced) depth 12

roll_back_row-Traced :
    (k : ℕ) (env : Env) (def : WorkflowDefinition) (rows : StepMap) (name : String)
    → Traced (keeps k) (roll_back_row env def rows name)
unfolding roll_back_row
roll_back_row-Traced k env def rows name = search (work_rules, rollback_step-Traced) depth 12

module _ (env : Env) (def : WorkflowDefinition) (save_point : String) (rows : StepMap) where
  chain-Traced :
      (k : ℕ) (fuel : ℕ) (parallel : Bool) (visited : List String) (name : String)
      → Traced
          (keeps k)
          (rollback_step_chain_with_visited env def save_point rows fuel parallel visited name)
  unfolding rollback_step_chain_with_visited
  chain-Traced k zero parallel visited name = raise-Traced _
  chain-Traced k (suc fuel) parallel visited name =
      search (work_rules, roll_back_row-Traced, chain-Traced k fuel) depth 14

  pub rollback_step_chain-Traced :
      (k : ℕ) (name : String) → Traced (keeps k) (rollback_step_chain env def save_point rows name)
  unfolding rollback_step_chain
  rollback_step_chain-Traced k name = search (work_rules, chain-Traced) depth 12

pub rollback_to_save_point_or_root-Traced :
    (k : ℕ) (env : Env) (id : ℕ) (row : WorkflowStep) (def : WorkflowDefinition)
    → Traced (keeps k) (rollback_to_save_point_or_root env id row def)
unfolding rollback_to_save_point_or_root rollback_steps_to_save_point
rollback_to_save_point_or_root-Traced k env id row def =
    search (work_rules, rollback_step_chain-Traced) depth 12
