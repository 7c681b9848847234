-- ===== src/Engine/Traced/Branches.antt =====
-- The joins of the branches of a fork as operations of the store.
use floxy_pro.Prelude.{Bool, String, nat_eq, string_eq, ℕ}
use floxy_pro.Engine.Branches.{
  add_terminal_step, create_terminal_join, note_error, replace_in_branch, replace_virtual_step,
  skip_step, stop_parallel_branches_in_fork, update_branch_join, wait_for_terminal,
}
use floxy_pro.Engine.Env.{Env}
use floxy_pro.Engine.Monad.{Fault}
use floxy_pro.Engine.Traced.{Traced}
use floxy_pro.Engine.Traced.Calls.{work_rules}
use floxy_pro.Engine.Traced.Joins.{notify_join_steps_for_step-Traced}
use floxy_pro.Engine.Traced.Ops.{keeps}
use floxy_pro.Graph.{Steps}
use floxy_pro.Model.{StepDefinition, WorkflowStep}

pub note_error-Traced :
    (k : ℕ) (env : Env) (id : ℕ) (row : WorkflowStep) (event : String) (words : String) (e : Fault)
    → Traced (keeps k) (note_error env id row event words e)
unfolding note_error
note_error-Traced k env id row event words e = search work_rules depth 12

replace_virtual_step-Traced :
    (k : ℕ) (env : Env) (id : ℕ) (row : WorkflowStep) (event : String) (ending : String)
    (success : Bool) (join : String) (condition : String)
    → Traced (keeps k) (replace_virtual_step env id row event ending success join condition)
unfolding replace_virtual_step
replace_virtual_step-Traced k env id row event ending success join condition =
    search (work_rules, notify_join_steps_for_step-Traced) depth 12

pub replace_in_branch-Traced :
    (k : ℕ) (env : Env) (id : ℕ) (row : WorkflowStep) (event : String) (ending : String)
    (success : Bool) (steps : Steps) (condition : String)
    → Traced (keeps k) (replace_in_branch env id row event ending success steps condition)
unfolding replace_in_branch
replace_in_branch-Traced k env id row event ending success steps condition =
    search (work_rules, replace_virtual_step-Traced) depth 12

wait_for_terminal-Traced :
    (k : ℕ) (env : Env) (id : ℕ) (row : WorkflowStep) (join : String)
    → Traced (keeps k) (wait_for_terminal env id row join)
unfolding wait_for_terminal
wait_for_terminal-Traced k env id row join = search work_rules depth 12

create_terminal_join-Traced :
    (k : ℕ) (env : Env) (id : ℕ) (row : WorkflowStep) (join : String) (def : StepDefinition)
    → Traced (keeps k) (create_terminal_join env id row join def)
unfolding create_terminal_join
create_terminal_join-Traced k env id row join def = search work_rules depth 12

add_terminal_step-Traced :
    (k : ℕ) (env : Env) (id : ℕ) (row : WorkflowStep) (steps : Steps)
    → Traced (keeps k) (add_terminal_step env id row steps)
unfolding add_terminal_step
add_terminal_step-Traced k env id row steps =
    search (work_rules, wait_for_terminal-Traced, create_terminal_join-Traced) depth 12

pub update_branch_join-Traced :
    (k : ℕ) (env : Env) (id : ℕ) (row : WorkflowStep) (step_def : StepDefinition) (steps : Steps)
    → Traced (keeps k) (update_branch_join env id row step_def steps)
unfolding update_branch_join
update_branch_join-Traced k env id row step_def steps =
    search (work_rules, replace_in_branch-Traced, add_terminal_step-Traced) depth 12

skip_step-Traced :
    (k : ℕ) (env : Env) (id : ℕ) (row : WorkflowStep) → Traced (keeps k) (skip_step env id row)
unfolding skip_step
skip_step-Traced k env id row = search work_rules depth 12

pub stop_parallel_branches_in_fork-Traced :
    (k : ℕ) (env : Env) (id : ℕ) (name : String) (steps : Steps)
    → Traced (keeps k) (stop_parallel_branches_in_fork env id name steps)
unfolding stop_parallel_branches_in_fork
stop_parallel_branches_in_fork-Traced k env id name steps =
    search (work_rules, skip_step-Traced) depth 12
