-- ===== src/Engine/Traced/Outcome.antt =====
-- The outcome of a step as operations of the store.
use floxy_pro.Prelude.{Bool, String, false, nat_eq, string_eq, true, ℕ}
use floxy_pro.Engine.Env.{Env}
use floxy_pro.Engine.Monad.{Fault}
use floxy_pro.Engine.Outcome.{
  continue_workflow_after_human_decision, enqueue_unless_join, fail_for_good, finish_if_done,
  follow_next, handle_step_failure, handle_step_success, park_in_dlq, replace_failed, retry_step,
  stop_and_roll_back,
}
use floxy_pro.Engine.Traced.{Traced}
use floxy_pro.Engine.Traced.Branches.{
  replace_in_branch-Traced, stop_parallel_branches_in_fork-Traced, update_branch_join-Traced,
}
use floxy_pro.Engine.Traced.Calls.{work_rules}
use floxy_pro.Engine.Traced.Joins.{notify_join_steps-Traced}
use floxy_pro.Engine.Traced.Ops.{keeps}
use floxy_pro.Engine.Traced.Rollback.{rollback_to_save_point_or_root-Traced}
use floxy_pro.Engine.Traced.Steps.{
  ask_steps-Traced, complete_workflow-Traced, enqueue_next_steps-Traced,
}
use floxy_pro.Graph.{Steps}
use floxy_pro.Model.{RawMessage, StepDefinition, WorkflowDefinition, WorkflowInstance, WorkflowStep}

finish_if_done-Traced :
    (k : ℕ) (env : Env) (instance : WorkflowInstance) (output : RawMessage)
    → Traced (keeps k) (finish_if_done env instance output)
unfolding finish_if_done
finish_if_done-Traced k env instance output =
    search (work_rules, ask_steps-Traced, complete_workflow-Traced) depth 12

enqueue_unless_join-Traced :
    (k : ℕ) (env : Env) (id : ℕ) (steps : Steps) (output : RawMessage) (name : String)
    → Traced (keeps k) (enqueue_unless_join env id steps output name)
unfolding enqueue_unless_join
enqueue_unless_join-Traced k env id steps output name =
    search (work_rules, enqueue_next_steps-Traced) depth 12

follow_next-Traced :
    (k : ℕ) (env : Env) (id : ℕ) (def : StepDefinition) (steps : Steps) (output : RawMessage)
    (next : Bool)
    → Traced (keeps k) (follow_next env id def steps output next)
unfolding follow_next
follow_next-Traced k env id def steps output true = search (work_rules, enqueue_unless_join-Traced)
follow_next-Traced k env id def steps output false = enqueue_next_steps-Traced _ env id _ output

pub handle_step_success-Traced :
    (k : ℕ) (env : Env) (instance : WorkflowInstance) (row : WorkflowStep) (def : StepDefinition)
    (output : RawMessage) (next : Bool)
    → Traced (keeps k) (handle_step_success env instance row def output next)
unfolding handle_step_success
handle_step_success-Traced k env instance row def output next =
    search
      (
        work_rules, update_branch_join-Traced, notify_join_steps-Traced, finish_if_done-Traced,
        follow_next-Traced,
      )
      depth 16

retry_step-Traced :
    (k : ℕ) (env : Env) (instance : WorkflowInstance) (row : WorkflowStep) (def : StepDefinition)
    (e : String)
    → Traced (keeps k) (retry_step env instance row def e)
unfolding retry_step
retry_step-Traced k env instance row def e = search work_rules depth 12

park_in_dlq-Traced :
    (k : ℕ) (env : Env) (instance : WorkflowInstance) (row : WorkflowStep)
    (def : WorkflowDefinition) (e : String)
    → Traced (keeps k) (park_in_dlq env instance row def e)
unfolding park_in_dlq
park_in_dlq-Traced k env instance row def e = search (work_rules, notify_join_steps-Traced) depth 16

replace_failed-Traced :
    (k : ℕ) (env : Env) (id : ℕ) (row : WorkflowStep) (step_def : StepDefinition) (steps : Steps)
    → Traced (keeps k) (replace_failed env id row step_def steps)
unfolding replace_failed
replace_failed-Traced k env id row step_def steps =
    search (work_rules, replace_in_branch-Traced) depth 12

stop_and_roll_back-Traced :
    (k : ℕ) (env : Env) (id : ℕ) (row : WorkflowStep) (def : WorkflowDefinition)
    → Traced (keeps k) (stop_and_roll_back env id row def)
unfolding stop_and_roll_back
stop_and_roll_back-Traced k env id row def =
    search
      (work_rules, stop_parallel_branches_in_fork-Traced, rollback_to_save_point_or_root-Traced)
      depth 12

fail_for_good-Traced :
    (k : ℕ) (env : Env) (instance : WorkflowInstance) (row : WorkflowStep)
    (step_def : StepDefinition) (e : String)
    → Traced (keeps k) (fail_for_good env instance row step_def e)
unfolding fail_for_good
fail_for_good-Traced k env instance row step_def e =
    search (work_rules, replace_failed-Traced, notify_join_steps-Traced, stop_and_roll_back-Traced)
      depth 16

pub handle_step_failure-Traced :
    (k : ℕ) (env : Env) (instance : WorkflowInstance) (row : WorkflowStep)
    (step_def : StepDefinition) (e : Fault)
    → Traced (keeps k) (handle_step_failure env instance row step_def e)
unfolding handle_step_failure
handle_step_failure-Traced k env instance row step_def e =
    search (work_rules, retry_step-Traced, park_in_dlq-Traced, fail_for_good-Traced) depth 12

pub continue_workflow_after_human_decision-Traced :
    (k : ℕ) (env : Env) (instance : WorkflowInstance) (row : WorkflowStep)
    → Traced (keeps k) (continue_workflow_after_human_decision env instance row)
unfolding continue_workflow_after_human_decision
continue_workflow_after_human_decision-Traced k env instance row =
    search (work_rules, handle_step_success-Traced) depth 12
