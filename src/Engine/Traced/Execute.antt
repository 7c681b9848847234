-- ===== src/Engine/Traced/Execute.antt =====
-- The execution of a step as operations of the store.
use floxy_pro.Prelude.{All, Bool, nat_eq, true, ℕ, ◌≡◌}
use floxy_pro.Engine.Env.{Env}
use floxy_pro.Engine.Execute.{dispatch, execute_step, run_step, succeed, unless_cancelled}
use floxy_pro.Engine.Human.{Ran, aborted, finished}
use floxy_pro.Engine.Monad.{Action}
use floxy_pro.Engine.Traced.{Traced, bind-Traced, choose-Traced, pure-Traced, recover-Traced}
use floxy_pro.Engine.Traced.Calls.{
  definition_for-Traced, known_step-Traced, run_hooks-Traced, work_rules,
}
use floxy_pro.Engine.Traced.Cancel.{handle_cancellation-Traced}
use floxy_pro.Engine.Traced.Handlers.{
  execute_condition-Traced, execute_fork-Traced, execute_human-Traced, execute_join-Traced,
  execute_task-Traced,
}
use floxy_pro.Engine.Traced.Ops.{keeps}
use floxy_pro.Engine.Traced.Outcome.{handle_step_failure-Traced, handle_step_success-Traced}
use floxy_pro.Model.{StepDefinition, StepType, WorkflowInstance, WorkflowStep}

unless_cancelled-Traced :
    (k : ℕ) (asked : Bool) (env : Env) (instance : WorkflowInstance) (row : WorkflowStep)
    (next : Action Unit)
    → Traced (keeps k) next
    → Traced (keeps k) (unless_cancelled asked env instance row next)
unfolding unless_cancelled
unless_cancelled-Traced k asked env instance row next traced =
    search (work_rules, handle_cancellation-Traced) depth 12

dispatch-Traced :
    (k : ℕ) (env : Env) (instance : WorkflowInstance) (row : WorkflowStep) (def : StepDefinition)
    (type : StepType)
    → All (λ op. keeps k op ≡ true) env.meanwhile
    → Traced (keeps k) (dispatch env instance row def type)
unfolding dispatch
dispatch-Traced k env instance row def StepType.task safe =
    search (work_rules, execute_task-Traced k env instance row def safe)
dispatch-Traced k env instance row def StepType.fork safe = search (work_rules, execute_fork-Traced)
dispatch-Traced k env instance row def StepType.join safe = search (work_rules, execute_join-Traced)
dispatch-Traced k env instance row def StepType.parallel safe =
    search (work_rules, execute_fork-Traced)
dispatch-Traced k env instance row def StepType.save_point safe = search work_rules
dispatch-Traced k env instance row def StepType.condition safe =
    search (work_rules, execute_condition-Traced)
dispatch-Traced k env instance row def StepType.human safe =
    search (work_rules, execute_human-Traced)
dispatch-Traced k env instance row def (StepType.other text) safe = search work_rules

succeed-Traced :
    (k : ℕ) (env : Env) (instance : WorkflowInstance) (def : StepDefinition) (ran : Ran)
    → Traced (keeps k) (succeed env instance def ran)
unfolding succeed
succeed-Traced k env instance def (finished output next row) =
    handle_step_success-Traced k env instance row def output next
succeed-Traced k env instance def aborted = pure-Traced tt

run_step-Traced :
    (k : ℕ) (env : Env) (instance : WorkflowInstance) (row : WorkflowStep) (def : StepDefinition)
    → All (λ op. keeps k op ≡ true) env.meanwhile
    → Traced (keeps k) (run_step env instance row def)
unfolding run_step
run_step-Traced k env instance row def safe = bind-Traced _ _ (search work_rules) λ _.
    bind-Traced _ _ (search work_rules) λ _.
      bind-Traced _ _ (recover-Traced _ (dispatch-Traced k env instance row def def.type safe))
        (λ ran.
          search (work_rules, unless_cancelled-Traced, handle_step_failure-Traced, succeed-Traced)
            depth 12)

-- Where no goroutine gives item `k` back while the handler of the step runs, executing a step of any
-- type writes to the store by a sequence of operations that do not give the item back.
pub execute_step-Traced :
    (k : ℕ) (env : Env) (instance : WorkflowInstance) (row : WorkflowStep)
    → All (λ op. keeps k op ≡ true) env.meanwhile
    → Traced (keeps k) (execute_step env instance row)
unfolding execute_step
execute_step-Traced k env instance row safe = choose-Traced _ _ _ (pure-Traced tt) (
    bind-Traced _ _ (definition_for-Traced instance) λ workflow.
      bind-Traced _ _ (known_step-Traced _ _ _) λ def. bind-Traced _ _ (run_hooks-Traced _ _ _) λ _.
        unless_cancelled-Traced k true env instance row _
          (run_step-Traced k env instance row def safe))
