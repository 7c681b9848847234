-- ===== src/Engine/Traced/Handlers.antt =====
-- The handling of a step by its type as operations of the store, as long as the goroutines that run
-- meanwhile do not give the item back.
use floxy_pro.Prelude.{All, String, nat_eq, refl, string_eq, true, ℕ, ◌≡◌}
use floxy_pro.Engine.Env.{Env}
use floxy_pro.Engine.Handlers.{
  call_locked, execute_condition, execute_fork, execute_join, execute_task, fork_join, fork_step,
  interleave,
}
use floxy_pro.Engine.Human.{await_decision, execute_human, note_decision, process_human_decision}
use floxy_pro.Engine.Monad.{attempt_locked}
use floxy_pro.Engine.Traced.{Traced, bind-Traced, or_raise-Traced}
use floxy_pro.Engine.Traced.Calls.{work_rules}
use floxy_pro.Engine.Traced.Ops.{keeps}
use floxy_pro.Graph.{Steps}
use floxy_pro.Model.{
  HumanDecision, HumanDecisionRecord, RawMessage, StepDefinition, WorkflowInstance, WorkflowStep,
}
use floxy_pro.Store.Defs.{MemoryStore}
use floxy_pro.Store.Joins.{Locked}

pub interleave-Traced :
    (k : ℕ) (env : Env)
    → All (λ op. keeps k op ≡ true) env.meanwhile
    → Traced (keeps k) (interleave env)
unfolding interleave
interleave-Traced k env safe = record { run = λ s. (env.meanwhile, safe, refl) }

call_locked-Traced :
    (k : ℕ) (context : String) (op : MemoryStore → Locked Unit)
    → Traced (keeps k) (attempt_locked op)
    → Traced (keeps k) (call_locked context op)
unfolding call_locked
call_locked-Traced k context op traced = search (work_rules) depth 12

pub execute_task-Traced :
    (k : ℕ) (env : Env) (instance : WorkflowInstance) (row : WorkflowStep) (def : StepDefinition)
    → All (λ op. keeps k op ≡ true) env.meanwhile
    → Traced (keeps k) (execute_task env instance row def)
unfolding execute_task
execute_task-Traced k env instance row def safe =
    bind-Traced _ _ (or_raise-Traced _ _)
      λ handler. bind-Traced _ _ (interleave-Traced k env safe) λ _. search work_rules

fork_step-Traced :
    (k : ℕ) (env : Env) (id : ℕ) (steps : Steps) (input : RawMessage) (name : String)
    → Traced (keeps k) (fork_step env id steps input name)
unfolding fork_step
fork_step-Traced k env id steps input name = search work_rules depth 12

fork_join-Traced :
    (k : ℕ) (env : Env) (id : ℕ) (step_id : ℕ) (def : StepDefinition) (steps : Steps)
    (name : String)
    → Traced (keeps k) (fork_join env id step_id def steps name)
unfolding fork_join
fork_join-Traced k env id step_id def steps name = search (work_rules, call_locked-Traced) depth 12

pub execute_fork-Traced :
    (k : ℕ) (env : Env) (instance : WorkflowInstance) (row : WorkflowStep) (def : StepDefinition)
    → Traced (keeps k) (execute_fork env instance row def)
unfolding execute_fork
execute_fork-Traced k env instance row def =
    search (work_rules, fork_step-Traced, fork_join-Traced) depth 12

pub execute_join-Traced :
    (k : ℕ) (env : Env) (instance : WorkflowInstance) (row : WorkflowStep)
    → Traced (keeps k) (execute_join env instance row)
unfolding execute_join
execute_join-Traced k env instance row = search work_rules depth 12

pub execute_condition-Traced :
    (k : ℕ) (env : Env) (instance : WorkflowInstance) (row : WorkflowStep) (def : StepDefinition)
    → Traced (keeps k) (execute_condition env instance row def)
unfolding execute_condition
execute_condition-Traced k env instance row def = search work_rules depth 12

await_decision-Traced :
    (k : ℕ) (env : Env) (instance : WorkflowInstance) (row : WorkflowStep) (def : StepDefinition)
    → Traced (keeps k) (await_decision env instance row def)
unfolding await_decision
await_decision-Traced k env instance row def = search work_rules depth 12

note_decision-Traced :
    (k : ℕ) (env : Env) (instance : WorkflowInstance) (row : WorkflowStep)
    (rec : HumanDecisionRecord) (decision : HumanDecision)
    → Traced (keeps k) (note_decision env instance row rec decision)
unfolding note_decision
note_decision-Traced k env instance row rec HumanDecision.confirmed = search work_rules
note_decision-Traced k env instance row rec HumanDecision.rejected = search work_rules

process_human_decision-Traced :
    (k : ℕ) (env : Env) (instance : WorkflowInstance) (row : WorkflowStep)
    (rec : HumanDecisionRecord)
    → Traced (keeps k) (process_human_decision env instance row rec)
unfolding process_human_decision
process_human_decision-Traced k env instance row rec =
    search (work_rules, note_decision-Traced) depth 12

pub execute_human-Traced :
    (k : ℕ) (env : Env) (instance : WorkflowInstance) (row : WorkflowStep) (def : StepDefinition)
    → Traced (keeps k) (execute_human env instance row def)
unfolding execute_human
execute_human-Traced k env instance row def =
    search (work_rules, await_decision-Traced, process_human_decision-Traced) depth 12
