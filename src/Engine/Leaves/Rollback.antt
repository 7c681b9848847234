-- ===== src/Engine/Leaves/Rollback.antt =====
-- The rollback of a failed step: whatever becomes of it, stopping the branches and rolling back
-- returns no error.
use Prim.Native.String.{◌++◌ as str_append}
use floxy_pro.Prelude.{
  Bool, List, String, inl, inr, nat_eq, refl, some, string_eq, suc, zero, ℕ, ◌∙◌, ◌≡◌, ◌⊎◌,
}
use floxy_pro.Engine.Branches.{note_error, skip_step, stop_parallel_branches_in_fork}
use floxy_pro.Engine.Calls.{about, known_step, mark_step, schedule}
use floxy_pro.Engine.Env.{Env, fault_text}
use floxy_pro.Engine.Env.Logged.{log_lem, with_events}
use floxy_pro.Engine.Forks.{StepMap, is_step_in_fork_branch}
use floxy_pro.Engine.Leaves.{Leaves, LeavesRun, leaves_rules, raise-Leaves, when-Leaves}
use floxy_pro.Engine.Monad.{
  Action, Fault, Run, blocked, done, failed, on_either, out_of_fuel, pure, reads, recover, returned,
  settled, when, ◌>>=◌,
}
use floxy_pro.Engine.Names.{event_step_failed, key_error}
use floxy_pro.Engine.Outcome.{stop_and_roll_back}
use floxy_pro.Engine.Rollback.{
  bury_step, compensate_step, roll_back_row, rollback_step, rollback_step_chain,
  rollback_step_chain_with_visited, rollback_steps_to_save_point, rollback_to_save_point_or_root,
}
use floxy_pro.Graph.{Steps}
use floxy_pro.Model.{StepDefinition, WorkflowDefinition, WorkflowStep}
use floxy_pro.Store.Defs.{MemoryStore}

bury_step-Leaves : (env : Env) (id : String) (row : WorkflowStep) → Leaves (bury_step env id row)
unfolding bury_step mark_step
bury_step-Leaves env id row = search leaves_rules depth 12

compensate_step-Leaves :
    (env : Env) (undo : StepDefinition) (row : WorkflowStep) → Leaves (compensate_step env undo row)
unfolding compensate_step schedule
compensate_step-Leaves env undo row = search leaves_rules depth 12

rollback_step-Leaves :
    (env : Env) (def : WorkflowDefinition) (row : WorkflowStep) → Leaves (rollback_step env def row)
unfolding rollback_step known_step mark_step
rollback_step-Leaves env def row =
    search (leaves_rules, bury_step-Leaves, compensate_step-Leaves) depth 12

roll_back_row-Leaves :
    (env : Env) (def : WorkflowDefinition) (rows : StepMap) (name : String)
    → Leaves (roll_back_row env def rows name)
unfolding roll_back_row
roll_back_row-Leaves env def rows name = search (leaves_rules, rollback_step-Leaves) depth 12

chain-Leaves :
    (env : Env) (def : WorkflowDefinition) (save_point : String) (rows : StepMap) (fuel : ℕ)
    (parallel : Bool) (visited : List String) (name : String)
    → Leaves (rollback_step_chain_with_visited env def save_point rows fuel parallel visited name)
unfolding rollback_step_chain_with_visited known_step
chain-Leaves env def save_point rows zero parallel visited name = raise-Leaves out_of_fuel
chain-Leaves env def save_point rows (suc fuel) parallel visited name =
    let again = chain-Leaves env def save_point rows fuel in
    search (leaves_rules, roll_back_row-Leaves, again) depth 16

roll_back-Leaves :
    (env : Env) (id : ℕ) (row : WorkflowStep) (def : WorkflowDefinition)
    → Leaves (rollback_to_save_point_or_root env id row def)
unfolding rollback_to_save_point_or_root rollback_steps_to_save_point rollback_step_chain
roll_back-Leaves env id row def = search (leaves_rules, chain-Leaves) depth 12

skip_step-Leaves : (env : Env) (id : ℕ) (row : WorkflowStep) → Leaves (skip_step env id row)
unfolding skip_step
skip_step-Leaves env id row = search leaves_rules depth 12

stop_branches-Leaves :
    (env : Env) (id : ℕ) (name : String) (steps : Steps)
    → Leaves (stop_parallel_branches_in_fork env id name steps)
unfolding stop_parallel_branches_in_fork
stop_branches-Leaves env id name steps = search (leaves_rules, skip_step-Leaves) depth 14

-- An action whose error is a value returns one, unless it blocks.
recover-returns :
    {A : Type 0} (m : Action A) (s : MemoryStore)
    → Leaves m
    → (r : Fault ⊎ A) × (t : MemoryStore) × (recover m s ≡ returned r t)
      × (t.instances ≡ s.instances)
unfolding recover
recover-returns {A} m s leaves = go (m s) (leaves.run s)
  where
    go :
        (r : Run A)
        → LeavesRun s r
        → (x : Fault ⊎ A) × (t : MemoryStore) × (settled r ≡ returned x t)
          × (t.instances ≡ s.instances)
    go (returned a t) e = (inr a, t, refl, e)
    go (failed f t) e = (inl f, t, refl, e)
    go blocked e = absurd e

note_error-returns :
    (env : Env) (id : ℕ) (row : WorkflowStep) (event words : String) (r : Fault ⊎ Unit)
    (s : MemoryStore)
    → (t : MemoryStore) × (on_either r (note_error env id row event words) (λ _. done) s
        ≡ returned tt t)
      × (t.instances ≡ s.instances)
unfolding on_either note_error pure
note_error-returns env id row event words (inr tt) s = (s, refl, refl)
note_error-returns env id row event words (inl f) s =
    let (t, written) =
      log_lem env id (some row.id) event
        (about row.step_name key_error (str_append words (fault_text env f))) s in
    (with_events t s, written, refl)

pub stop_and_roll_back-returns :
    (env : Env) (id : ℕ) (row : WorkflowStep) (def : WorkflowDefinition) (s : MemoryStore)
    → (t : MemoryStore) × (stop_and_roll_back env id row def s ≡ returned tt t)
      × (t.instances ≡ s.instances)
unfolding stop_and_roll_back ◌>>=◌ reads
stop_and_roll_back-returns env id row def s =
    let stop =
      when (is_step_in_fork_branch id row.step_name s)
        (stop_parallel_branches_in_fork env id row.step_name def.definition.steps) in
    let (_, u, r1, e1) =
      recover-returns stop s (when-Leaves _ _ (stop_branches-Leaves env id row.step_name _)) in
    let (r, v, r2, e2) =
      recover-returns (rollback_to_save_point_or_root env id row def) u
        (roll_back-Leaves env id row def) in
    let (t, r3, e3) = note_error-returns env id row event_step_failed "rollback failed: " r v in
    (t, rw (r1, r2, r3) refl, e3 ∙ (e2 ∙ e1))
