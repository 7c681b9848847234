-- ===== src/Engine/Ends/Rollback.antt =====
-- rollbackStepChainWithVisited: a depth of one call more than there are steps is enough.
use floxy_pro.Prelude.{
  Bool, List, String, [], ap, arith, false, is_set, length, nat_eq, string_eq, subst, suc, true,
  zero, ℕ, ◌<◌, ◌∷◌, ◌≡◌, ◌≤◌,
}
use floxy_pro.Engine.Ends.{
  Any, Ends, Ends-weaken, EndsRun, bind-Ends, choose-Ends, ends_rules, fold_each-Ends, is_fuel,
  known_step-Ends, pure-Any, pure-Ends,
}
use floxy_pro.Engine.Env.{Env}
use floxy_pro.Engine.Forks.{StepMap}
use floxy_pro.Engine.Monad.{Action, Fault, failed, fold_each}
use floxy_pro.Engine.Rollback.{
  bury_step, compensate_step, roll_back_row, rollback_step, rollback_step_chain,
  rollback_step_chain_with_visited,
}
use floxy_pro.Engine.Walks.{rounds}
use floxy_pro.Graph.Cycles.Fuel.{room, room-le_length, room-mark, room-mark_new}
use floxy_pro.Model.{StepDefinition, WorkflowDefinition, WorkflowStep}
use floxy_pro.Store.Defs.{MemoryStore}

bury_step-Any : (env : Env) (id : String) (row : WorkflowStep) → Ends Any (bury_step env id row)
unfolding bury_step
bury_step-Any env id row = search ends_rules depth 12

compensate_step-Any :
    (env : Env) (undo : StepDefinition) (row : WorkflowStep)
    → Ends Any (compensate_step env undo row)
unfolding compensate_step
compensate_step-Any env undo row = search ends_rules depth 12

rollback_step-Any :
    (env : Env) (def : WorkflowDefinition) (row : WorkflowStep)
    → Ends Any (rollback_step env def row)
unfolding rollback_step
rollback_step-Any env def row = search (ends_rules, bury_step-Any, compensate_step-Any) depth 12

roll_back_row-Any :
    (env : Env) (def : WorkflowDefinition) (rows : StepMap) (name : String)
    → Ends Any (roll_back_row env def rows name)
unfolding roll_back_row
roll_back_row-Any env def rows name = search (ends_rules, rollback_step-Any) depth 12

module _ (env : Env) (def : WorkflowDefinition) (save_point : String) (rows : StepMap) where
  -- As many steps as `n` are not visited yet.
  abbrev Within : ℕ → List String → Type 0
  Within n visited = room def.definition.steps visited ≤ n

  abbrev chain : ℕ → Bool → List String → String → Action (List String)
  chain = rollback_step_chain_with_visited env def save_point rows

  module _ (fuel : ℕ)
      (call : (n : ℕ) (p : Bool) (v : List String) (x : String)
        → Within n v
        → n < fuel
        → Ends (Within n) (chain fuel p v x)) where
    each :
        (n : ℕ) (names v : List String)
        → n < fuel
        → Within n v
        → Ends (Within n) (fold_each names v (chain fuel true))
    each n names v less h = fold_each-Ends (Within n) names v _ (λ w x i. call n true w x i less) h

    chain-step :
        (n : ℕ) (parallel : Bool) (visited : List String) (name : String)
        → Within n visited
        → n < suc fuel
        → Ends (Within n) (chain (suc fuel) parallel visited name)
    unfolding rollback_step_chain_with_visited
    chain-step n parallel visited name small enough =
        let steps = def.definition.steps in
        let m = room steps (name ∷ visited) in
        choose-Ends _ _ _ _ (λ seen. pure-Ends _ visited small)
          λ fresh.
            choose-Ends _ _ _ _
              (λ reached.
                pure-Ends _ (name ∷ visited) (omega (arith, small, room-mark steps visited name)))
              (λ before. bind-Ends _ _ _ _ (known_step-Ends _ name steps) λ step_def known.
                let less = room-mark_new steps visited name (ap is_set known) fresh in
                let few : m < fuel = omega (arith, less, small, enough) in
                bind-Ends (Within m) _ _ _ (each m _ (name ∷ visited) few (omega arith)) λ v h.
                  bind-Ends (Within m) _ _ _ (each m _ v few h) λ w i.
                    bind-Ends Any _ _ _ (roll_back_row-Any env def rows name) λ _ _.
                      choose-Ends _ _ _ _ (λ _. pure-Ends _ w (omega (arith, i, less, small)))
                        λ _. bind-Ends (Within m) _ _ _ (each m _ w few i) λ u j.
                          Ends-weaken (Within m) _ _ (λ v h. omega (arith, h, less, small))
                            (call m false u _ j few))

  chain-Ends :
      (fuel n : ℕ) (parallel : Bool) (visited : List String) (name : String)
      → Within n visited
      → n < fuel
      → Ends (Within n) (chain fuel parallel visited name)
  chain-Ends zero n parallel visited name small enough = absurd (omega arith)
  chain-Ends (suc fuel) n parallel visited name small enough =
      chain-step fuel (λ k p v x. chain-Ends fuel k p v x) n parallel visited name small enough

  -- A rollback of a chain of steps of any definition, from any step and to any save point, either
  -- blocks or ends, with a result or with an error of the store or of the definition: the bound on
  -- the depth of its recursion is never reached.
  pub rollback_step_chain_ends :
      (name : String) (s t : MemoryStore) (e : Fault)
      → rollback_step_chain env def save_point rows name s ≡ failed e t
      → is_fuel e ≡ false
  unfolding rollback_step_chain
  rollback_step_chain_ends name s t e path = subst (EndsRun Any) path (
      (bind-Ends _ Any _ _
          (chain-Ends (rounds def.definition.steps) (length def.definition.steps) false [] name
            (room-le_length def.definition.steps []) (omega arith))
          (λ _ _. pure-Any tt)).run
        s)
