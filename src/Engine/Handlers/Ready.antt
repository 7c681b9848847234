-- ===== src/Engine/Handlers/Ready.antt =====
-- A join step succeeds only when its join is ready.
use floxy_pro.Prelude.{ap, false, inl, inr, length, ltb, nat_eq, pair_eq, some, true, ◌&&◌, ◌≡◌}
use floxy_pro.Engine.Env.{Env}
use floxy_pro.Engine.Handlers.{execute_join, is_all}
use floxy_pro.Engine.Monad.{returned}
use floxy_pro.Engine.Returned.{
  bind-returned, call-returned, choose-returned, found-ok, raise-returned,
}
use floxy_pro.Model.{JoinState, RawMessage, WorkflowInstance, WorkflowStep}
use floxy_pro.Prelude.Maps.{lookup}
use floxy_pro.Store.Defs.{MemoryStore}
use floxy_pro.Store.Joins.{get_join_state, join_state_key}

-- Executing a join step returns an output only if the store holds a join state for it that is ready,
-- and either no step of that join has failed or its strategy is not the one that waits for all.
pub execute_join_ready :
    (env : Env) (instance : WorkflowInstance) (row : WorkflowStep) (output : RawMessage)
    (s t : MemoryStore)
    → execute_join env instance row s ≡ returned output t
    → (state : JoinState) × (lookup (join_state_key instance.id row.step_name) s.join_states
        ≡ some state)
      × (state.is_ready ≡ true)
      × ((ltb 0 (length state.failed) && is_all state.join_strategy) ≡ false)
unfolding execute_join get_join_state
execute_join_ready env instance row output s t e =
    let (state, u, read, after) = bind-returned _ _ s t output e in
    let (_, v, logged, last) = bind-returned _ _ u t output after in
    elim (choose-returned state.is_ready _ _ v t output last) [
      | inr (waits, fails) ↦ absurd (raise-returned _ v t output fails)
      | inl (ready, goes_on) ↦
          let (rows, w, listed, remaining) = bind-returned _ _ v t output goes_on in
          elim (choose-returned _ _ _ w t output remaining) [
            | inl (broken, fails) ↦ absurd (raise-returned _ w t output fails)
            | inr (sound, ends) ↦ (
              state,
              found-ok _ state (ap (λ r. r.0) (call-returned _ _ s u state read)),
              ready,
              sound,
            )
          ]
    ]
