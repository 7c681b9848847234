-- ===== src/Tests/Joins.antt =====
-- A join of two branches, and the mutex.
use floxy_pro.Prelude.{
  List, String, [], false, nat_eq, none, pair_eq, refl, some, string_eq, true, ◌∷◌, ◌≡◌, ◌⊎◌,
}
use floxy_pro.Model.{JoinState, JoinStrategy}
use floxy_pro.Prelude.Maps.{lookup}
use floxy_pro.Store.Defs.{MemoryStore, new_memory_store, ok}
use floxy_pro.Store.Joins.{
  add_to_join_wait_for, create_join_state, deadlock, get_join_state, join_state_key,
  replace_in_join_wait_for, returns,
}
use floxy_pro.Store.Joins.Mutex.{join_wait-deadlock}
use floxy_pro.Store.Joins.Outcome.{Outcome, join-Outcome, report_in_store}
use floxy_pro.Store.Operations.{locked_after}

abbrev branches : List String
branches = "left" ∷ "right" ∷ []

abbrev with_join : MemoryStore
with_join =
    locked_after new_memory_store
      (create_join_state false 1 "join" branches JoinStrategy.unset 5 new_memory_store)

join-Outcome_example :
    (state : JoinState) × ((get_join_state 1 "join" (
        report_in_store 1 "join" 9
          (("left", false) ∷ ("right", true) ∷ ("left", true) ∷ [])
          with_join)).0
      ≡ ok state)
    × Outcome branches (("left", false) ∷ ("right", true) ∷ ("left", true) ∷ []) state
unfolding new_memory_store lookup
join-Outcome_example =
    join-Outcome 1 "join" branches JoinStrategy.unset 5 9 "left" false
      (("right", true) ∷ ("left", true) ∷ []) new_memory_store refl (refl, (refl, tt))
      (refl, (refl, (refl, tt))) refl

join_wait-deadlock_example :
    (lookup (1, "join") new_memory_store.join_states ≡ none)
      × (add_to_join_wait_for false 1 "join" "extra" 9 new_memory_store ≡ deadlock)
      × (replace_in_join_wait_for false 1 "join" "cond#c" "extra" 9 new_memory_store ≡ deadlock)
    ⊎ (state : JoinState) × (added : MemoryStore) × (replaced : MemoryStore) × (lookup
          (1, "join")
          new_memory_store.join_states
        ≡ some state)
      × (add_to_join_wait_for false 1 "join" "extra" 9 new_memory_store ≡ returns (ok tt) added)
      × (replace_in_join_wait_for false 1 "join" "cond#c" "extra" 9 new_memory_store
          ≡ returns (ok tt) replaced)
unfolding join_state_key
join_wait-deadlock_example = join_wait-deadlock 1 "join" "extra" "cond#c" 9 new_memory_store
