-- ===== src/Store/Joins/Mutex.antt =====
-- The mutex of the store in AddToJoinWaitFor and ReplaceInJoinWaitFor.
use floxy_pro.Prelude.{
  Option-cases, String, arith, contains, false, find?, if◌then◌else◌, inl, inr, nat_eq, none,
  pair_eq, refl, some, string_eq, ℕ, ◌==◌, ◌≡◌, ◌⊎◌,
}
use floxy_pro.Model.{JoinState, Time}
use floxy_pro.Prelude.Maps.{insert, lookup}
use floxy_pro.Store.Defs.{MemoryStore, ok}
use floxy_pro.Store.Joins.{
  add_to_join_wait_for, deadlock, join_state_key, replace_in_join_wait_for, returns, wait_also,
  wait_instead,
}
use floxy_pro.Store.Steps.{steps_of}

-- With no join state under the key, AddToJoinWaitFor and ReplaceInJoinWaitFor call CreateJoinState while
-- they hold the mutex and never return; with one, both return, with no error.
pub join_wait-deadlock :
    (id : ℕ) (name step old : String) (now : Time) (s : MemoryStore)
    → (lookup (join_state_key id name) s.join_states ≡ none)
        × (add_to_join_wait_for false id name step now s ≡ deadlock)
        × (replace_in_join_wait_for false id name old step now s ≡ deadlock)
      ⊎ (state : JoinState) × (added : MemoryStore) × (replaced : MemoryStore) × (lookup
            (join_state_key id name)
            s.join_states
          ≡ some state)
        × (add_to_join_wait_for false id name step now s ≡ returns (ok tt) added)
        × (replace_in_join_wait_for false id name old step now s ≡ returns (ok tt) replaced)
unfolding add_to_join_wait_for replace_in_join_wait_for
join_wait-deadlock id name step old now s =
    elim (Option-cases (lookup (join_state_key id name) s.join_states)) [
      | inl absent ↦ inl (absent, rw absent refl, rw absent refl)
      | inr there ↦
          let state = there.0 in
          let row = find? (λ x. x.step_name == step) (steps_of id s) in
          inr (
            state,
            if contains state.waiting_for step then s else record s {
              join_states = insert (id, name) (wait_also step now state) s.join_states;
            },
            record s {
              join_states = insert (id, name) (wait_instead old step row now state) s.join_states;
            },
            there.1,
            rw there.1 (ground arith),
            rw there.1 refl,
          )
    ]
