-- ===== src/Store/Valid/Joins.antt =====
-- The operations on join states keep a store valid.
use floxy_pro.Prelude.{
  Bool, List, Option, Option-cases, String, arith, contains, false, find?, if◌then◌else◌, inl, inr,
  nat_eq, none, pair_eq, refl, some, string_eq, true, ℕ, ◌==◌, ◌≡◌,
}
use floxy_pro.Model.{JoinState, JoinStrategy, WorkflowStep}
use floxy_pro.Prelude.Maps.{Map, insert, lookup}
use floxy_pro.Store.Defs.{JoinKey, MemoryStore, ok}
use floxy_pro.Store.Joins.{
  add_to_join_wait_for, catch_up_with, create_join_state, new_join_state, record_result,
  replace_in_join_wait_for, replace_name, returns, update_join_state, wait_also, wait_instead,
}
use floxy_pro.Store.Operations.{locked_after}
use floxy_pro.Store.Steps.{steps_of}
use floxy_pro.Store.Valid.{IsValid, JoinEntry, JoinsAreValid}
use floxy_pro.Store.Valid.Rows.{insert-JoinsAreValid}

module _ (s : MemoryStore) (h : IsValid s) where
  with_joins :
      (m : Map JoinKey JoinState) → JoinsAreValid m → IsValid (record s { join_states = m })
  with_joins m v = record {
    queue = h.queue;
    steps = h.steps;
    instances = h.instances;
    letters = h.letters;
    joins = v;
  }

  inserted :
      (key : JoinKey) (state : JoinState)
      → JoinEntry key state
      → IsValid (record s { join_states = insert key state s.join_states })
  inserted key state fits =
      with_joins (insert key state s.join_states)
        (insert-JoinsAreValid s.join_states h.joins key state fits)

  pub create_join_state-IsValid :
      (held : Bool) (id : ℕ) (name : String) (waiting : List String) (strategy : JoinStrategy)
      (now : ℕ)
      → IsValid (locked_after s (create_join_state held id name waiting strategy now s))
  unfolding create_join_state
  create_join_state-IsValid true id name waiting strategy now = h
  create_join_state-IsValid false id name waiting strategy now =
      elim (Option-cases (lookup (id, name) s.join_states)) [
        | inl absent ↦
            rw absent (inserted (id, name) (new_join_state id name waiting strategy now) refl)
        | inr there ↦ rw there.1 h
      ]

  -- The state that is found stands under its own key.
  own_key :
      (id : ℕ) (name : String) (state : JoinState)
      → lookup (id, name) s.join_states ≡ some state
      → JoinEntry (id, name) state
  own_key id name state seen = h.joins.entries (id, name) state seen

  record_result-JoinEntry :
      (key : JoinKey) (step : String) (success : Bool) (now : ℕ) (state : JoinState)
      → JoinEntry key state
      → JoinEntry key (record_result step success now state)
  unfolding record_result
  record_result-JoinEntry key step true now state fits = fits
  record_result-JoinEntry key step false now state fits = fits

  pub update_join_state-IsValid :
      (id : ℕ) (name step : String) (success : Bool) (now : ℕ)
      → IsValid (update_join_state id name step success now s).1
  unfolding update_join_state
  update_join_state-IsValid id name step success now =
      elim (Option-cases (lookup (id, name) s.join_states)) [
        | inl absent ↦ rw absent h
        | inr there ↦ rw there.1 (
            inserted (id, name) (record_result step success now there.0)
              (record_result-JoinEntry (id, name) step success now there.0
                (own_key id name there.0 there.1)))
      ]

  branch :
      (b : Bool) (after : MemoryStore)
      → IsValid after
      → IsValid (locked_after s (if b then returns (ok (tt {0})) s else returns (ok tt) after))
  branch true after v = h
  branch false after v = v

  pub add_to_join_wait_for-IsValid :
      (held : Bool) (id : ℕ) (name step : String) (now : ℕ)
      → IsValid (locked_after s (add_to_join_wait_for held id name step now s))
  unfolding add_to_join_wait_for
  add_to_join_wait_for-IsValid true id name step now = h
  add_to_join_wait_for-IsValid false id name step now =
      elim (Option-cases (lookup (id, name) s.join_states)) [
        | inl absent ↦ rw absent h
        | inr there ↦ rw there.1 (
            branch (contains there.0.waiting_for step) _
              (inserted (id, name) (wait_also step now there.0) (own_key id name there.0 there.1)))
      ]

  catch_up_with-JoinEntry :
      (key : JoinKey) (step : String) (row : Option WorkflowStep) (state : JoinState)
      → JoinEntry key state
      → JoinEntry key (catch_up_with step row state)
  catch_up_with-JoinEntry key step none state fits = fits
  catch_up_with-JoinEntry key step (some row) state fits = ground arith

  pub replace_in_join_wait_for-IsValid :
      (held : Bool) (id : ℕ) (name old new : String) (now : ℕ)
      → IsValid (locked_after s (replace_in_join_wait_for held id name old new now s))
  unfolding replace_in_join_wait_for
  replace_in_join_wait_for-IsValid true id name old new now = h
  replace_in_join_wait_for-IsValid false id name old new now =
      elim (Option-cases (lookup (id, name) s.join_states)) [
        | inl absent ↦ rw absent h
        | inr there ↦
            let row = find? (λ step. step.step_name == new) (steps_of id s) in
            rw there.1 (
              inserted (id, name) (wait_instead old new row now there.0)
                (catch_up_with-JoinEntry (id, name) new row
                  (record (there.0) { waiting_for = replace_name old new (there.0).waiting_for })
                  (own_key id name there.0 there.1)))
      ]
