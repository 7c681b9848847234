-- ===== src/Store/Valid/Rows.antt =====
-- The operations on instances, dead letters and join states keep each row under its own key.
use floxy_pro.Prelude.{Bool, arith, nat_eq, pair_eq, suc, ℕ, ◌∙◌, ◌≡◌}
use floxy_pro.Model.{DeadLetterRecord, JoinState, WorkflowInstance}
use floxy_pro.Prelude.Maps.{Map, adjust, delete_where, insert}
use floxy_pro.Prelude.Maps.Distinct.{delete_where-IsDistinct, insert-IsDistinct}
use floxy_pro.Prelude.Maps.Everywhere.{
  Everywhere, adjust-Everywhere, delete_where-Everywhere, insert-Everywhere, weaken-Everywhere,
}
use floxy_pro.Store.Defs.{JoinKey}
use floxy_pro.Store.Valid.{InstanceEntry, JoinEntry, JoinsAreValid, LetterEntry}

module _ (m : Map ℕ WorkflowInstance) (n : ℕ) (h : Everywhere (InstanceEntry n) m) where
  pub insert-instances :
      (i : WorkflowInstance) → i.id ≡ n → Everywhere (InstanceEntry (suc n)) (insert n i m)
  insert-instances i named =
      insert-Everywhere (InstanceEntry (suc n)) m n i (named, omega arith)
        (weaken-Everywhere (InstanceEntry n) m (InstanceEntry (suc n))
          (λ k x old. (old.0, omega (arith, old.1))) h)

  pub adjust-instances :
      (k : ℕ) (f : WorkflowInstance → WorkflowInstance)
      → ((i : WorkflowInstance) → (f i).id ≡ i.id)
      → Everywhere (InstanceEntry n) (adjust k f m)
  adjust-instances k f same =
      adjust-Everywhere (InstanceEntry n) m k f (λ i old. (same i ∙ old.0, old.1)) h

module _ (m : Map ℕ DeadLetterRecord) (n : ℕ) (h : Everywhere (LetterEntry n) m) where
  pub insert-letters :
      (rec : DeadLetterRecord) → rec.id ≡ n → Everywhere (LetterEntry (suc n)) (insert n rec m)
  insert-letters rec named =
      insert-Everywhere (LetterEntry (suc n)) m n rec (named, omega arith)
        (weaken-Everywhere (LetterEntry n) m (LetterEntry (suc n))
          (λ k x old. (old.0, omega (arith, old.1))) h)

module _ (m : Map JoinKey JoinState) (h : JoinsAreValid m) where
  pub insert-JoinsAreValid :
      (key : JoinKey) (state : JoinState) → JoinEntry key state → JoinsAreValid (insert key state m)
  insert-JoinsAreValid key state fits = record {
    distinct = insert-IsDistinct key state m h.distinct;
    entries = insert-Everywhere JoinEntry m key state fits h.entries;
  }

  pub delete_where-JoinsAreValid : (p : JoinState → Bool) → JoinsAreValid (delete_where p m)
  delete_where-JoinsAreValid p = record {
    distinct = delete_where-IsDistinct p m h.distinct;
    entries = delete_where-Everywhere JoinEntry m p h.distinct h.entries;
  }
