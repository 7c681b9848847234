-- ===== src/Store/Steps/Listing.antt =====
-- GetStepsByInstance: the steps of an instance, in the order of their creation.
use floxy_pro.Prelude.{
  List, Option, [], ap, arith, contains, inl, inr, nat_beq_iff, nat_eq, none, refl, some, subst,
  sym, true, ℕ, ◌↔◌, ◌∙◌, ◌∷◌, ◌≡◌,
}
use floxy_pro.Model.{WorkflowStep}
use floxy_pro.Prelude.Maps.{Map, lookup}
use floxy_pro.Prelude.Sorting.{Among, SortedBy, sort_by, sort_by-Among, sort_by-SortedBy}
use floxy_pro.Store.Defs.{MemoryStore, ok}
use floxy_pro.Store.Steps.{created_before, get_steps_by_instance, present, steps_of}
use floxy_pro.Store.Valid.{IsValid}
use floxy_pro.Store.Valid.Steps.{list_of, list_of-ListEntry}

present-Among_to :
    (m : Map ℕ WorkflowStep) (ids : List ℕ) (step : WorkflowStep)
    → Among step (present m ids)
    → (k : ℕ) × (contains ids k ≡ true) × (lookup k m ≡ some step)
unfolding present
present-Among_to m [] step a = absurd a
present-Among_to m (id ∷ ids) step a = go (lookup id m) refl (present-Among_to m ids step) a
  where
    go :
        (o : Option WorkflowStep)
        → lookup id m ≡ o
        → (Among step (present m ids)
            → (k : ℕ) × (contains ids k ≡ true) × (lookup k m ≡ some step))
        → Among step (elim o as (λ _. List WorkflowStep) [
          | none ↦ present m ids
          | some x ↦ x ∷ present m ids
        ])
        → (k : ℕ) × (contains (id ∷ ids) k ≡ true) × (lookup k m ≡ some step)
    go none e rest a' = let (k, c, l) = rest a' in (k, ground arith, l)
    go (some x) e rest (inl same) = (id, ground (arith, nat_beq_iff id id), e ∙ ap some (sym same))
    go (some x) e rest (inr a') = let (k, c, l) = rest a' in (k, ground arith, l)

present-Among_of :
    (m : Map ℕ WorkflowStep) (ids : List ℕ) (k : ℕ) (step : WorkflowStep)
    → contains ids k ≡ true
    → lookup k m ≡ some step
    → Among step (present m ids)
unfolding present
present-Among_of m [] k step c l = absurd (cc)
present-Among_of m (id ∷ ids) k step c l = ground (arith, present-Among_of m ids k step)

-- In a valid store GetStepsByInstance returns, in the order of their creation times, exactly the
-- steps of the store whose instance it is: the steps that stand under their identifier and name that
-- instance.
pub get_steps_by_instance_lem :
    (id : ℕ) (s : MemoryStore)
    → IsValid s
    → (l : List WorkflowStep) × ((get_steps_by_instance id s).0 ≡ ok l)
      × SortedBy (λ step. step.created_at) l
      × ((step : WorkflowStep)
          → Among step l ↔ ((lookup step.id s.steps ≡ some step) × (step.instance_id ≡ id)))
unfolding get_steps_by_instance
get_steps_by_instance_lem id s v = (
  sort_by created_before (steps_of id s),
  refl,
  sort_by-SortedBy (λ step. step.created_at) (steps_of id s),
  λ step.
      let sorted = sort_by-Among created_before step (steps_of id s) in
      (
        λ a.
            let (k, c, l) =
              present-Among_to s.steps (list_of s.steps_by_instance id) step (sorted.0 a) in
            let own = v.steps.entries k step l in
            let owner =
              list_of-ListEntry s.steps s.steps_by_instance s.next_step_id v.steps id k c in
            (subst (λ i. lookup i s.steps ≡ some step) (sym own.0) l, owner.1 step l),
        λ here. sorted.1 (
            present-Among_of s.steps (list_of s.steps_by_instance id) step.id step
              (rw here.1 at (v.steps.entries step.id step here.0).2) here.0),
      ),
)
