-- ===== src/Store/Valid/Steps.antt =====
-- The operations on steps keep every step listed under its instance.
use floxy_pro.Prelude.{
  List, Option, [], arith, contains, contains-append, inl, inr, nat_beq, nat_eq, none, refl, some,
  suc, true, ℕ, ◌&&◌, ◌++◌, ◌==◌, ◌||◌, ◌∙◌, ◌∷◌, ◌≡◌, ◌⊎◌,
}
use floxy_pro.Model.{WorkflowStep}
use floxy_pro.Prelude.Maps.{
  Map, adjust, delete, delete_where, insert, lookup, lookup-delete, lookup-insert,
}
use floxy_pro.Prelude.Maps.Distinct.{adjust-IsDistinct, delete_where-IsDistinct, insert-IsDistinct}
use floxy_pro.Prelude.Maps.Everywhere.{
  Everywhere, adjust-Everywhere, adjust_cases, delete_cases, delete_where_cases, insert_cases,
}
use floxy_pro.Store.Defs.{or_nil}
use floxy_pro.Store.Steps.{write_each}
use floxy_pro.Store.Valid.{ListEntry, StepEntry, StepsAreValid}

-- A change of a step that keeps its identifier and its instance.
pub record IsTame (f : WorkflowStep → WorkflowStep) : Type 0 where
  pub same_id : (step : WorkflowStep) → (f step).id ≡ step.id
  pub same_instance : (step : WorkflowStep) → (f step).instance_id ≡ step.instance_id

module _ (m : Map ℕ WorkflowStep) (l : Map ℕ (List ℕ)) (n : ℕ) (h : StepsAreValid m l n) where
  pub adjust-StepsAreValid :
      (k : ℕ) (f : WorkflowStep → WorkflowStep) → IsTame f → StepsAreValid (adjust k f m) l n
  adjust-StepsAreValid k f tame = record {
    distinct = adjust-IsDistinct k f m h.distinct;
    entries =
        adjust-Everywhere (StepEntry l n) m k f
          (λ step old. (tame.same_id step ∙ old.0, old.1, rw (tame.same_instance step) old.2))
          h.entries;
    lists = λ i ids seen j member. (
      (h.lists i ids seen j member).0,
      λ step at_j.
          let (y, old, changed) = adjust_cases k j f step m at_j in
          let owner = (h.lists i ids seen j member).1 y old in
          elim changed [
            | inl same ↦ rw same owner
            | inr (_, new) ↦ rw (new, tame.same_instance y) owner
          ],
    );
  }

-- The list of an instance, and what it names after one more identifier is appended to that of `i`.
abbrev pub list_of : Map ℕ (List ℕ) → ℕ → List ℕ
list_of l i = or_nil (lookup i l)

abbrev pub append_to : ℕ → ℕ → Map ℕ (List ℕ) → Map ℕ (List ℕ)
append_to i n l = insert i (list_of l i ++ n ∷ []) l

pub contains-append_to :
    (l : Map ℕ (List ℕ)) (i n j k : ℕ)
    → contains (list_of (append_to i n l) j) k
      ≡ (contains (list_of l j) k || (nat_beq i j && nat_beq n k))
contains-append_to l i n j k =
    ground
      (arith, lookup-insert i j (list_of l i ++ n ∷ []) l, contains-append (list_of l i) (n ∷ []) k)

module _ (m : Map ℕ WorkflowStep) (l : Map ℕ (List ℕ)) (n : ℕ) (h : StepsAreValid m l n) where
  -- What a list names is below the counter, and a step that it names is of its instance.
  pub list_of-ListEntry : (i : ℕ) → ListEntry m n i (list_of l i)
  list_of-ListEntry i = go (lookup i l) refl
    where
      go : (o : Option (List ℕ)) → lookup i l ≡ o → ListEntry m n i (or_nil o)
      go none eq = λ k member. cc
      go (some ids) eq = h.lists i ids eq

  -- A step created under the next identifier, appended to the list of its instance.
  module _ (step : WorkflowStep) (named : step.id ≡ n) where
    create-entries :
        Everywhere (StepEntry (append_to step.instance_id n l) (suc n)) (insert n step m)
    create-entries k x seen = elim (insert_cases n k step x m seen) [
      | inl (here, new) ↦ ground (arith, contains-append_to l step.instance_id n step.instance_id n)
      | inr old ↦
          ground (arith, h.entries k x old, contains-append_to l step.instance_id n x.instance_id k)
    ]

    member_cases :
        (i k : ℕ) (ids : List ℕ)
        → lookup i (append_to step.instance_id n l) ≡ some ids
        → contains ids k ≡ true
        → (contains (list_of l i) k ≡ true) ⊎ (step.instance_id ≡ i) × (n ≡ k)
    member_cases i k ids seen member = ground (arith, contains-append_to l step.instance_id n i k)

    create-lists : Everywhere (ListEntry (insert n step m) (suc n)) (append_to step.instance_id n l)
    create-lists i ids seen k member = elim (member_cases i k ids seen member) [
      | inl old ↦
          let (low, owner) = list_of-ListEntry i k old in
          (
            omega arith,
            λ x at_k. elim (insert_cases n k step x m at_k) [
              | inl (here, new) ↦ absurd (omega arith)
              | inr there ↦ owner x there
            ],
          )
      | inr (mine, here) ↦ (
        omega arith,
        λ x at_k. elim (insert_cases n k step x m at_k) [
          | inl (_, new) ↦ rw new mine
          | inr there ↦ absurd (omega (arith, h.entries k x there))
        ],
      )
    ]

    pub create-StepsAreValid :
        StepsAreValid (insert n step m) (append_to step.instance_id n l) (suc n)
    create-StepsAreValid = record {
      distinct = insert-IsDistinct n step m h.distinct;
      entries = create-entries;
      lists = create-lists;
    }

  -- An instance forgotten with all its steps.
  pub forget-StepsAreValid :
      (i : ℕ) → StepsAreValid (delete_where (λ step. step.instance_id == i) m) (delete i l) n
  forget-StepsAreValid i = record {
    distinct = delete_where-IsDistinct _ m h.distinct;
    entries = λ k step seen.
        let (other, old) =
          delete_where_cases k (λ step. step.instance_id == i) step m h.distinct seen in
        ground (arith, h.entries k step old, lookup-delete i step.instance_id l);
    lists = λ j ids seen k member.
        let (_, old) = delete_cases i j ids l seen in
        let (low, owner) = h.lists j ids old k member in
        (
          low,
          λ step at_k.
              owner step
                (delete_where_cases k (λ step. step.instance_id == i) step m h.distinct at_k).1,
        );
  }

module _ (l : Map ℕ (List ℕ)) (n : ℕ) (f : WorkflowStep → WorkflowStep) (tame : IsTame f) where
  pub write_each-StepsAreValid :
      (ids : List ℕ) (m : Map ℕ WorkflowStep)
      → StepsAreValid m l n
      → StepsAreValid (write_each f ids m) l n
  unfolding write_each
  write_each-StepsAreValid [] m h = h
  write_each-StepsAreValid (id ∷ ids) m h =
      write_each-StepsAreValid ids (adjust id f m) (adjust-StepsAreValid m l n h id f tame)
