-- ===== src/Store/Cleanup/Kept.antt =====
-- CleanupOldWorkflows: which instances it keeps.
-- Whether a list of entries has an old instance under the key.
use floxy_pro.Prelude.{
  Bool, Bool-cases, Option, Option-cases, [], arith, false, if◌then◌else◌, inl, inr, nat_eq, none,
  refl, some, ℕ, ◌&&◌, ◌==◌, ◌||◌, ◌↔◌, ◌∷◌, ◌≡◌,
}
use floxy_pro.Model.{Time, WorkflowInstance}
use floxy_pro.Prelude.Maps.{Map, lookup, lookup-delete}
use floxy_pro.Prelude.Maps.Distinct.{IsDistinct}
use floxy_pro.Store.Cleanup.{cleanup_old_workflows, forget_instance, forget_old, is_old}
use floxy_pro.Store.Defs.{MemoryStore, ok}

abbrev is_doomed : Time → ℕ → Map ℕ WorkflowInstance → Bool
is_doomed now k [] = false
is_doomed now k ((id, i) ∷ rest) = (id == k) && is_old now i.completed_at || is_doomed now k rest

forget_old-instances :
    (now : Time) (k : ℕ) (rest : Map ℕ WorkflowInstance) (s : MemoryStore)
    → lookup k (forget_old now rest s).instances
      ≡ (if is_doomed now k rest then none else lookup k s.instances)
unfolding forget_old forget_instance
forget_old-instances now k [] s = refl
forget_old-instances now k ((id, i) ∷ rest) s = elim (Bool-cases (is_old now i.completed_at)) [
  | inl old ↦ ground (
    arith,
    forget_old-instances now k rest (forget_instance id s),
    lookup-delete id k s.instances,
    old,
  )
  | inr recent ↦ ground (arith, forget_old-instances now k rest s, recent)
]

forget_old-queue :
    (now : Time) (rest : Map ℕ WorkflowInstance) (s : MemoryStore)
    → (forget_old now rest s).queue ≡ s.queue
unfolding forget_old forget_instance
forget_old-queue now [] s = refl
forget_old-queue now ((id, i) ∷ rest) s = elim (Bool-cases (is_old now i.completed_at)) [
  | inl old ↦ ground (arith, forget_old-queue now rest (forget_instance id s), old)
  | inr recent ↦ ground (arith, forget_old-queue now rest s, recent)
]

abbrev is_old_entry : Time → Option WorkflowInstance → Bool
is_old_entry now none = false
is_old_entry now (some i) = is_old now i.completed_at

doomed_entry :
    (now : Time) (k : ℕ) (m : Map ℕ WorkflowInstance)
    → IsDistinct m
    → is_doomed now k m ≡ is_old_entry now (lookup k m)
unfolding lookup
doomed_entry now k [] d = refl
doomed_entry now k ((id, i) ∷ m) d = ground (arith, doomed_entry now k m d.1)

-- In a store whose instances have distinct keys, CleanupOldWorkflows returns no error and keeps an
-- instance exactly when it has no completion time, or one that is no more than a day ago; the queue
-- stays as it is.
pub cleanup_old_workflows_lem :
    (now : Time) (s : MemoryStore)
    → IsDistinct s.instances
    → let (result, after) = cleanup_old_workflows now s in
      (result ≡ ok tt)
      × ((k : ℕ) (i : WorkflowInstance)
          → (lookup k after.instances ≡ some i)
            ↔ ((lookup k s.instances ≡ some i) × (is_old now i.completed_at ≡ false)))
      × (after.queue ≡ s.queue)
unfolding cleanup_old_workflows
cleanup_old_workflows_lem now s d = (
  refl,
  λ k i.
      let after = forget_old-instances now k s.instances s in
      let doomed = doomed_entry now k s.instances d in
      elim (Option-cases (lookup k s.instances)) [
        | inl absent ↦ ground (arith, after, absent)
        | inr (j, there) ↦ ground (arith, after, doomed, there)
      ],
  forget_old-queue now s.instances s,
)
