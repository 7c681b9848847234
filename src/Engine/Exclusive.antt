-- ===== src/Engine/Exclusive.antt =====
-- What the claim of a queue item promises while its step is executed.
-- The store that a call leaves, unless it blocks.
use floxy_pro.Prelude.{
  All, Bool, List, Option, String, [], arith, false, inl, inr, nat_eq, none, some, string_eq, subst,
  true, ℕ, ◌++◌, ◌∷◌, ◌≡◌, ◌⊎◌,
}
use floxy_pro.Engine.Compensation.{execute_compensation_step}
use floxy_pro.Engine.Env.{Env}
use floxy_pro.Engine.Execute.{execute_step}
use floxy_pro.Engine.Monad.{Action, Run, blocked, failed, returned}
use floxy_pro.Engine.Traced.{Trace, Traced, TracedRun}
use floxy_pro.Engine.Traced.Compensation.{execute_compensation_step-Traced}
use floxy_pro.Engine.Traced.Execute.{execute_step-Traced}
use floxy_pro.Engine.Traced.Ops.{keeps, kept}
use floxy_pro.Model.{QueueItem, Time, WorkflowInstance, WorkflowStep}
use floxy_pro.Store.Claims.{Never, frees}
use floxy_pro.Store.Claims.Exclusive.{claim_exclusive}
use floxy_pro.Store.Defs.{MemoryStore}
use floxy_pro.Store.Operations.{Operation, perform, perform_all}
use floxy_pro.Store.Queue.{dequeue_step}
use floxy_pro.Store.Valid.{IsValid}
use floxy_pro.Store.Valid.Items.{dequeue_step-IsValid}
use floxy_pro.Store.Valid.Sequences.{perform_all-IsValid}

unfoldable pub store_after : {A : Type 0} → Run A → Option MemoryStore
store_after (returned a t) = some t
store_after (failed e t) = some t
store_after blocked = none

All-keeps :
    (k : ℕ) (ops : List Operation)
    → All (λ op. keeps k op ≡ true) ops
    → All (λ op. frees k op ≡ false) ops
unfolding keeps
All-keeps k [] h = tt
All-keeps k (op ∷ ops) h = (ground (arith, h.0), All-keeps k ops h.1)

keep-All :
    (k : ℕ) (ops : List Operation)
    → All (λ op. frees k op ≡ false) ops
    → All (λ op. keeps k op ≡ true) ops
keep-All k [] h = tt
keep-All k (op ∷ ops) h = (kept k op h.0, keep-All k ops h.1)

Never-rest :
    (k : ℕ) (ops rest : List Operation) (s : MemoryStore)
    → Never k (ops ++ rest) s
    → Never k rest (perform_all ops s)
unfolding perform_all
Never-rest k [] rest s never = never
Never-rest k (op ∷ ops) rest s never = Never-rest k ops rest (perform op s) never.1

All-both :
    (k : ℕ) (ops rest : List Operation)
    → All (λ op. frees k op ≡ false) ops
    → All (λ op. frees k op ≡ false) rest
    → All (λ op. frees k op ≡ false) (ops ++ rest)
All-both k [] rest h i = i
All-both k (op ∷ ops) rest h i = (h.0, All-both k ops rest h.1 i)

TracedRun-store :
    {A : Type 0} {P : Operation → Bool} (s t : MemoryStore) (r : Run A)
    → TracedRun P s r
    → store_after r ≡ some t
    → Trace P s t
unfolding store_after
TracedRun-store {A} {P} s t (returned a u) trace e = subst (Trace P s) (cc) trace
TracedRun-store {A} {P} s t (failed f u) trace e = subst (Trace P s) (cc) trace
TracedRun-store s t blocked trace e = absurd (cc)

module _ (worker : String) (now : Time) (s : MemoryStore) (item : QueueItem) (valid : IsValid s)
    (claimed : (dequeue_step worker now s).0 ≡ some item) where
  Traced-exclusive :
      {A : Type 0} (m : Action A) (t : MemoryStore) (later : List Operation)
      → Traced (keeps item.id) m
      → store_after (m (dequeue_step worker now s).1) ≡ some t
      → All (λ op. frees item.id op ≡ false) later
      → IsValid t
        × Never item.id later t
        × ((ops : List Operation) × (perform_all ops (dequeue_step worker now s).1 ≡ t)
            × Never item.id (ops ++ later) (dequeue_step worker now s).1)
  Traced-exclusive m t later traced e free =
      let start = (dequeue_step worker now s).1 in
      let (ops, keep, path) = TracedRun-store _ t _ (traced.run start) e in
      let held =
        claim_exclusive worker now s item (ops ++ later) valid claimed
          (All-both item.id ops later (All-keeps item.id ops keep) free) in
      (
        subst IsValid path (perform_all-IsValid ops _ (dequeue_step-IsValid s valid worker now)),
        subst (Never item.id later) path (Never-rest item.id ops later start held),
        (ops, path, held),
      )

-- In a valid store, let DequeueStep hand an item to a worker, and let that worker execute a step or a
-- compensation of any instance, while the other goroutines do what does not release or reschedule
-- that item. Whenever the execution ends, with a result or with an error, the store is valid, and it
-- is the result of a sequence of operations none of which hands the item out; nor does any of the
-- operations that follow, as long as they do not release or reschedule the item either.
pub execute_step_exclusive :
    (env : Env) (worker : String) (now : Time) (s t : MemoryStore) (item : QueueItem)
    (instance : WorkflowInstance) (row : WorkflowStep) (later : List Operation)
    → IsValid s
    → (dequeue_step worker now s).0 ≡ some item
    → All (λ op. frees item.id op ≡ false) env.meanwhile
    → (store_after (execute_step env instance row (dequeue_step worker now s).1) ≡ some t)
      ⊎ (store_after (execute_compensation_step env instance row (dequeue_step worker now s).1)
          ≡ some t)
    → All (λ op. frees item.id op ≡ false) later
    → IsValid t
      × Never item.id later t
      × ((ops : List Operation) × (perform_all ops (dequeue_step worker now s).1 ≡ t)
          × Never item.id (ops ++ later) (dequeue_step worker now s).1)
execute_step_exclusive env worker now s t item instance row later valid claimed safe (inl e) free =
    Traced-exclusive worker now s item valid claimed _ t later
      (execute_step-Traced item.id env instance row (keep-All item.id env.meanwhile safe)) e free
execute_step_exclusive env worker now s t item instance row later valid claimed safe (inr e) free =
    Traced-exclusive worker now s item valid claimed _ t later
      (execute_compensation_step-Traced item.id env instance row
        (keep-All item.id env.meanwhile safe))
      e free
