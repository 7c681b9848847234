-- ===== src/Store/Claims/Exclusive.antt =====
-- A claimed item is handed out again only after a release or a reschedule of that item.
use floxy_pro.Prelude.{
  All, List, String, [], arith, false, nat_eq, some, string_eq, ℕ, ◌∷◌, ◌≡◌, ◌≢◌,
}
use floxy_pro.Model.{QueueItem, Time}
use floxy_pro.Prelude.Maps.{lookup-adjust}
use floxy_pro.Store.Claims.{Never, Taken, frees, handed_out}
use floxy_pro.Store.Claims.Kept.{perform-Taken}
use floxy_pro.Store.Defs.{MemoryStore}
use floxy_pro.Store.Operations.{Operation, perform}
use floxy_pro.Store.Queue.{claim, dequeue_step}
use floxy_pro.Store.Queue.Selection.{dequeue_step-Selects}
use floxy_pro.Store.Valid.{IsValid}
use floxy_pro.Store.Valid.Items.{dequeue_step-IsValid}
use floxy_pro.Store.Valid.Sequences.{perform-IsValid}

module _ (worker : String) (now : Time) (s : MemoryStore) (v : IsValid s) where
  -- What is handed out was in the queue and unclaimed.
  handed-untaken :
      (k : ℕ) (r : QueueItem) → Taken k s → (dequeue_step worker now s).0 ≡ some r → r.id ≢ k
  handed-untaken k r h e same =
      let sel = dequeue_step-Selects worker now s r v.queue.distinct e in
      let here = v.queue.entries sel.key sel.item sel.queued in
      ground (arith, sel.returned, sel.due.unclaimed, sel.queued, h.claimed sel.item)

  dequeued-Taken :
      (r : QueueItem)
      → (dequeue_step worker now s).0 ≡ some r
      → Taken r.id (dequeue_step worker now s).1
  dequeued-Taken r e =
      let sel = dequeue_step-Selects worker now s r v.queue.distinct e in
      let here = v.queue.entries sel.key sel.item sel.queued in
      let after = lookup-adjust sel.key r.id (claim worker now) s.queue in
      rw sel.stored (record {
        old = ground (arith, sel.returned);
        claimed = λ x seen. ground (arith, sel.returned, sel.queued, after);
      })

handed-ne :
    (k : ℕ) (op : Operation) (s : MemoryStore) (r : QueueItem)
    → IsValid s
    → Taken k s
    → handed_out op s ≡ some r
    → r.id ≢ k
handed-ne k (Operation.dequeue worker now) s r v h e = handed-untaken worker now s v k r h e
handed-ne k _ s r v h e = absurd (cc)

Never-handed :
    (k : ℕ) (ops : List Operation) (s : MemoryStore)
    → IsValid s
    → Taken k s
    → All (λ op. frees k op ≡ false) ops
    → Never k ops s
Never-handed k [] s v h free = tt
Never-handed k (op ∷ ops) s v h free = (
  λ r e. handed-ne k op s r v h e,
  Never-handed k ops (perform op s) (perform-IsValid op s v)
      (perform-Taken k op s v.queue.distinct free.0 h) free.1,
)

-- In a valid store, let DequeueStep hand item `r` to a worker. Whatever operations follow, in any
-- order and by any workers, none of them hands out an item with the identifier of `r`, as long as
-- none of them releases or reschedules that item.
pub claim_exclusive :
    (worker : String) (now : Time) (s : MemoryStore) (r : QueueItem) (ops : List Operation)
    → IsValid s
    → (dequeue_step worker now s).0 ≡ some r
    → All (λ op. frees r.id op ≡ false) ops
    → Never r.id ops (dequeue_step worker now s).1
claim_exclusive worker now s r ops v e free =
    Never-handed r.id ops (dequeue_step worker now s).1 (dequeue_step-IsValid s v worker now)
      (dequeued-Taken worker now s v r e) free
