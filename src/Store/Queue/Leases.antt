-- ===== src/Store/Queue/Leases.antt =====
-- A claim, and what a release, a reschedule or a removal makes of it.
use floxy_pro.Prelude.{
  Eq, Option-cases, String, [], arith, inl, inr, nat_eq, none, refl, some, string_eq, ℕ, ◌+◌, ◌∷◌,
  ◌≡◌, ◌≤◌, ◌⊎◌,
}
use floxy_pro.Model.{QueueItem, Time}
use floxy_pro.Prelude.Maps.{Map, adjust, lookup, lookup-adjust}
use floxy_pro.Store.Defs.{MemoryStore, entity_not_found, err, ok}
use floxy_pro.Store.Queue.{
  claim, dequeue_step, postpone, release_queue_item, reschedule_and_release_queue_item, unclaim,
}
use floxy_pro.Store.Queue.Selection.{dequeue_step-Selects}
use floxy_pro.Store.Valid.{IsValid}

module _ {ℓ κ} {K : Type ℓ} {V : Type κ} ⦃e : Eq K⦄ where
  -- A change that is undone by the next one at the same key.
  adjust_undo :
      (k : K) (f g : V → V) (v : V) (m : Map K V)
      → lookup k m ≡ some v
      → f (g v) ≡ v
      → adjust k f (adjust k g m) ≡ m
  unfolding lookup adjust
  adjust_undo k f g v [] there undone = refl
  adjust_undo k f g v ((j, w) ∷ m) there undone =
      ground (arith, e.beq_iff j k, adjust_undo k f g v m)

unclaim-claim :
    (worker : String) (now : Time) (item : QueueItem)
    → item.attempted_at ≡ none
    → item.attempted_by ≡ none
    → unclaim (claim worker now item) ≡ item
unclaim-claim worker now item a b = ground arith

undo_claim :
    (worker : String) (now : Time) (s : MemoryStore) (k : ℕ) (item : QueueItem)
    → lookup k s.queue ≡ some item
    → item.attempted_at ≡ none
    → item.attempted_by ≡ none
    → release_queue_item k (record s { queue = adjust k (claim worker now) s.queue }) ≡ (ok tt, s)
unfolding release_queue_item
undo_claim worker now s k item there a b = ground (
  arith,
  lookup-adjust k k (claim worker now) s.queue,
  adjust_undo k unclaim (claim worker now) item s.queue there (unclaim-claim worker now item a b),
)

-- In a valid store, an item that DequeueStep hands out and ReleaseQueueItem gives back leaves the
-- store as it was before, and the release returns no error.
pub release-dequeue :
    (worker : String) (now : Time) (s : MemoryStore) (r : QueueItem)
    → IsValid s
    → (dequeue_step worker now s).0 ≡ some r
    → release_queue_item r.id (dequeue_step worker now s).1 ≡ (ok tt, s)
release-dequeue worker now s r v e =
    let sel = dequeue_step-Selects worker now s r v.queue.distinct e in
    let here = v.queue.entries sel.key sel.item sel.queued in
    let same : r.id ≡ sel.key = ground (arith, sel.returned) in
    rw (sel.stored, same)
      (undo_claim worker now s sel.key sel.item sel.queued sel.due.unclaimed
        (here.2 sel.due.unclaimed))

-- RescheduleAndReleaseQueueItem on an item that is there: the item is unclaimed and stands no earlier
-- than it did and no earlier than the delay from now; an identifier that is not there is an error
-- and nothing changes.
pub reschedule_lem :
    (id delay now : ℕ) (s : MemoryStore)
    → let after = reschedule_and_release_queue_item id delay now s in
      (lookup id s.queue ≡ none) × (after ≡ (err entity_not_found, s))
      ⊎ (old : QueueItem) × (new : QueueItem) × (lookup id s.queue ≡ some old)
        × (after.0 ≡ ok tt)
        × (lookup id after.1.queue ≡ some new)
        × (new.attempted_at ≡ none)
        × (new.attempted_by ≡ none)
        × (old.scheduled_at ≤ new.scheduled_at)
        × (now + delay ≤ new.scheduled_at)
unfolding reschedule_and_release_queue_item
reschedule_lem id delay now s = elim (Option-cases (lookup id s.queue)) [
  | inl absent ↦ inl (absent, rw absent refl)
  | inr there ↦
      let old = there.0 in
      let law = lookup-adjust id id (postpone (now + delay)) s.queue in
      inr (
        old,
        postpone (now + delay) old,
        there.1,
        ground (arith, there.1),
        ground (arith, there.1, law),
        refl,
        refl,
        ground arith,
        ground arith,
      )
]
