-- ===== src/Store/Queue/Idle.antt =====
-- DequeueStep when it hands out nothing.
use floxy_pro.Prelude.{
  All, Bool-cases, Option, String, [], inl, inr, nat_eq, none, refl, some, string_eq, subst, ℕ,
  ◌==◌, ◌∷◌, ◌≡◌,
}
use floxy_pro.Model.{QueueItem, Time}
use floxy_pro.Prelude.Maps.{Map, lookup}
use floxy_pro.Store.Defs.{MemoryStore}
use floxy_pro.Store.Queue.{dequeue_step, no_scan, scan_queue, take_selected}
use floxy_pro.Store.Queue.Selection.{Covers, IsDue, scan_queue-Covers-All}

All-lookup :
    (P : QueueItem → Type 0) (m : Map ℕ QueueItem) (k : ℕ) (item : QueueItem)
    → All (λ entry. P entry.1) m
    → lookup k m ≡ some item
    → P item
unfolding lookup
All-lookup P [] k item all there = absurd (cc there)
All-lookup P ((j, first) ∷ m) k item all there = elim (Bool-cases (j == k)) [
  | inl same ↦ let e : some first ≡ some item = rw same at there in subst P (cc e) all.0
  | inr other ↦ All-lookup P m k item all.1 (rw other at there)
]

-- DequeueStep returns no item only when no item of the queue is due and unclaimed, and then it
-- changes nothing.
pub dequeue_step-none :
    (worker : String) (now : Time) (s : MemoryStore)
    → (dequeue_step worker now s).0 ≡ none
    → ((k : ℕ) (item : QueueItem) → lookup k s.queue ≡ some item → IsDue now item → ⊥)
      × ((dequeue_step worker now s).1 ≡ s)
unfolding dequeue_step
dequeue_step-none worker now s e =
    go (scan_queue s now no_scan s.queue).selected refl
      (scan_queue-Covers-All s now s.queue no_scan refl) e
  where
    go :
        (held : Option (ℕ × QueueItem))
        → (scan_queue s now no_scan s.queue).selected ≡ held
        → All (λ entry. IsDue now entry.1 → Covers s now held entry.1) s.queue
        → (take_selected worker now s held).0 ≡ none
        → ((k : ℕ) (item : QueueItem) → lookup k s.queue ≡ some item → IsDue now item → ⊥)
          × ((dequeue_step worker now s).1 ≡ s)
    go none eq c e' = (λ k item there due. All-lookup _ s.queue k item c there due, rw eq refl)
    go (some (k, best)) eq c e' = absurd (cc e')
