-- ===== src/Store/Queue/Selection.antt =====
-- DequeueStep: which item the scan selects, among those that are due and not claimed.
use floxy_pro.Prelude.{
  All, Option, String, [], arith, nat_eq, none, refl, some, string_eq, suc, ℕ, ◌<◌, ◌∷◌, ◌≡◌, ◌≤◌,
  ◌⊎◌,
}
use floxy_pro.Model.{QueueItem, Time}
use floxy_pro.Prelude.Maps.{Map, adjust, lookup}
use floxy_pro.Prelude.Maps.Distinct.{IsDistinct, entries_found}
use floxy_pro.Store.Defs.{MemoryStore}
use floxy_pro.Store.Queue.{
  Scan, claim, dequeue_step, effective_priority, no_scan, scan_queue, take_selected, visit,
}

-- Not claimed, and scheduled no later than now.
pub record IsDue (now : Time) (item : QueueItem) : Type 0 where
  pub unclaimed : item.attempted_at ≡ none
  pub scheduled : item.scheduled_at ≤ now

module _ (s : MemoryStore) (now : Time) where
  -- `best` goes before `item`: a higher priority, or the same and scheduled no later.
  abbrev pub Precedes : QueueItem → QueueItem → Type 0
  Precedes best item =
      (effective_priority s now item < effective_priority s now best)
      ⊎ (effective_priority s now item ≡ effective_priority s now best)
        × (best.scheduled_at ≤ item.scheduled_at)

  -- What the scan holds is due, and its limit is that of the item that it holds.
  abbrev pub Holds : Option (ℕ × QueueItem) → ℕ → Type 0
  Holds none limit = limit ≡ 0
  Holds (some (k, best)) limit = (limit ≡ suc (effective_priority s now best)) × IsDue now best

  -- What the scan holds goes before `item`.
  abbrev pub Covers : Option (ℕ × QueueItem) → QueueItem → Type 0
  Covers none item = ⊥
  Covers (some (k, best)) item = Precedes best item

  -- The scan after a visit of one entry, for a scan by its two fields.
  visit-Holds :
      (limit : ℕ) (held : Option (ℕ × QueueItem)) (k : ℕ) (item : QueueItem)
      → Holds held limit
      → let after = visit s now (record { limit = limit; selected = held }) k item in
        Holds after.selected after.limit
  unfolding visit
  visit-Holds limit none k item h = ground arith
  visit-Holds limit (some (j, best)) k item h = ground arith

  visit-Covers :
      (limit : ℕ) (held : Option (ℕ × QueueItem)) (k : ℕ) (item x : QueueItem)
      → Holds held limit
      → Covers held x
      → Covers (visit s now (record { limit = limit; selected = held }) k item).selected x
  unfolding visit
  visit-Covers limit none k item x h c = absurd c
  visit-Covers limit (some (j, best)) k item x h c = ground arith

  visit-Covers_self :
      (limit : ℕ) (held : Option (ℕ × QueueItem)) (k : ℕ) (item : QueueItem)
      → Holds held limit
      → IsDue now item
      → Covers (visit s now (record { limit = limit; selected = held }) k item).selected item
  unfolding visit
  visit-Covers_self limit none k item h d = ground arith
  visit-Covers_self limit (some (j, best)) k item h d = ground arith

  pub scan_queue-Holds :
      (m : Map ℕ QueueItem) (scan : Scan)
      → Holds scan.selected scan.limit
      → let after = scan_queue s now scan m in Holds after.selected after.limit
  unfolding scan_queue
  scan_queue-Holds [] scan h = h
  scan_queue-Holds ((k, item) ∷ m) scan h =
      scan_queue-Holds m (visit s now scan k item) (visit-Holds scan.limit scan.selected k item h)

  scan_queue-Covers :
      (m : Map ℕ QueueItem) (scan : Scan) (x : QueueItem)
      → Holds scan.selected scan.limit
      → Covers scan.selected x
      → Covers (scan_queue s now scan m).selected x
  unfolding scan_queue
  scan_queue-Covers [] scan x h c = c
  scan_queue-Covers ((k, item) ∷ m) scan x h c =
      scan_queue-Covers m (visit s now scan k item) x
        (visit-Holds scan.limit scan.selected k item h)
        (visit-Covers scan.limit scan.selected k item x h c)

  -- Every due entry is covered by what the scan ends with.
  pub scan_queue-Covers-All :
      (m : Map ℕ QueueItem) (scan : Scan)
      → Holds scan.selected scan.limit
      → All (λ entry. IsDue now entry.1 → Covers (scan_queue s now scan m).selected entry.1) m
  unfolding scan_queue
  scan_queue-Covers-All [] scan h = tt
  scan_queue-Covers-All ((k, item) ∷ m) scan h =
      let h' = visit-Holds scan.limit scan.selected k item h in
      (
        λ d.
            scan_queue-Covers m (visit s now scan k item) item h'
              (visit-Covers_self scan.limit scan.selected k item h d),
        scan_queue-Covers-All m (visit s now scan k item) h',
      )

  -- What is selected is an entry that was there, or was held before.
  abbrev IsEntry : Map ℕ QueueItem → Option (ℕ × QueueItem) → Type 0
  IsEntry full none = Unit
  IsEntry full (some (k, best)) = lookup k full ≡ some best

  visit-IsEntry :
      (full : Map ℕ QueueItem) (scan : Scan) (k : ℕ) (item : QueueItem)
      → lookup k full ≡ some item
      → IsEntry full scan.selected
      → IsEntry full (visit s now scan k item).selected
  unfolding visit
  visit-IsEntry full scan k item e h = ground arith

  scan_queue-IsEntry :
      (full m : Map ℕ QueueItem) (scan : Scan)
      → All (λ entry. lookup entry.0 full ≡ some entry.1) m
      → IsEntry full scan.selected
      → IsEntry full (scan_queue s now scan m).selected
  unfolding scan_queue
  scan_queue-IsEntry full [] scan es h = h
  scan_queue-IsEntry full ((k, item) ∷ m) scan es h =
      scan_queue-IsEntry full m (visit s now scan k item) es.1
        (visit-IsEntry full scan k item es.0 h)

-- What a worker that asks for work is told, and what the queue is afterwards.
pub record Selects (worker : String) (now : Time) (s : MemoryStore) (r : QueueItem) : Type 0 where
  pub key : ℕ
  pub item : QueueItem
  pub queued : lookup key s.queue ≡ some item
  pub due : IsDue now item
  pub first : All (λ entry. IsDue now entry.1 → Precedes s now item entry.1) s.queue
  pub returned : r ≡ claim worker now item
  pub stored :
      (dequeue_step worker now s).1 ≡ record s { queue = adjust key (claim worker now) s.queue }

-- DequeueStep returns an entry of the queue that was due and unclaimed, that no due entry goes
-- before (a higher effective priority, or the same and scheduled earlier), stamped with the worker
-- and the time; in the store only the entry of that key changes, by the same stamp.
pub dequeue_step-Selects :
    (worker : String) (now : Time) (s : MemoryStore) (r : QueueItem)
    → IsDistinct s.queue
    → (dequeue_step worker now s).0 ≡ some r
    → Selects worker now s r
unfolding dequeue_step
dequeue_step-Selects worker now s r d e =
    go (scan_queue s now no_scan s.queue).selected refl
      (scan_queue-Holds s now s.queue no_scan refl)
      (scan_queue-Covers-All s now s.queue no_scan refl)
      (scan_queue-IsEntry s now s.queue s.queue no_scan (entries_found s.queue d) tt) e
  where
    go :
        (held : Option (ℕ × QueueItem))
        → (scan_queue s now no_scan s.queue).selected ≡ held
        → Holds s now held (scan_queue s now no_scan s.queue).limit
        → All (λ entry. IsDue now entry.1 → Covers s now held entry.1) s.queue
        → IsEntry s now s.queue held
        → (take_selected worker now s held).0 ≡ some r
        → Selects worker now s r
    go none eq h c i e' = cc
    go (some (k, best)) eq h c i e' = record {
      key = k;
      item = best;
      queued = i;
      due = h.1;
      first = c;
      returned = cc;
      stored = rw eq refl;
    }
