-- ===== src/Store/Queue.antt =====
-- memory_store.go: EnqueueStep, DequeueStep, RemoveFromQueue, ReleaseQueueItem and
-- RescheduleAndReleaseQueueItem.
pub mod Leases
pub mod Idle
pub mod Selection
use floxy_pro.Prelude.{
  Bool, Option, String, [], false, if◌then◌else◌, is_set, ltb, nat_beq, nat_eq, none, some,
  string_eq, suc, ℕ, ◌&&◌, ◌*◌, ◌+◌, ◌-◌, ◌/◌, ◌||◌, ◌∷◌,
}
use floxy_pro.Model.{Duration, Priority, QueueItem, Time}
use floxy_pro.Prelude.Maps.{Map, adjust, delete, insert, lookup}
use floxy_pro.Store.Defs.{MemoryStore, Op, if_found, ok}

unfoldable pub enqueue_step : ℕ → Option ℕ → Priority → Duration → Time → Op Unit
enqueue_step instance_id step_id priority delay now s =
    let item : QueueItem = record {
      id = s.next_queue_id;
      instance_id = instance_id;
      step_id = step_id;
      scheduled_at = now + delay;
      attempted_at = none;
      attempted_by = none;
      priority = priority;
    } in
    (ok tt, record s { queue = insert item.id item s.queue; next_queue_id = suc s.next_queue_id })

-- A thousandth of a point for each second: nanoseconds times thousandths.
abbrev pub point : ℕ
point = 1000000000000

-- `int(float64(priority) + waitTime*agingRate)` with the cap, in exact arithmetic.
unfoldable pub effective_priority : MemoryStore → Time → QueueItem → Priority
effective_priority s now item =
    let aged = item.priority + (now - item.scheduled_at) * s.aging_rate / point in
    if s.aging_enabled && ltb 0 s.aging_rate
    then (if ltb 100 aged then 100 else aged)
    else item.priority

-- The variables of the loop: `limit` is `maxPriority + 1`, so that the initial -1 is 0. The selected
-- pointer is the key under which the map holds the item, with the item.
pub record Scan : Type 0 where
  pub limit : ℕ
  pub selected : Option (ℕ × QueueItem)

abbrev pub earlier : QueueItem → Option (ℕ × QueueItem) → Bool
earlier item none = false
earlier item (some (k, best)) = ltb item.scheduled_at best.scheduled_at

unfoldable pub visit : MemoryStore → Time → Scan → ℕ → QueueItem → Scan
visit s now scan key item =
    let priority = effective_priority s now item in
    if is_set item.attempted_at
    then scan
    else if ltb now item.scheduled_at
    then scan
    else if ltb scan.limit (suc priority)
        || (nat_beq scan.limit (suc priority) && earlier item scan.selected)
    then record { limit = suc priority; selected = some (key, item) }
    else scan

unfoldable pub scan_queue : MemoryStore → Time → Scan → Map ℕ QueueItem → Scan
scan_queue s now scan [] = scan
scan_queue s now scan ((key, item) ∷ rest) = scan_queue s now (visit s now scan key item) rest

abbrev pub no_scan : Scan
no_scan = record { limit = 0; selected = none }

abbrev pub claim : String → Time → QueueItem → QueueItem
claim worker now item = record item { attempted_at = some now; attempted_by = some worker }

abbrev pub take_selected :
    String → Time → MemoryStore → Option (ℕ × QueueItem) → Option QueueItem × MemoryStore
take_selected worker now s none = (none, s)
take_selected worker now s (some (key, item)) =
    (some (claim worker now item), record s { queue = adjust key (claim worker now) s.queue })

-- DequeueStep returns no error.
unfoldable pub dequeue_step : String → Time → MemoryStore → Option QueueItem × MemoryStore
dequeue_step worker now s = take_selected worker now s (scan_queue s now no_scan s.queue).selected

unfoldable pub remove_from_queue : ℕ → Op Unit
remove_from_queue id s = (ok tt, record s { queue = delete id s.queue })

abbrev pub unclaim : QueueItem → QueueItem
unclaim item = record item { attempted_at = none; attempted_by = none }

unfoldable pub release_queue_item : ℕ → Op Unit
release_queue_item id s =
    if_found (lookup id s.queue) s (record s { queue = adjust id unclaim s.queue })

-- The later of the two times.
abbrev pub postpone : Time → QueueItem → QueueItem
postpone at item =
    unclaim
      (record item { scheduled_at = if ltb at item.scheduled_at then item.scheduled_at else at })

unfoldable pub reschedule_and_release_queue_item : ℕ → Duration → Time → Op Unit
reschedule_and_release_queue_item id delay now s =
    if_found (lookup id s.queue) s (record s { queue = adjust id (postpone (now + delay)) s.queue })
