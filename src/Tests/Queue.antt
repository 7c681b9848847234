-- ===== src/Tests/Queue.antt =====
-- A queue with three items, two workers and their claims.
use floxy_pro.Prelude.{List, [], nat_eq, none, refl, some, string_eq, ℕ, ◌∷◌, ◌≡◌, ◌≤◌, ◌⊎◌}
use floxy_pro.Model.{QueueItem}
use floxy_pro.Prelude.Maps.{adjust, insert, lookup}
use floxy_pro.Store.Claims.{Never, handed_out}
use floxy_pro.Store.Claims.Exclusive.{claim_exclusive}
use floxy_pro.Store.Defs.{MemoryStore, entity_not_found, err, new_memory_store, ok}
use floxy_pro.Store.Operations.{Operation, perform, perform_all}
use floxy_pro.Store.Queue.{
  dequeue_step, effective_priority, enqueue_step, release_queue_item,
  reschedule_and_release_queue_item, scan_queue, visit,
}
use floxy_pro.Store.Queue.Idle.{dequeue_step-none}
use floxy_pro.Store.Queue.Leases.{release-dequeue, reschedule_lem}
use floxy_pro.Store.Queue.Selection.{IsDue, Selects, dequeue_step-Selects}
use floxy_pro.Store.Valid.{IsValid}
use floxy_pro.Store.Valid.Sequences.{reachable-IsValid}

abbrev jobs : List Operation
jobs =
    Operation.enqueue 7 (some 1) 50 0 1000
    ∷ Operation.enqueue 7 (some 2) 100 500 1000
    ∷ Operation.enqueue 8 (some 3) 100 0 1200
    ∷ []

abbrev busy : MemoryStore
busy = perform_all jobs new_memory_store

abbrev third : QueueItem
third = record {
  id = 3;
  instance_id = 8;
  step_id = some 3;
  scheduled_at = 1200;
  attempted_at = some 1300;
  attempted_by = some "a";
  priority = 100;
}

dequeue_third : (dequeue_step "a" 1300 busy).0 ≡ some third
unfolding perform_all perform new_memory_store enqueue_step dequeue_step scan_queue visit
    effective_priority insert adjust
dequeue_third = refl

-- The items in the order in which two workers get them: the highest priority first, then the item
-- of the lower priority, and the one that was scheduled later once its time has come.
dequeue_order :
    handed_out (Operation.dequeue "b" 1600) (perform (Operation.dequeue "a" 1300) busy)
    ≡ some (record {
      id = 2;
      instance_id = 7;
      step_id = some 2;
      scheduled_at = 1500;
      attempted_at = some 1600;
      attempted_by = some "b";
      priority = 100;
    })
unfolding perform_all perform new_memory_store enqueue_step dequeue_step scan_queue visit
    effective_priority insert adjust
dequeue_order = refl

busy-IsValid : IsValid busy
busy-IsValid = reachable-IsValid jobs

reachable-IsValid_example : IsValid busy
reachable-IsValid_example = reachable-IsValid jobs

dequeue_step-Selects_example : Selects "a" 1300 busy third
dequeue_step-Selects_example =
    dequeue_step-Selects "a" 1300 busy third (busy-IsValid).queue.distinct dequeue_third

claim_exclusive_example :
    Never 3
      (Operation.dequeue "b" 1600 ∷ Operation.release 1 ∷ Operation.dequeue "c" 1700 ∷ [])
      (dequeue_step "a" 1300 busy).1
claim_exclusive_example =
    claim_exclusive "a" 1300 busy third
      (Operation.dequeue "b" 1600 ∷ Operation.release 1 ∷ Operation.dequeue "c" 1700 ∷ [])
      busy-IsValid dequeue_third (refl, (refl, (refl, tt)))

release-dequeue_example : release_queue_item 3 (dequeue_step "a" 1300 busy).1 ≡ (ok tt, busy)
release-dequeue_example = release-dequeue "a" 1300 busy third busy-IsValid dequeue_third

reschedule_lem_example :
    let after = reschedule_and_release_queue_item 2 100 1000 busy in
    (lookup 2 busy.queue ≡ none) × (after ≡ (err entity_not_found, busy))
    ⊎ (old : QueueItem) × (new : QueueItem) × (lookup 2 busy.queue ≡ some old)
      × (after.0 ≡ ok tt)
      × (lookup 2 after.1.queue ≡ some new)
      × (new.attempted_at ≡ none)
      × (new.attempted_by ≡ none)
      × (old.scheduled_at ≤ new.scheduled_at)
      × (1100 ≤ new.scheduled_at)
reschedule_lem_example = reschedule_lem 2 100 1000 busy

-- Before the time of the first item.
nothing_due : (dequeue_step "a" 900 busy).0 ≡ none
unfolding perform_all perform new_memory_store enqueue_step dequeue_step scan_queue visit
    effective_priority insert adjust
nothing_due = refl

dequeue_step-none_example :
    ((k : ℕ) (item : QueueItem) → lookup k busy.queue ≡ some item → IsDue 900 item → ⊥)
    × ((dequeue_step "a" 900 busy).1 ≡ busy)
dequeue_step-none_example = dequeue_step-none "a" 900 busy nothing_due
