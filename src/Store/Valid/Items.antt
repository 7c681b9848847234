-- ===== src/Store/Valid/Items.antt =====
-- The operations on the queue keep a store valid.
use floxy_pro.Prelude.{Option, String, arith, nat_eq, none, refl, some, string_eq, ℕ, ◌+◌}
use floxy_pro.Model.{QueueItem}
use floxy_pro.Prelude.Maps.{adjust, delete, lookup}
use floxy_pro.Store.Defs.{MemoryStore, if_found-keeps}
use floxy_pro.Store.Queue.{
  claim, dequeue_step, enqueue_step, no_scan, postpone, release_queue_item, remove_from_queue,
  reschedule_and_release_queue_item, scan_queue, take_selected, unclaim,
}
use floxy_pro.Store.Valid.{IsValid, QueueEntry}
use floxy_pro.Store.Valid.Queue.{adjust-QueueIsValid, delete-QueueIsValid, insert-QueueIsValid}
use floxy_pro.Store.Valid.Tables.{with_queue}

module _ (s : MemoryStore) (h : IsValid s) where
  adjust_queue-IsValid :
      (k : ℕ) (f : QueueItem → QueueItem)
      → ((item : QueueItem)
          → QueueEntry s.next_queue_id k item
          → QueueEntry s.next_queue_id k (f item))
      → IsValid (record s { queue = adjust k f s.queue })
  adjust_queue-IsValid k f keep =
      with_queue s h (adjust k f s.queue) s.next_queue_id
        (adjust-QueueIsValid s.queue s.next_queue_id h.queue k f keep)

  pub enqueue_step-IsValid :
      (instance_id : ℕ) (step_id : Option ℕ) (priority delay now : ℕ)
      → IsValid (enqueue_step instance_id step_id priority delay now s).1
  unfolding enqueue_step
  enqueue_step-IsValid instance_id step_id priority delay now =
      with_queue s h _ _
        (insert-QueueIsValid s.queue s.next_queue_id h.queue _ (refl, omega arith, λ _. refl))

  pub dequeue_step-IsValid : (worker : String) (now : ℕ) → IsValid (dequeue_step worker now s).1
  unfolding dequeue_step
  dequeue_step-IsValid worker now = go (scan_queue s now no_scan s.queue).selected
    where
      go : (held : Option (ℕ × QueueItem)) → IsValid (take_selected worker now s held).1
      go none = h
      go (some (k, best)) =
          adjust_queue-IsValid k (claim worker now) (λ item old. (old.0, old.1, λ never. cc))

  pub remove_from_queue-IsValid : (id : ℕ) → IsValid (remove_from_queue id s).1
  unfolding remove_from_queue
  remove_from_queue-IsValid id =
      with_queue s h (delete id s.queue) s.next_queue_id
        (delete-QueueIsValid s.queue s.next_queue_id h.queue id)

  pub release_queue_item-IsValid : (id : ℕ) → IsValid (release_queue_item id s).1
  unfolding release_queue_item
  release_queue_item-IsValid id =
      if_found-keeps IsValid (lookup id s.queue) s (record s { queue = adjust id unclaim s.queue })
        h (adjust_queue-IsValid id unclaim (λ item old. (old.0, old.1, λ _. refl)))

  pub reschedule_and_release_queue_item-IsValid :
      (id delay now : ℕ) → IsValid (reschedule_and_release_queue_item id delay now s).1
  unfolding reschedule_and_release_queue_item
  reschedule_and_release_queue_item-IsValid id delay now =
      if_found-keeps IsValid (lookup id s.queue) s
        (record s { queue = adjust id (postpone (now + delay)) s.queue }) h
        (adjust_queue-IsValid id (postpone (now + delay)) (λ item old. (old.0, old.1, λ _. refl)))
