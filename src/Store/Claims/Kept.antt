-- ===== src/Store/Claims/Kept.antt =====
-- An operation that does not give item `k` back leaves it claimed, or gone.
use floxy_pro.Prelude.{
  Bool, Option, String, [], arith, false, inl, inr, is_set, nat_eq, none, refl, some, string_eq,
  suc, true, ℕ, ◌+◌, ◌∷◌, ◌≡◌,
}
use floxy_pro.Model.{QueueItem, WorkflowInstance}
use floxy_pro.Prelude.Maps.{Map, adjust, delete, delete_where, insert, lookup}
use floxy_pro.Prelude.Maps.Distinct.{IsDistinct}
use floxy_pro.Prelude.Maps.Everywhere.{adjust_cases, delete_cases, delete_where_cases, insert_cases}
use floxy_pro.Store.Claims.{IsTaken, Taken, frees}
use floxy_pro.Store.Cleanup.{cleanup_old_workflows, forget_instance, forget_old}
use floxy_pro.Store.DeadLetters.{create_dead_letter_record, requeue_dead_letter, requeued}
use floxy_pro.Store.Definitions.{save_workflow_definition}
use floxy_pro.Store.Defs.{MemoryStore, if_found-keeps, set_aging_enabled, set_aging_rate}
use floxy_pro.Store.Events.{log_event}
use floxy_pro.Store.Instances.{create_instance, update_instance_status}
use floxy_pro.Store.Joins.{
  add_to_join_wait_for, create_join_state, replace_in_join_wait_for, update_join_state,
}
use floxy_pro.Store.Operations.{Operation, perform}
use floxy_pro.Store.Queue.{
  claim, dequeue_step, enqueue_step, no_scan, postpone, release_queue_item, remove_from_queue,
  reschedule_and_release_queue_item, scan_queue, take_selected, unclaim,
}
use floxy_pro.Store.Requests.{create_cancel_request, create_human_decision, delete_cancel_request}
use floxy_pro.Store.Steps.{
  create_step, pause_active_steps_and_clear_queue, update_step, update_step_compensation_retry,
  update_step_status,
}

-- The operations that write to the queue.
abbrev uses_queue : Operation → Bool
uses_queue (Operation.enqueue _ _ _ _ _) = true
uses_queue (Operation.dequeue _ _) = true
uses_queue (Operation.remove _) = true
uses_queue (Operation.release _) = true
uses_queue (Operation.reschedule _ _ _) = true
uses_queue (Operation.freeze _) = true
uses_queue _ = false

forget_old-queue :
    (now : ℕ) (m : Map ℕ WorkflowInstance) (s : MemoryStore)
    → ((forget_old now m s).queue ≡ s.queue)
      × ((forget_old now m s).next_queue_id ≡ s.next_queue_id)
unfolding forget_old forget_instance
forget_old-queue now [] s = (refl, refl)
forget_old-queue now ((id, i) ∷ m) s =
    ground (arith, forget_old-queue now m (forget_instance id s), forget_old-queue now m s)

other-queue :
    (op : Operation) (s : MemoryStore)
    → uses_queue op ≡ false
    → ((perform op s).queue ≡ s.queue) × ((perform op s).next_queue_id ≡ s.next_queue_id)
unfolding perform save_workflow_definition log_event delete_cancel_request create_human_decision
    cleanup_old_workflows set_aging_enabled set_aging_rate create_instance update_instance_status
    create_step update_step update_step_status update_step_compensation_retry create_join_state
    update_join_state add_to_join_wait_for replace_in_join_wait_for create_cancel_request
    create_dead_letter_record requeue_dead_letter requeued
other-queue (Operation.cleanup now) s e = forget_old-queue now s.instances s
other-queue _ s e = ground arith

module _ (k : ℕ) (q : Map ℕ QueueItem) (n : ℕ) (h : IsTaken k q n) where
  insert-IsTaken : (item : QueueItem) → IsTaken k (insert n item q) (suc n)
  insert-IsTaken item = record {
    old = omega (arith, h.old);
    claimed = λ x seen. elim (insert_cases n k item x q seen) [
      | inl here ↦ absurd (omega (arith, h.old))
      | inr there ↦ h.claimed x there
    ];
  }

  adjust-IsTaken :
      (j : ℕ) (f : QueueItem → QueueItem)
      → (j ≡ k → (x : QueueItem) → is_set (f x).attempted_at ≡ true)
      → IsTaken k (adjust j f q) n
  adjust-IsTaken j f sets = record {
    old = h.old;
    claimed = λ x seen.
        let (y, there, changed) = adjust_cases j k f x q seen in
        elim changed [
          | inl same ↦ rw same (h.claimed y there)
          | inr (here, new) ↦ rw new (sets here y)
        ];
  }

  delete-IsTaken : (j : ℕ) → IsTaken k (delete j q) n
  delete-IsTaken j = record {
    old = h.old;
    claimed = λ x seen. h.claimed x (delete_cases j k x q seen).1;
  }

  delete_where-IsTaken : (p : QueueItem → Bool) → IsDistinct q → IsTaken k (delete_where p q) n
  delete_where-IsTaken p d = record {
    old = h.old;
    claimed = λ x seen. h.claimed x (delete_where_cases k p x q d seen).1;
  }

module _ (k : ℕ) (s : MemoryStore) (h : Taken k s) where
  dequeue-Taken : (worker : String) (now : ℕ) → Taken k (dequeue_step worker now s).1
  unfolding dequeue_step
  dequeue-Taken worker now = go (scan_queue s now no_scan s.queue).selected
    where
      go : (held : Option (ℕ × QueueItem)) → Taken k (take_selected worker now s held).1
      go none = h
      go (some (j, best)) =
          adjust-IsTaken k s.queue s.next_queue_id h j (claim worker now) (λ _ _. refl)

  unchanged-Taken : (op : Operation) → uses_queue op ≡ false → Taken k (perform op s)
  unchanged-Taken op e = rw ((other-queue op s e).0, (other-queue op s e).1) h

pub perform-Taken :
    (k : ℕ) (op : Operation) (s : MemoryStore)
    → IsDistinct s.queue
    → frees k op ≡ false
    → Taken k s
    → Taken k (perform op s)
unfolding perform enqueue_step remove_from_queue release_queue_item
    reschedule_and_release_queue_item pause_active_steps_and_clear_queue
perform-Taken k (Operation.enqueue _ _ _ _ _) s d e h = insert-IsTaken k s.queue s.next_queue_id h _
perform-Taken k (Operation.dequeue worker now) s d e h = dequeue-Taken k s h worker now
perform-Taken k (Operation.remove id) s d e h = delete-IsTaken k s.queue s.next_queue_id h id
perform-Taken k (Operation.freeze id) s d e h = delete_where-IsTaken k s.queue s.next_queue_id h _ d
perform-Taken k (Operation.release id) s d e h =
    if_found-keeps (Taken k) (lookup id s.queue) s _ h
      (adjust-IsTaken k s.queue s.next_queue_id h id unclaim (λ here x. ground arith))
perform-Taken k (Operation.reschedule id delay now) s d e h =
    if_found-keeps (Taken k) (lookup id s.queue) s _ h (
      adjust-IsTaken k s.queue s.next_queue_id h id (postpone (now + delay))
        (λ here x. ground arith))
perform-Taken k op s d e h = unchanged-Taken k s h op refl
