-- ===== src/Store/Claims.antt =====
-- DequeueStep hands an item to one worker at a time: what a claim promises over later operations.
pub mod Kept
pub mod Exclusive
use floxy_pro.Prelude.{
  Bool, List, Option, [], false, is_set, nat_eq, none, some, true, ℕ, ◌<◌, ◌==◌, ◌∷◌, ◌≡◌, ◌≢◌,
}
use floxy_pro.Model.{QueueItem}
use floxy_pro.Prelude.Maps.{Map, lookup}
use floxy_pro.Store.Defs.{MemoryStore}
use floxy_pro.Store.Operations.{Operation, perform}
use floxy_pro.Store.Queue.{dequeue_step}

-- What an operation hands to a worker.
abbrev pub handed_out : Operation → MemoryStore → Option QueueItem
handed_out (Operation.dequeue worker now) s = (dequeue_step worker now s).0
handed_out (Operation.remove _) s = none
handed_out _ s = none

-- The operations that give item `k` back to the queue.
abbrev pub frees : ℕ → Operation → Bool
frees k (Operation.release id) = id == k
frees k (Operation.reschedule id _ _) = id == k
frees k _ = false

-- No operation of the sequence hands out item `k`.
abbrev pub Never : ℕ → List Operation → MemoryStore → Type 0
Never k [] s = Unit
Never k (op ∷ ops) s =
    ((r : QueueItem) → handed_out op s ≡ some r → r.id ≢ k) × Never k ops (perform op s)

-- Item `k` was enqueued, and is claimed if it is still there.
pub record IsTaken (k : ℕ) (queue : Map ℕ QueueItem) (bound : ℕ) : Type 0 where
  pub old : k < bound
  pub claimed : (item : QueueItem) → lookup k queue ≡ some item → is_set item.attempted_at ≡ true

abbrev pub Taken : ℕ → MemoryStore → Type 0
Taken k s = IsTaken k s.queue s.next_queue_id
