-- ===== src/Store/Defs.antt =====
-- memory_store.go: the struct, its constructor and its two settings; errors.go.
-- Each method holds the store's mutex from its first to its last statement, so it is one step of a
-- sequence of operations. The mutex itself is modelled in Store/Joins, where a method that holds it
-- calls another that takes it. The clock readings of a method are its arguments `now` and `later`.
use floxy_pro.Prelude.{
  Bool, List, Option, String, [], nat_eq, none, pair_eq, some, string_eq, true, ℕ,
}
use floxy_pro.Model.{
  DeadLetterRecord, HumanDecisionRecord, JoinState, QueueItem, WorkflowCancelRequest,
  WorkflowDefinition, WorkflowEvent, WorkflowInstance, WorkflowStep,
}
use floxy_pro.Prelude.Maps.{Map}

-- `entity_not_found` is `ErrEntityNotFound`; `marshal_failed` is an error of `json.Marshal`.
pub data Error : Type 0 where
  entity_not_found marshal_failed : Error

pub data Result {ℓ} (A : Type ℓ) : Type ℓ where
  ok : A → Result A
  err : Error → Result A

-- The key of a join state is the instance with the name of the join step: the text "%d:%s" of
-- `joinStateKey` determines both, as the digits end at the first colon.
abbrev pub JoinKey : Type 0
JoinKey = ℕ × String

-- `aging_rate` is in thousandths of a point of priority for each second of waiting.
pub record MemoryStore : Type 0 where
  pub definitions : Map String WorkflowDefinition
  pub instances : Map ℕ WorkflowInstance
  pub steps : Map ℕ WorkflowStep
  pub steps_by_instance : Map ℕ (List ℕ)
  pub queue : Map ℕ QueueItem
  pub events : List WorkflowEvent
  pub events_by_instance : Map ℕ (List ℕ)
  pub join_states : Map JoinKey JoinState
  pub cancel_requests : Map ℕ WorkflowCancelRequest
  pub human_decisions : Map ℕ HumanDecisionRecord
  pub dead_letters : Map ℕ DeadLetterRecord
  pub next_instance_id : ℕ
  pub next_step_id : ℕ
  pub next_queue_id : ℕ
  pub next_event_id : ℕ
  pub next_cancel_request_id : ℕ
  pub next_human_decision_id : ℕ
  pub next_dead_letter_id : ℕ
  pub aging_enabled : Bool
  pub aging_rate : ℕ

abbrev pub Op : Type 0 → Type 0
Op A = MemoryStore → Result A × MemoryStore

unfoldable pub new_memory_store : MemoryStore
new_memory_store = record {
  definitions = [];
  instances = [];
  steps = [];
  steps_by_instance = [];
  queue = [];
  events = [];
  events_by_instance = [];
  join_states = [];
  cancel_requests = [];
  human_decisions = [];
  dead_letters = [];
  next_instance_id = 1;
  next_step_id = 1;
  next_queue_id = 1;
  next_event_id = 1;
  next_cancel_request_id = 1;
  next_human_decision_id = 1;
  next_dead_letter_id = 1;
  aging_enabled = true;
  aging_rate = 500;
}

unfoldable pub set_aging_enabled : Bool → MemoryStore → MemoryStore
set_aging_enabled enabled s = record s { aging_enabled = enabled }

unfoldable pub set_aging_rate : ℕ → MemoryStore → MemoryStore
set_aging_rate rate s = record s { aging_rate = rate }

-- `m[k]` of a value that is returned, with the error for a key that is not there.
abbrev pub found {ℓ} : {A : Type ℓ} → Option A → Result A
found none = err entity_not_found
found (some a) = ok a

-- A slice of a map of slices: nil for a key that is not there.
abbrev pub or_nil {ℓ} : {A : Type ℓ} → Option (List A) → List A
or_nil none = []
or_nil (some xs) = xs

-- `x, exists := m[k]; if !exists { return ErrEntityNotFound }`, before a change of the store.
abbrev pub if_found {ℓ} :
    {A : Type ℓ} → Option A → MemoryStore → MemoryStore → Result (Unit {0}) × MemoryStore
if_found none before after = (err entity_not_found, before)
if_found (some _) before after = (ok tt, after)

pub if_found-keeps {ℓ κ} :
    {A : Type ℓ} (P : MemoryStore → Type κ) (o : Option A) (before after : MemoryStore)
    → P before
    → P after
    → P (if_found o before after).1
if_found-keeps P none before after b a = b
if_found-keeps P (some _) before after b a = a
