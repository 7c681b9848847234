-- ===== src/Store/Valid.antt =====
-- What holds of the tables of the store at all times.
pub mod Queue
pub mod Steps
pub mod Tables
pub mod Joins
pub mod Items
pub mod Letters
pub mod Rows
pub mod Sequences
use floxy_pro.Prelude.{List, contains, nat_eq, none, pair_eq, some, true, ℕ, ◌<◌, ◌≡◌}
use floxy_pro.Model.{DeadLetterRecord, JoinState, QueueItem, WorkflowInstance, WorkflowStep}
use floxy_pro.Prelude.Maps.{Map, lookup}
use floxy_pro.Prelude.Maps.Distinct.{IsDistinct}
use floxy_pro.Prelude.Maps.Everywhere.{Everywhere}
use floxy_pro.Store.Defs.{JoinKey, MemoryStore, or_nil}
use floxy_pro.Store.Joins.{join_state_key}

-- An item stands under its own identifier, below the counter, and names a worker only while claimed.
abbrev pub QueueEntry : ℕ → ℕ → QueueItem → Type 0
QueueEntry bound k item =
    (item.id ≡ k) × (k < bound) × (item.attempted_at ≡ none → item.attempted_by ≡ none)

pub record QueueIsValid (queue : Map ℕ QueueItem) (bound : ℕ) : Type 0 where
  pub distinct : IsDistinct queue
  pub entries : Everywhere (QueueEntry bound) queue

abbrev pub StepEntry : Map ℕ (List ℕ) → ℕ → ℕ → WorkflowStep → Type 0
StepEntry listed bound k step =
    (step.id ≡ k) × (k < bound) × (contains (or_nil (lookup step.instance_id listed)) k ≡ true)

abbrev pub ListEntry : Map ℕ WorkflowStep → ℕ → ℕ → List ℕ → Type 0
ListEntry steps bound i ids =
    (k : ℕ)
    → contains ids k ≡ true
    → (k < bound) × ((step : WorkflowStep) → lookup k steps ≡ some step → step.instance_id ≡ i)

-- Every step is listed under its instance, and the list of an instance names steps of no other.
pub record StepsAreValid (steps : Map ℕ WorkflowStep) (listed : Map ℕ (List ℕ)) (bound : ℕ)
    : Type 0 where
  pub distinct : IsDistinct steps
  pub entries : Everywhere (StepEntry listed bound) steps
  pub lists : Everywhere (ListEntry steps bound) listed

abbrev pub InstanceEntry : ℕ → ℕ → WorkflowInstance → Type 0
InstanceEntry bound k i = (i.id ≡ k) × (k < bound)

abbrev pub LetterEntry : ℕ → ℕ → DeadLetterRecord → Type 0
LetterEntry bound k rec = (rec.id ≡ k) × (k < bound)

abbrev pub JoinEntry : JoinKey → JoinState → Type 0
JoinEntry key state = join_state_key state.instance_id state.join_step_name ≡ key

pub record JoinsAreValid (joins : Map JoinKey JoinState) : Type 0 where
  pub distinct : IsDistinct joins
  pub entries : Everywhere JoinEntry joins

pub record IsValid (s : MemoryStore) : Type 0 where
  pub queue : QueueIsValid s.queue s.next_queue_id
  pub steps : StepsAreValid s.steps s.steps_by_instance s.next_step_id
  pub instances : Everywhere (InstanceEntry s.next_instance_id) s.instances
  pub letters : Everywhere (LetterEntry s.next_dead_letter_id) s.dead_letters
  pub joins : JoinsAreValid s.join_states
