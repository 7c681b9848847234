-- ===== src/Store/Steps.antt =====
-- memory_store.go: CreateStep, UpdateStep, UpdateStepStatus, UpdateStepCompensationRetry,
-- GetStepByID, GetStepsByInstance, GetActiveStepsForUpdate, GetHumanDecisionStepByInstanceID and
-- PauseActiveStepsAndClearQueue.
pub mod Listing
pub mod Freeze
use mathlib.Core.List.{reverse}
use floxy_pro.Prelude.{
  Bool, List, Option, String, [], false, filter, if◌then◌else◌, ltb, nat_eq, none, some, string_eq,
  suc, true, ℕ, ◌++◌, ◌==◌, ◌∷◌,
}
use floxy_pro.Model.{RawMessage, StepStatus, StepType, Time, WorkflowStep}
use floxy_pro.Prelude.Maps.{Map, adjust, delete_where, insert, lookup}
use floxy_pro.Prelude.Sorting.{sort_by}
use floxy_pro.Store.Defs.{MemoryStore, Op, found, if_found, ok, or_nil}

-- The caller's step with the fields that CreateStep fills in; `fresh` is `uuid.NewString()`.
unfoldable pub registered : String → Time → ℕ → WorkflowStep → WorkflowStep
registered fresh now id step = record step {
  idempotency_key = if step.idempotency_key == "" then fresh else step.idempotency_key;
  id = id;
  created_at = now;
}

-- The result is the step as the caller's pointer shows it afterwards.
unfoldable pub create_step : String → Time → WorkflowStep → Op WorkflowStep
create_step fresh now step s =
    let created = registered fresh now s.next_step_id step in
    let listed = or_nil (lookup step.instance_id s.steps_by_instance) in
    (
      ok created,
      record s {
        steps = insert s.next_step_id created s.steps;
        steps_by_instance =
            insert step.instance_id (listed ++ s.next_step_id ∷ []) s.steps_by_instance;
        next_step_id = suc s.next_step_id;
      },
    )

abbrev pub stamp_step_completed : StepStatus → Time → Option Time → Option Time
stamp_step_completed StepStatus.completed now t = some now
stamp_step_completed StepStatus.failed now t = some now
stamp_step_completed StepStatus.skipped now t = some now
stamp_step_completed _ now t = t

abbrev pub stamp_step_started : StepStatus → Time → Option Time → Option Time
stamp_step_started StepStatus.running now none = some now
stamp_step_started _ now t = t

abbrev pub count_failure : StepStatus → ℕ → ℕ
count_failure StepStatus.failed n = suc n
count_failure _ n = n

unfoldable pub with_step_status :
    StepStatus → RawMessage → Option String → Time → WorkflowStep → WorkflowStep
with_step_status status output error now step = record step {
  status = status;
  output = output;
  error = error;
  completed_at = stamp_step_completed status now step.completed_at;
  started_at = stamp_step_started status now step.started_at;
  retry_count = count_failure status step.retry_count;
}

-- The pattern of the three updates: a lookup that may fail, then writes through the pointer.
abbrev pub write_step : ℕ → (WorkflowStep → WorkflowStep) → Op Unit
write_step id f s = if_found (lookup id s.steps) s (record s { steps = adjust id f s.steps })

unfoldable pub update_step : ℕ → StepStatus → RawMessage → Option String → Time → Op Unit
unfolding with_step_status
update_step id status output error now = write_step id (with_step_status status output error now)

unfoldable pub update_step_status : ℕ → StepStatus → Op Unit
update_step_status id status = write_step id (λ step. record step { status = status })

unfoldable pub update_step_compensation_retry : ℕ → ℕ → StepStatus → Op Unit
update_step_compensation_retry id retries status =
    write_step id (λ step. record step { compensation_retry_count = retries; status = status })

unfoldable pub get_step_by_id : ℕ → Op WorkflowStep
get_step_by_id id s = (found (lookup id s.steps), s)

-- The steps of a list of identifiers, those that are not in the map left out.
unfoldable pub present : Map ℕ WorkflowStep → List ℕ → List WorkflowStep
present steps [] = []
present steps (id ∷ ids) = elim (lookup id steps) [
  | none ↦ present steps ids
  | some step ↦ step ∷ present steps ids
]

abbrev pub created_before : WorkflowStep → WorkflowStep → Bool
created_before a b = ltb a.created_at b.created_at

abbrev pub created_after : WorkflowStep → WorkflowStep → Bool
created_after a b = ltb b.created_at a.created_at

abbrev pub steps_of : ℕ → MemoryStore → List WorkflowStep
steps_of id s = present s.steps (or_nil (lookup id s.steps_by_instance))

unfoldable pub get_steps_by_instance : ℕ → Op (List WorkflowStep)
get_steps_by_instance id s = (ok (sort_by created_before (steps_of id s)), s)

-- Pending, running or waiting for a decision.
abbrev pub is_active : StepStatus → Bool
is_active StepStatus.pending = true
is_active StepStatus.running = true
is_active StepStatus.waiting_decision = true
is_active _ = false

unfoldable pub get_active_steps_for_update : ℕ → Op (List WorkflowStep)
get_active_steps_for_update id s =
    (ok (sort_by created_after (filter (λ step. is_active step.status) (steps_of id s))), s)

abbrev pub is_human : StepType → Bool
is_human StepType.human = true
is_human _ = false

unfoldable pub first_human : Map ℕ WorkflowStep → List ℕ → Option WorkflowStep
first_human steps [] = none
first_human steps (id ∷ ids) = elim (lookup id steps) [
  | none ↦ first_human steps ids
  | some step ↦
      let rest = first_human steps ids in if is_human step.step_type then some step else rest
]

unfoldable pub get_human_decision_step_by_instance_id : ℕ → Op WorkflowStep
unfolding first_human
get_human_decision_step_by_instance_id id s =
    (found (first_human s.steps (reverse (or_nil (lookup id s.steps_by_instance)))), s)

abbrev pub is_running : StepStatus → Bool
is_running StepStatus.running = true
is_running _ = false

abbrev pub pause : WorkflowStep → WorkflowStep
pause step = if is_running step.status then record step { status = StepStatus.paused } else step

unfoldable pub write_each :
    (WorkflowStep → WorkflowStep) → List ℕ → Map ℕ WorkflowStep → Map ℕ WorkflowStep
write_each f [] steps = steps
write_each f (id ∷ ids) steps = write_each f ids (adjust id f steps)

unfoldable pub pause_active_steps_and_clear_queue : ℕ → Op Unit
unfolding write_each
pause_active_steps_and_clear_queue id s = (
  ok tt,
  record s {
    steps = write_each pause (or_nil (lookup id s.steps_by_instance)) s.steps;
    queue = delete_where (λ item. item.instance_id == id) s.queue;
  },
)
