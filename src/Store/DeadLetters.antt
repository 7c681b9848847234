-- ===== src/Store/DeadLetters.antt =====
-- memory_store.go: CreateDeadLetterRecord, RequeueDeadLetter, ListDeadLetters, GetDeadLetterByID.
pub mod Requeue
use floxy_pro.Prelude.{
  Bool, List, Option, [], drop, false, if◌then◌else◌, length, ltb, nat_eq, none, some, suc, take,
  true, ℕ, ◌&&◌, ◌+◌, ◌-◌,
}
use floxy_pro.Model.{
  DeadLetterRecord, RawMessage, StepStatus, StepType, Time, WorkflowInstance, WorkflowStatus,
  WorkflowStep,
}
use floxy_pro.Prelude.Maps.{adjust, delete, insert, lookup, values}
use floxy_pro.Prelude.Sorting.{sort_by}
use floxy_pro.Store.Defs.{MemoryStore, Op, entity_not_found, err, found, if_found, ok, or_nil}
use floxy_pro.Store.Steps.{write_each}

unfoldable pub create_dead_letter_record : DeadLetterRecord → Time → Op Unit
create_dead_letter_record rec now s =
    let created = record rec { id = s.next_dead_letter_id; created_at = now } in
    (
      ok tt,
      record s {
        dead_letters = insert s.next_dead_letter_id created s.dead_letters;
        next_dead_letter_id = suc s.next_dead_letter_id;
      },
    )

abbrev pub or_input : Option RawMessage → RawMessage → RawMessage
or_input none old = old
or_input (some new) old = new

unfoldable pub reset_step : Option RawMessage → WorkflowStep → WorkflowStep
reset_step new_input step = record step {
  status = StepStatus.pending;
  input = or_input new_input step.input;
  error = none;
  retry_count = 0;
  compensation_retry_count = 0;
  started_at = none;
  completed_at = none;
}

abbrev pub is_stopped : WorkflowStatus → Bool
is_stopped WorkflowStatus.failed = true
is_stopped WorkflowStatus.dlq = true
is_stopped _ = false

unfoldable pub resume_instance : WorkflowInstance → WorkflowInstance
resume_instance i =
    if is_stopped i.status then record i { status = WorkflowStatus.running; error = none } else i

abbrev pub is_join : StepType → Bool
is_join StepType.join = true
is_join _ = false

abbrev pub is_paused : StepStatus → Bool
is_paused StepStatus.paused = true
is_paused _ = false

unfoldable pub resume_join : WorkflowStep → WorkflowStep
resume_join step =
    if is_join step.step_type && is_paused step.status
    then record step { status = StepStatus.pending }
    else step

-- The writes of RequeueDeadLetter, once the record and its step are found.
unfoldable pub requeued : ℕ → Option RawMessage → DeadLetterRecord → MemoryStore → MemoryStore
unfolding reset_step resume_instance resume_join
requeued id new_input rec s =
    let steps = adjust rec.step_id (reset_step new_input) s.steps in
    record s {
      steps = write_each resume_join (or_nil (lookup rec.instance_id s.steps_by_instance)) steps;
      instances = adjust rec.instance_id resume_instance s.instances;
      dead_letters = delete id s.dead_letters;
    }

unfoldable pub requeue_dead_letter : ℕ → Option RawMessage → Op Unit
unfolding requeued
requeue_dead_letter id new_input s = elim (lookup id s.dead_letters) [
  | none ↦ (err entity_not_found, s)
  | some rec ↦ if_found (lookup rec.step_id s.steps) s (requeued id new_input rec s)
]

abbrev pub letter_after : DeadLetterRecord → DeadLetterRecord → Bool
letter_after a b = ltb b.created_at a.created_at

-- `records[start:end]`, with both ends cut to the number of records.
unfoldable pub slice {ℓ} : {A : Type ℓ} → ℕ → ℕ → List A → List A
slice start end xs = take (end - start) (drop start xs)

abbrev pub at_most : ℕ → ℕ → ℕ
at_most bound n = if ltb bound n then bound else n

unfoldable pub list_dead_letters : ℕ → ℕ → Op (List DeadLetterRecord × ℕ)
unfolding slice
list_dead_letters offset limit s =
    let records = sort_by letter_after (values s.dead_letters) in
    let start = at_most (length records) offset in
    let end = at_most (length records) (offset + limit) in
    (ok (if ltb start end then slice start end records else [], length s.dead_letters), s)

unfoldable pub get_dead_letter_by_id : ℕ → Op DeadLetterRecord
get_dead_letter_by_id id s = (found (lookup id s.dead_letters), s)
