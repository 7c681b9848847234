-- ===== src/Store/DeadLetters/Requeue.antt =====
-- RequeueDeadLetter: its three outcomes.
-- A step that a write leaves as it is stays through all the writes.
use floxy_pro.Prelude.{
  Bool-cases, List, Option, Option-cases, [], ap, arith, false, if_false, inl, inr, nat_eq, none,
  refl, some, true, ℕ, ◌&&◌, ◌==◌, ◌∙◌, ◌∷◌, ◌≡◌, ◌⊎◌,
}
use floxy_pro.Builder.{step}
use floxy_pro.Model.{DeadLetterRecord, RawMessage, StepStatus, WorkflowStep}
use floxy_pro.Prelude.Maps.{Map, adjust, lookup, lookup-adjust, lookup-delete}
use floxy_pro.Store.DeadLetters.{
  is_join, or_input, requeue_dead_letter, requeued, reset_step, resume_join,
}
use floxy_pro.Store.Defs.{MemoryStore, entity_not_found, err, ok, or_nil}
use floxy_pro.Store.Steps.{write_each}

write_each_fixed :
    (f : WorkflowStep → WorkflowStep) (ids : List ℕ) (m : Map ℕ WorkflowStep) (k : ℕ)
    (step : WorkflowStep)
    → f step ≡ step
    → lookup k m ≡ some step
    → lookup k (write_each f ids m) ≡ some step
unfolding write_each
write_each_fixed f [] m k step fixed there = there
write_each_fixed f (id ∷ ids) m k step fixed there =
    write_each_fixed f ids (adjust id f m) k step fixed (
      lookup-adjust id k f m ∙ elim (Bool-cases (id == k)) [
        | inl same ↦ rw (same, there) (ap some fixed)
        | inr other ↦ rw (other, there) refl
      ])

resume_join-reset_step :
    (input : Option RawMessage) (step : WorkflowStep)
    → resume_join (reset_step input step) ≡ reset_step input step
unfolding resume_join reset_step
resume_join-reset_step input step =
    if_false (is_join step.step_type && false) _ (reset_step input step) (ground arith)

nat_beq_self : (n : ℕ) → (n == n) ≡ true
nat_beq_self n = ground arith

module _ (id : ℕ) (input : Option RawMessage) (s : MemoryStore) where
  requeue-no_record :
      lookup id s.dead_letters ≡ none → requeue_dead_letter id input s ≡ (err entity_not_found, s)
  unfolding requeue_dead_letter
  requeue-no_record absent = rw (requeue_dead_letter, absent) refl

  requeue-no_step :
      (rec : DeadLetterRecord)
      → lookup id s.dead_letters ≡ some rec
      → lookup rec.step_id s.steps ≡ none
      → requeue_dead_letter id input s ≡ (err entity_not_found, s)
  unfolding requeue_dead_letter
  requeue-no_step rec here absent = rw (requeue_dead_letter, here, absent) refl

  requeue-there :
      (rec : DeadLetterRecord) (old : WorkflowStep)
      → lookup id s.dead_letters ≡ some rec
      → lookup rec.step_id s.steps ≡ some old
      → requeue_dead_letter id input s ≡ (ok tt, requeued id input rec s)
  unfolding requeue_dead_letter
  requeue-there rec old here there = rw (requeue_dead_letter, here, there) refl

-- What a requeue leaves: the step as new, the record gone, the queue as it was.
pub record Requeues (id : ℕ) (new_input : Option RawMessage) (rec : DeadLetterRecord)
    (s after : MemoryStore) : Type 0 where
  pub old : WorkflowStep
  pub new : WorkflowStep
  pub before : lookup rec.step_id s.steps ≡ some old
  pub now : lookup rec.step_id after.steps ≡ some new
  pub pending : new.status ≡ StepStatus.pending
  pub error : new.error ≡ none
  pub retries : new.retry_count ≡ 0
  pub input : new.input ≡ or_input new_input old.input
  pub gone : lookup id after.dead_letters ≡ none
  pub queue : after.queue ≡ s.queue

requeued-Requeues :
    (id : ℕ) (input : Option RawMessage) (rec : DeadLetterRecord) (old : WorkflowStep)
    (s : MemoryStore)
    → lookup rec.step_id s.steps ≡ some old
    → Requeues id input rec s (requeued id input rec s)
unfolding requeued reset_step
requeued-Requeues id input rec old s there = record {
  old = old;
  new = reset_step input old;
  before = there;
  now =
      write_each_fixed resume_join (or_nil (lookup rec.instance_id s.steps_by_instance))
        (adjust rec.step_id (reset_step input) s.steps) rec.step_id (reset_step input old)
        (resume_join-reset_step input old)
        (lookup-adjust rec.step_id rec.step_id (reset_step input) s.steps
          ∙ rw (nat_beq_self rec.step_id, there) refl);
  pending = refl;
  error = refl;
  retries = refl;
  input = refl;
  gone = lookup-delete id id s.dead_letters ∙ rw (nat_beq_self id) refl;
  queue = refl;
}

-- RequeueDeadLetter is an error, with no change, for a record that is not there or whose step is not
-- there. Otherwise it returns no error; the step is pending, with no error, no retries and the new
-- input if there is one, the record is gone, and the queue is what it was.
pub requeue_dead_letter_lem :
    (id : ℕ) (input : Option RawMessage) (s : MemoryStore)
    → (lookup id s.dead_letters ≡ none)
        × (requeue_dead_letter id input s ≡ (err entity_not_found, s))
      ⊎ (rec : DeadLetterRecord) × (lookup id s.dead_letters ≡ some rec)
        × ((lookup rec.step_id s.steps ≡ none)
              × (requeue_dead_letter id input s ≡ (err entity_not_found, s))
            ⊎ (after : MemoryStore) × (requeue_dead_letter id input s ≡ (ok tt, after))
              × Requeues id input rec s after)
requeue_dead_letter_lem id input s = elim (Option-cases (lookup id s.dead_letters)) [
  | inl absent ↦ inl (absent, requeue-no_record id input s absent)
  | inr (rec, here) ↦ inr (
    rec,
    here,
    elim (Option-cases (lookup rec.step_id s.steps)) [
      | inl absent ↦ inl (absent, requeue-no_step id input s rec here absent)
      | inr (old, there) ↦ inr (
        requeued id input rec s,
        requeue-there id input s rec old here there,
        requeued-Requeues id input rec old s there,
      )
    ],
  )
]
