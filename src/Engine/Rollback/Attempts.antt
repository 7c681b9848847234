-- ===== src/Engine/Rollback/Attempts.antt =====
-- How often the compensation of a step is tried.
use floxy_pro.Prelude.{
  Bool-cases, [], arith, inl, inr, leb, nat_eq, none, refl, some, string_eq, suc, ◌+◌, ◌<◌, ◌∙◌,
  ◌∷◌, ◌≡◌, ◌≤◌, ◌⊎◌,
}
use floxy_pro.Engine.Calls.{
  add_delay, compensation_delay, known_step, mark_step, say, schedule_after,
}
use floxy_pro.Engine.Env.{Env, Value}
use floxy_pro.Engine.Env.Logged.{log_lem, with_events}
use floxy_pro.Engine.Monad.{call, choose, on_option, or_raise, pure, returned, ◌>>=◌}
use floxy_pro.Engine.Names.{
  event_step_failed, event_step_started, key_error, key_reason, key_retry_count,
}
use floxy_pro.Engine.Rollback.{
  about_step, bury_step, compensate_step, dead_letter_of, rollback_step, too_many_retries,
}
use floxy_pro.Model.{
  DeadLetterRecord, QueueItem, StepDefinition, StepStatus, WorkflowDefinition, WorkflowStep,
  priority_high,
}
use floxy_pro.Prelude.Maps.{adjust, insert, lookup, lookup-adjust, lookup-insert}
use floxy_pro.Store.DeadLetters.{create_dead_letter_record}
use floxy_pro.Store.Defs.{MemoryStore}
use floxy_pro.Store.Queue.{enqueue_step}
use floxy_pro.Store.Steps.{update_step, update_step_compensation_retry, with_step_status}

module _ (env : Env) (def : WorkflowDefinition) (row : WorkflowStep) (s : MemoryStore) where
  -- The compensation of the step is enqueued, for one attempt more.
  abbrev IsTriedAgain : StepDefinition → MemoryStore → Type 0
  IsTriedAgain undo t =
      (r : WorkflowStep) × (lookup row.id t.steps ≡ some r)
      × (r.status ≡ StepStatus.compensation)
      × (r.compensation_retry_count ≡ suc row.compensation_retry_count)
      × (r.compensation_retry_count ≤ undo.max_retries)
      × ((item : QueueItem) × (lookup s.next_queue_id t.queue ≡ some item)
          × (item.step_id ≡ some row.id)
          × (item.scheduled_at
              ≡ add_delay env.now (compensation_delay env undo (suc row.compensation_retry_count)))
          × (item.attempted_at ≡ none)
          × (item.priority ≡ priority_high))

  -- The step has failed, and there is a dead letter for it.
  abbrev IsBuried : MemoryStore → Type 0
  IsBuried t =
      (r : WorkflowStep) × (lookup row.id t.steps ≡ some r)
      × (r.status ≡ StepStatus.failed)
      × (r.compensation_retry_count ≡ row.compensation_retry_count)
      × (t.queue ≡ s.queue)
      × ((letter : DeadLetterRecord) × (lookup s.next_dead_letter_id t.dead_letters ≡ some letter)
          × (letter.step_id ≡ row.id))

  compensate_step-IsTriedAgain :
      (undo : StepDefinition)
      → lookup row.id s.steps ≡ some row
      → row.compensation_retry_count < undo.max_retries
      → (t : MemoryStore) × (compensate_step env undo row s ≡ returned tt t) × IsTriedAgain undo t
  unfolding compensate_step ◌>>=◌ call schedule_after enqueue_step update_step_compensation_retry
  compensate_step-IsTriedAgain undo there few =
      let attempts = suc row.compensation_retry_count in
      let item : QueueItem = record {
        id = s.next_queue_id;
        instance_id = row.instance_id;
        step_id = some row.id;
        scheduled_at = add_delay env.now (compensation_delay env undo attempts) + 0;
        attempted_at = none;
        attempted_by = none;
        priority = priority_high;
      } in
      let u : MemoryStore = record s {
        steps =
            adjust row.id
              (λ step. record step {
                compensation_retry_count = attempts;
                status = StepStatus.compensation;
              })
              s.steps;
        queue = insert s.next_queue_id item s.queue;
        next_queue_id = suc s.next_queue_id;
      } in
      let (v, logged) =
        log_lem env row.instance_id (some row.id) event_step_started
          (about_step row (
            (key_retry_count, Value.number attempts)
            ∷ (key_reason, Value.text "compensation")
            ∷ []))
          u in
      (
        with_events v u,
        rw (there, logged) refl,
        (
          record row { compensation_retry_count = attempts; status = StepStatus.compensation },
          lookup-adjust row.id row.id _ s.steps
              ∙ rw ((nat_eq.beq_iff row.id row.id).1 refl, there) refl,
          refl,
          refl,
          few,
          (
            item,
            lookup-insert s.next_queue_id s.next_queue_id item s.queue
                ∙ rw ((nat_eq.beq_iff s.next_queue_id s.next_queue_id).1 refl) refl,
            refl,
            omega arith,
            refl,
            refl,
          ),
        ),
      )

  bury_step-IsBuried :
      lookup row.id s.steps ≡ some row
      → (t : MemoryStore) × (bury_step env def.id row s ≡ returned tt t) × IsBuried t
  unfolding bury_step ◌>>=◌ call mark_step update_step create_dead_letter_record with_step_status
  bury_step-IsBuried there =
      let u : MemoryStore = record s {
        steps = adjust row.id (with_step_status StepStatus.failed row.input none env.now) s.steps;
      } in
      let (v, logged) =
        log_lem env row.instance_id (some row.id) event_step_failed
          (about_step row (say key_error too_many_retries)) u in
      let letter : DeadLetterRecord =
        record (dead_letter_of def.id row row.error too_many_retries) {
          id = s.next_dead_letter_id;
          created_at = env.now;
        } in
      (
        record (with_events v u) {
          dead_letters = insert s.next_dead_letter_id letter s.dead_letters;
          next_dead_letter_id = suc s.next_dead_letter_id;
        },
        rw (there, logged) refl,
        (
          with_step_status StepStatus.failed row.input none env.now row,
          lookup-adjust row.id row.id _ s.steps
              ∙ rw ((nat_eq.beq_iff row.id row.id).1 refl, there) refl,
          refl,
          refl,
          refl,
          (
            letter,
            lookup-insert s.next_dead_letter_id s.next_dead_letter_id letter s.dead_letters
                ∙ rw ((nat_eq.beq_iff s.next_dead_letter_id s.next_dead_letter_id).1 refl) refl,
            refl,
          ),
        ),
      )

  -- Let a step with a compensation be rolled back, as the store holds it. As long as its attempts are
  -- fewer than the compensation's MaxRetries, it is enqueued with high priority for one attempt more,
  -- which is still at most MaxRetries; otherwise it fails, nothing is enqueued, and a dead letter for
  -- it is stored. No error is returned.
  pub rollback_step_bounds :
      (step_def undo : StepDefinition)
      → lookup row.id s.steps ≡ some row
      → lookup row.step_name def.definition.steps ≡ some step_def
      → lookup step_def.on_failure def.definition.steps ≡ some undo
      → (t : MemoryStore) × (rollback_step env def row s ≡ returned tt t)
        × ((row.compensation_retry_count < undo.max_retries × IsTriedAgain undo t)
            ⊎ (undo.max_retries ≤ row.compensation_retry_count × IsBuried t))
  unfolding rollback_step ◌>>=◌ known_step or_raise pure on_option choose
  rollback_step_bounds step_def undo there known compensation =
      elim (Bool-cases (leb undo.max_retries row.compensation_retry_count)) [
        | inl many ↦
            let (t, run, buried) = bury_step-IsBuried there in
            (t, rw (known, compensation, many, run) refl, inr (ground (arith, many), buried))
        | inr few ↦
            let less : row.compensation_retry_count < undo.max_retries = ground (arith, few) in
            let (t, run, again) = compensate_step-IsTriedAgain undo there less in
            (t, rw (known, compensation, few, run) refl, inl (less, again))
      ]
