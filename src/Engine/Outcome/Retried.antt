-- ===== src/Engine/Outcome/Retried.antt =====
-- Whether a step that fails is tried again.
use floxy_pro.Prelude.{
  Bool-cases, Option, [], arith, false, inl, inr, nat_eq, none, refl, some, string_eq, suc, true,
  ◌+◌, ◌<◌, ◌==◌, ◌∙◌, ◌∷◌, ◌≡◌, ◌≤◌, ◌⊎◌,
}
use floxy_pro.Engine.Calls.{mark_step}
use floxy_pro.Engine.Env.{Env, Value, fault_text}
use floxy_pro.Engine.Env.Logged.{log_lem, with_events}
use floxy_pro.Engine.Monad.{Fault, attempt, call, call_bare, choose, on_option, returned, ◌>>=◌}
use floxy_pro.Engine.Names.{event_step_retry, key_error, key_retry_count, key_step_name}
use floxy_pro.Engine.Outcome.{
  can_retry, fail_for_good, handle_step_failure, if_dlq, park_in_dlq, retry_step,
}
use floxy_pro.Engine.Outcome.Frozen.{mark_instance-returned}
use floxy_pro.Engine.Returned.{bind-returned}
use floxy_pro.Model.{
  QueueItem, StepDefinition, StepStatus, WorkflowDefinition, WorkflowInstance, WorkflowStatus,
  WorkflowStep, priority_high,
}
use floxy_pro.Prelude.Maps.{adjust, insert, lookup, lookup-adjust, lookup-insert}
use floxy_pro.Store.Definitions.{get_workflow_definition}
use floxy_pro.Store.Defs.{MemoryStore, found}
use floxy_pro.Store.Queue.{enqueue_step}
use floxy_pro.Store.Steps.{update_step, with_step_status}

module _ (env : Env) (instance : WorkflowInstance) (row : WorkflowStep) (step_def : StepDefinition)
    (e : Fault) (s : MemoryStore) where
  -- The failure is counted, and the step is enqueued again with high priority.
  abbrev pub IsRetried : MemoryStore → Type 0
  IsRetried t =
      ((r : WorkflowStep) × (lookup row.id t.steps ≡ some r)
        × (r.status ≡ StepStatus.failed)
        × (r.error ≡ some (fault_text env e))
        × (r.retry_count ≡ suc row.retry_count)
        × (r.retry_count ≤ step_def.max_retries))
      × ((item : QueueItem) × (lookup s.next_queue_id t.queue ≡ some item)
          × (item.instance_id ≡ instance.id)
          × (item.step_id ≡ some row.id)
          × (item.scheduled_at ≡ env.now + step_def.delay)
          × (item.priority ≡ priority_high))

  pub can_retry-lt :
      row.max_retries ≡ step_def.max_retries
      → can_retry step_def row ≡ true
      → row.retry_count < step_def.max_retries
  unfolding can_retry
  can_retry-lt same again = ground (arith, same, again, nat_eq.beq_iff row.retry_count 0)

  pub retry_step-IsRetried :
      lookup row.id s.steps ≡ some row
      → row.retry_count < step_def.max_retries
      → (t : MemoryStore) × (retry_step env instance row step_def (fault_text env e) s
          ≡ returned tt t)
        × IsRetried t
  unfolding retry_step ◌>>=◌ call call_bare mark_step update_step with_step_status enqueue_step
  retry_step-IsRetried there few =
      let failing = with_step_status StepStatus.failed "" (some (fault_text env e)) env.now in
      let u : MemoryStore = record s { steps = adjust row.id failing s.steps } in
      let item : QueueItem = record {
        id = s.next_queue_id;
        instance_id = instance.id;
        step_id = some row.id;
        scheduled_at = env.now + step_def.delay;
        attempted_at = none;
        attempted_by = none;
        priority = priority_high;
      } in
      let (v, logged) =
        log_lem env instance.id (some row.id) event_step_retry
          ((key_step_name, Value.text row.step_name)
            ∷ (key_retry_count, Value.number (suc row.retry_count))
            ∷ (key_error, Value.text (fault_text env e))
            ∷ [])
          u in
      (
        record (with_events v u) {
          queue = insert s.next_queue_id item s.queue;
          next_queue_id = suc s.next_queue_id;
        },
        rw (there, logged) refl,
        (
          (
            failing row,
            lookup-adjust row.id row.id failing s.steps
                ∙ rw ((nat_eq.beq_iff row.id row.id).1 refl, there) refl,
            refl,
            refl,
            refl,
            few,
          ),
          (
            item,
            lookup-insert s.next_queue_id s.next_queue_id item s.queue
                ∙ rw ((nat_eq.beq_iff s.next_queue_id s.next_queue_id).1 refl) refl,
            refl,
            refl,
            refl,
            refl,
          ),
        ),
      )

  -- The failures are fewer than MaxRetries, and it is the first one or the step is idempotent.
  abbrev pub IsRetriable : Type 0
  IsRetriable =
      (row.retry_count < step_def.max_retries)
      × ((row.retry_count ≡ 0) ⊎ (step_def.no_idempotent ≡ false))

  abbrev pub IsSpent : Type 0
  IsSpent =
      (step_def.max_retries ≤ row.retry_count)
      ⊎ ((0 < row.retry_count) × (step_def.no_idempotent ≡ true))

  pub can_retry-IsRetriable :
      row.max_retries ≡ step_def.max_retries → can_retry step_def row ≡ true → IsRetriable
  unfolding can_retry
  can_retry-IsRetriable same again = (
    can_retry-lt same again,
    elim (Bool-cases (row.retry_count == 0)) [
      | inl first ↦ inl (ground (arith, first, nat_eq.beq_iff row.retry_count 0))
      | inr later ↦ inr (ground (arith, same, again, later))
    ],
  )

  pub can_retry-IsSpent :
      row.max_retries ≡ step_def.max_retries → can_retry step_def row ≡ false → IsSpent
  unfolding can_retry
  can_retry-IsSpent same last = elim (Bool-cases step_def.no_idempotent) [
    | inl once ↦ elim (Bool-cases (row.retry_count == 0)) [
      | inl first ↦ inl (ground (arith, last, first, nat_eq.beq_iff row.retry_count 0))
      | inr later ↦ inr (ground (arith, later, nat_eq.beq_iff row.retry_count 0), once)
    ]
    | inr often ↦ inl (ground (arith, same, last, often, nat_eq.beq_iff row.retry_count 0))
  ]

  abbrev pub IsLost : MemoryStore → Type 0
  IsLost t =
      (i : WorkflowInstance) × (lookup instance.id t.instances ≡ some i)
      × ((i.status ≡ WorkflowStatus.failed) ⊎ (i.status ≡ WorkflowStatus.dlq))

  fail_for_good-IsLost :
      (t : MemoryStore)
      → fail_for_good env instance row step_def (fault_text env e) s ≡ returned tt t
      → IsLost t
  unfolding fail_for_good
  fail_for_good-IsLost t run =
      let (_, u1, r1, q1) = bind-returned _ _ s t tt run in
      let (_, u2, r2, q2) = bind-returned _ _ u1 t tt q1 in
      let (_, u3, r3, q3) = bind-returned _ _ u2 t tt q2 in
      let (i, there, status) = (mark_instance-returned env _ instance.id _ _ _ u3 t q3).0 in
      (i, there, inl status)

  park_in_dlq-IsLost :
      (def : WorkflowDefinition) (t : MemoryStore)
      → park_in_dlq env instance row def (fault_text env e) s ≡ returned tt t
      → IsLost t
  unfolding park_in_dlq
  park_in_dlq-IsLost def t run =
      let (_, u1, r1, q1) = bind-returned _ _ s t tt run in
      let (_, u2, r2, q2) = bind-returned _ _ u1 t tt q1 in
      let (_, u3, r3, q3) = bind-returned _ _ u2 t tt q2 in
      let (_, u4, r4, q4) = bind-returned _ _ u3 t tt q3 in
      let (_, u5, r5, q5) = bind-returned _ _ u4 t tt q4 in
      let (i, there, status) = (mark_instance-returned env _ instance.id _ _ _ u5 t q5).0 in
      (i, there, inr status)

  pub spent-IsLost :
      (t : MemoryStore)
      → can_retry step_def row ≡ false
      → handle_step_failure env instance row step_def e s ≡ returned tt t
      → IsLost t
  unfolding handle_step_failure ◌>>=◌ attempt choose on_option get_workflow_definition
  spent-IsLost t last run = go (if_dlq (found (lookup instance.workflow_id s.definitions))) refl
    where
      go :
          (dlq : Option WorkflowDefinition)
          → if_dlq (found (lookup instance.workflow_id s.definitions)) ≡ dlq
          → IsLost t
      go none e = fail_for_good-IsLost t (rw (last, e) at run)
      go (some def) e = park_in_dlq-IsLost def t (rw (last, e) at run)
