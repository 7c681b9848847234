-- ===== src/Engine/Steps/Enqueued.antt =====
-- The step that follows another: a row and an item of the queue.
use floxy_pro.Prelude.{
  String, [], false, nat_eq, none, refl, some, string_eq, ℕ, ◌+◌, ◌∙◌, ◌∷◌, ◌≡◌,
}
use floxy_pro.Engine.Calls.{add_step, definition_for, known_step, schedule}
use floxy_pro.Engine.Env.{Env, create_step_row, pending_step}
use floxy_pro.Engine.Monad.{call, choose, for_each, or_raise, pure, returned, ◌>>=◌}
use floxy_pro.Engine.Steps.{enqueue_next_step, enqueue_next_steps, is_dlq}
use floxy_pro.Model.{
  QueueItem, RawMessage, StepDefinition, StepStatus, WorkflowDefinition, WorkflowInstance,
  WorkflowStep, priority_normal,
}
use floxy_pro.Prelude.Maps.{lookup, lookup-insert}
use floxy_pro.Store.Definitions.{get_workflow_definition}
use floxy_pro.Store.Defs.{MemoryStore}
use floxy_pro.Store.Instances.{get_instance}
use floxy_pro.Store.Queue.{enqueue_step}
use floxy_pro.Store.Steps.{create_step, registered}

module _ (env : Env) (id : ℕ) (name : String) (def : StepDefinition) (input : RawMessage) where
  -- A pending step of the name, and an unclaimed item for it that is due after the step's delay.
  abbrev pub IsEnqueued : MemoryStore → MemoryStore → Type 0
  IsEnqueued s t =
      ((row : WorkflowStep) × (lookup s.next_step_id t.steps ≡ some row)
        × (row.instance_id ≡ id)
        × (row.step_name ≡ name)
        × (row.step_type ≡ def.type)
        × (row.status ≡ StepStatus.pending)
        × (row.input ≡ input)
        × (row.max_retries ≡ def.max_retries))
      × ((item : QueueItem) × (lookup s.next_queue_id t.queue ≡ some item)
          × (item.instance_id ≡ id)
          × (item.step_id ≡ some s.next_step_id)
          × (item.attempted_at ≡ none)
          × (item.scheduled_at ≡ env.now + def.delay)
          × (item.priority ≡ priority_normal))

  with_step : MemoryStore → MemoryStore
  unfolding create_step_row create_step enqueue_step registered
  with_step s =
      let row = pending_step id name def.type input def.max_retries in
      (enqueue_step id (some s.next_step_id) priority_normal def.delay env.now
        (create_step_row env row s).1).1

  with_step-IsEnqueued : (s : MemoryStore) → IsEnqueued s (with_step s)
  unfolding with_step
  with_step-IsEnqueued s = (
    (
      registered (env.fresh s.next_step_id) env.now s.next_step_id
          (pending_step id name def.type input def.max_retries),
      lookup-insert s.next_step_id s.next_step_id _ s.steps
          ∙ rw ((nat_eq.beq_iff s.next_step_id s.next_step_id).1 refl) refl,
      refl,
      refl,
      refl,
      refl,
      refl,
      refl,
    ),
    (
      record {
        id = s.next_queue_id;
        instance_id = id;
        step_id = some s.next_step_id;
        scheduled_at = env.now + def.delay;
        attempted_at = none;
        attempted_by = none;
        priority = priority_normal;
      },
      lookup-insert s.next_queue_id s.next_queue_id _ s.queue
          ∙ rw ((nat_eq.beq_iff s.next_queue_id s.next_queue_id).1 refl) refl,
      refl,
      refl,
      refl,
      refl,
      refl,
    ),
  )

  -- Let the store hold an instance that is not in the dead letter queue, with its definition, and let
  -- that definition have a step of the name. Then enqueueNextSteps returns no error for that step,
  -- creates one pending step with the input and enqueues one unclaimed item for it, due after the
  -- step's delay; the instances stay as they are.
  pub enqueue_next_steps-IsEnqueued :
      (s : MemoryStore) (i : WorkflowInstance) (workflow : WorkflowDefinition)
      → lookup id s.instances ≡ some i
      → is_dlq i.status ≡ false
      → lookup i.workflow_id s.definitions ≡ some workflow
      → lookup name workflow.definition.steps ≡ some def
      → (t : MemoryStore) × (enqueue_next_steps env id (name ∷ []) input s ≡ returned tt t)
        × IsEnqueued s t
        × (t.instances ≡ s.instances)
  unfolding enqueue_next_steps ◌>>=◌ call get_instance choose definition_for get_workflow_definition
      for_each enqueue_next_step known_step or_raise pure add_step schedule with_step
  enqueue_next_steps-IsEnqueued s i workflow there alive defined known =
      (with_step s, rw (there, alive, defined, known) refl, with_step-IsEnqueued s, refl)
