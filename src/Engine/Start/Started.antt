-- ===== src/Engine/Start/Started.antt =====
-- What Start does with a workflow that is registered and valid.
use floxy_pro.Prelude.{
  List, Option, String, ap, arith, false, nat_eq, none, refl, some, string_eq, suc, ◌==◌, ◌∙◌, ◌≡◌,
}
use floxy_pro.Engine.Calls.{mark_instance, say}
use floxy_pro.Engine.Env.{Env, Plugin, run_hooks}
use floxy_pro.Engine.Env.Logged.{log_lem, with_events}
use floxy_pro.Engine.Monad.{call, choose, inside, on_option, pure, returned, ◌>>=◌}
use floxy_pro.Engine.Names.{event_workflow_started, key_workflow_id}
use floxy_pro.Engine.Start.{check_definition, start_instance, start_workflow, validate_definition}
use floxy_pro.Engine.Steps.Enqueued.{IsEnqueued, enqueue_next_steps-IsEnqueued}
use floxy_pro.Engine.Traced.Ops.{kept}
use floxy_pro.Model.{
  RawMessage, StepDefinition, WorkflowDefinition, WorkflowInstance, WorkflowStatus,
}
use floxy_pro.Prelude.Maps.{adjust, insert, lookup, lookup-adjust, lookup-insert}
use floxy_pro.Store.Definitions.{get_workflow_definition}
use floxy_pro.Store.Defs.{MemoryStore}
use floxy_pro.Store.Instances.{create_instance, update_instance_status, with_status}

known_start :
    (def : WorkflowDefinition)
    → validate_definition def ≡ none
    → (start_def : StepDefinition) × (lookup def.definition.start def.definition.steps
        ≡ some start_def)
      × ((def.definition.start == "") ≡ false)
unfolding validate_definition
known_start def sound = go (lookup def.definition.start def.definition.steps) refl
  where
    go :
        (o : Option StepDefinition)
        → lookup def.definition.start def.definition.steps ≡ o
        → (start_def : StepDefinition) × (lookup def.definition.start def.definition.steps
            ≡ some start_def)
          × ((def.definition.start == "") ≡ false)
    go none absent = absurd (ground (arith, sound, absent))
    go (some start_def) there = (start_def, there, ground (arith, sound))

module _ (env : Env) (workflow_id : String) (input : RawMessage) (s : MemoryStore) where
  -- The instance that Start leaves.
  abbrev Running : MemoryStore → Type 0
  Running t =
      (i : WorkflowInstance) × (lookup s.next_instance_id t.instances ≡ some i)
      × (i.status ≡ WorkflowStatus.running)
      × (i.workflow_id ≡ workflow_id)
      × (i.input ≡ input)

  abbrev created : WorkflowInstance
  created = record {
    id = s.next_instance_id;
    workflow_id = workflow_id;
    status = WorkflowStatus.pending;
    input = input;
    output = "";
    error = none;
    started_at = none;
    completed_at = none;
    created_at = env.now;
    updated_at = env.now;
  }

  with_instance : MemoryStore
  with_instance = record s {
    instances = insert s.next_instance_id created s.instances;
    next_instance_id = suc s.next_instance_id;
  }

  with_running : MemoryStore → MemoryStore
  unfolding with_instance with_status
  with_running u = record (with_events u with_instance) {
    instances =
        adjust s.next_instance_id (with_status WorkflowStatus.running "" none env.now env.now)
          (insert s.next_instance_id created s.instances);
  }

  created-there :
      lookup s.next_instance_id (insert s.next_instance_id created s.instances) ≡ some created
  created-there =
      lookup-insert s.next_instance_id s.next_instance_id created s.instances
      ∙ rw ((nat_eq.beq_iff s.next_instance_id s.next_instance_id).1 refl) refl

  running-there :
      (u : MemoryStore)
      → lookup s.next_instance_id (with_running u).instances
        ≡ some (with_status WorkflowStatus.running "" none env.now env.now created)
  unfolding with_running
  running-there u =
      lookup-adjust s.next_instance_id s.next_instance_id _
        (insert s.next_instance_id created s.instances)
      ∙ rw ((nat_eq.beq_iff s.next_instance_id s.next_instance_id).1 refl, created-there) refl

  no_hooks :
      env.plugins ≡ none
      → run_hooks "plugin hook failed"
          (λ plugin. plugin.on_workflow_start created)
          env.plugins
          with_instance
        ≡ returned tt with_instance
  unfolding run_hooks pure
  no_hooks bare = go env.plugins bare
    where
      go :
          (o : Option (List Plugin))
          → o ≡ none
          → run_hooks "plugin hook failed"
              (λ plugin. plugin.on_workflow_start created)
              o
              with_instance
            ≡ returned tt with_instance
      go none e = refl
      go (some plugins) e = absurd (cc)

  -- Let the store hold a valid definition, and let no plugin be registered. Then Start returns the next
  -- identifier; the instance of that identifier is running, with the identifier of the definition and
  -- the input, and the start step of the definition is enqueued: one pending step with the input, and
  -- one unclaimed item for it, due after the step's delay.
  pub start_workflow_lem :
      (def : WorkflowDefinition)
      → lookup workflow_id s.definitions ≡ some def
      → validate_definition def ≡ none
      → env.plugins ≡ none
      → (t : MemoryStore) × (start_workflow env workflow_id input s ≡ returned s.next_instance_id t)
        × Running t
        × ((start_def : StepDefinition) × (lookup def.definition.start def.definition.steps
              ≡ some start_def)
            × IsEnqueued env s.next_instance_id def.definition.start start_def input s t)
  unfolding start_workflow ◌>>=◌ call get_workflow_definition check_definition on_option
      create_instance start_instance mark_instance update_instance_status choose inside pure
      with_instance with_running with_status
  start_workflow_lem def defined sound bare =
      let (start_def, known, set) = known_start def sound in
      let (u, logged) =
        log_lem env s.next_instance_id none event_workflow_started (say key_workflow_id workflow_id)
          with_instance in
      let (t, enqueued, there, kept) =
        enqueue_next_steps-IsEnqueued env s.next_instance_id def.definition.start start_def input
          (with_running u) _ def (running-there u) refl defined known in
      (
        t,
        rw (defined, sound, no_hooks bare, logged, created-there, set, enqueued) refl,
        (
          with_status WorkflowStatus.running "" none env.now env.now created,
          ap (lookup s.next_instance_id) kept ∙ running-there u,
          refl,
          refl,
          refl,
        ),
        (start_def, known, there),
      )
