-- ===== src/Engine/Outcome/Frozen.antt =====
-- A step that fails for good in a workflow with a dead letter queue.
use floxy_pro.Prelude.{
  Option, String, ap, false, nat_eq, none, refl, some, string_eq, subst, sym, true, ℕ, ◌∙◌, ◌≡◌,
  ◌≢◌,
}
use floxy_pro.Engine.Calls.{mark_instance}
use floxy_pro.Engine.Env.{Env, fault_text}
use floxy_pro.Engine.Monad.{Action, Fault, attempt, choose, on_option, returned, ◌>>=◌}
use floxy_pro.Engine.Outcome.{can_retry, dlq_reason, handle_step_failure, park_in_dlq}
use floxy_pro.Engine.Returned.{bind-returned, call-returned}
use floxy_pro.Engine.Rollback.{dead_letter_of}
use floxy_pro.Engine.Traced.{Traced, TracedRun, call-Traced, inside-Traced}
use floxy_pro.Engine.Traced.Calls.{log-Traced, mark_step-Traced}
use floxy_pro.Engine.Traced.Joins.{notify_join_steps-Traced}
use floxy_pro.Engine.Traced.Ops.{create_dead_letter_record-TracedOp, keeps, kept}
use floxy_pro.Model.{
  DeadLetterRecord, QueueItem, RawMessage, StepDefinition, StepStatus, WorkflowDefinition,
  WorkflowInstance, WorkflowStatus, WorkflowStep,
}
use floxy_pro.Prelude.Maps.{adjust, lookup, lookup-adjust, lookup-insert}
use floxy_pro.Store.DeadLetters.{create_dead_letter_record}
use floxy_pro.Store.Definitions.{get_workflow_definition}
use floxy_pro.Store.Defs.{MemoryStore, if_found, ok}
use floxy_pro.Store.Instances.{update_instance_status, with_status}
use floxy_pro.Store.Steps.{pause_active_steps_and_clear_queue}
use floxy_pro.Store.Steps.Freeze.{freeze_lem}
use floxy_pro.Store.Valid.{IsValid}
use floxy_pro.Store.Valid.Sequences.{perform_all-IsValid}

pub mark_instance-returned :
    (env : Env) (context : String) (id : ℕ) (status : WorkflowStatus) (output : RawMessage)
    (error : Option String) (s t : MemoryStore)
    → mark_instance env context id status output error s ≡ returned tt t
    → ((i : WorkflowInstance) × (lookup id t.instances ≡ some i) × (i.status ≡ status))
      × (t.queue ≡ s.queue)
      × (t.steps ≡ s.steps)
      × (t.dead_letters ≡ s.dead_letters)
unfolding mark_instance update_instance_status with_status
mark_instance-returned env context id status output error s t e =
    go (lookup id s.instances) refl (call-returned context _ s t tt e)
  where
    after : MemoryStore
    after = record s {
      instances = adjust id (with_status status output error env.now env.now) s.instances;
    }

    go :
        (o : Option WorkflowInstance)
        → lookup id s.instances ≡ o
        → if_found o s after ≡ (ok tt, t)
        → ((i : WorkflowInstance) × (lookup id t.instances ≡ some i) × (i.status ≡ status))
          × (t.queue ≡ s.queue)
          × (t.steps ≡ s.steps)
          × (t.dead_letters ≡ s.dead_letters)
    go none absent path = absurd (cc)
    go (some i) there path =
        let same : after ≡ t = ap (λ r. r.1) path in
        subst
          (λ u.
            ((j : WorkflowInstance) × (lookup id u.instances ≡ some j) × (j.status ≡ status))
            × (u.queue ≡ s.queue)
            × (u.steps ≡ s.steps)
            × (u.dead_letters ≡ s.dead_letters))
          same
          (
            (
              with_status status output error env.now env.now i,
              lookup-adjust id id _ s.instances ∙ rw ((nat_eq.beq_iff id id).1 refl, there) refl,
              refl,
            ),
            refl,
            refl,
            refl,
          )

pub Traced-IsValid :
    {A : Type 0} (k : ℕ) (m : Action A) (s t : MemoryStore) (a : A)
    → Traced (keeps k) m
    → m s ≡ returned a t
    → IsValid s
    → IsValid t
Traced-IsValid k m s t a traced e valid =
    let (ops, kept, path) = subst (TracedRun (keeps k) s) e (traced.run s) in
    subst IsValid path (perform_all-IsValid ops s valid)

-- The instance is in the dead letter queue and frozen, with a record of the step.
abbrev pub IsParked : WorkflowInstance → WorkflowStep → MemoryStore → Type 0
IsParked instance row t =
    ((i : WorkflowInstance) × (lookup instance.id t.instances ≡ some i)
      × (i.status ≡ WorkflowStatus.dlq))
    × ((k : ℕ) (item : QueueItem) → lookup k t.queue ≡ some item → item.instance_id ≢ instance.id)
    × ((k : ℕ) (step : WorkflowStep)
        → lookup k t.steps ≡ some step
        → step.instance_id ≡ instance.id
        → step.status ≢ StepStatus.running)
    × ((n : ℕ) × (letter : DeadLetterRecord) × (lookup n t.dead_letters ≡ some letter)
        × (letter.step_id ≡ row.id)
        × (letter.instance_id ≡ row.instance_id))

park_in_dlq-IsParked :
    (env : Env) (instance : WorkflowInstance) (row : WorkflowStep) (def : WorkflowDefinition)
    (e : String) (s t : MemoryStore)
    → IsValid s
    → park_in_dlq env instance row def e s ≡ returned tt t
    → IsParked instance row t
unfolding park_in_dlq create_dead_letter_record pause_active_steps_and_clear_queue
park_in_dlq-IsParked env instance row def e s t valid run =
    let (_, u1, r1, q1) = bind-returned _ _ s t tt run in
    let (_, u2, r2, q2) = bind-returned _ _ u1 t tt q1 in
    let (_, u3, r3, q3) = bind-returned _ _ u2 t tt q2 in
    let (_, u4, r4, q4) = bind-returned _ _ u3 t tt q3 in
    let (_, u5, r5, q5) = bind-returned _ _ u4 t tt q4 in
    let v1 = Traced-IsValid 0 _ s u1 tt (mark_step-Traced 0 env _ row.id _ _ _) r1 valid in
    let v2 = Traced-IsValid 0 _ u1 u2 tt (log-Traced 0 env _ _ _ _) r2 v1 in
    let v3 =
      Traced-IsValid 0 _ u2 u3 tt (inside-Traced _ _ (notify_join_steps-Traced 0 env _ _ _)) r3
        v2 in
    let v4 =
      Traced-IsValid 0 _ u3 u4 tt
        (call-Traced _ _ (
          create_dead_letter_record-TracedOp 0 (dead_letter_of def.id row (some e) dlq_reason)
            env.now))
        r4 v3 in
    let letter : DeadLetterRecord = record (dead_letter_of def.id row (some e) dlq_reason) {
      id = u3.next_dead_letter_id;
      created_at = env.now;
    } in
    let p4 =
      ap (λ r. r.1)
        (call-returned _
          (create_dead_letter_record (dead_letter_of def.id row (some e) dlq_reason) env.now) u3 u4
          tt r4) in
    let p5 =
      ap (λ r. r.1)
        (call-returned _ (pause_active_steps_and_clear_queue instance.id) u4 u5 tt r5) in
    let (dlq, queue, steps, letters) = mark_instance-returned env _ instance.id _ _ _ u5 t q5 in
    let (_, stopped, emptied, _, _) = freeze_lem instance.id u4 v4 in
    (
      dlq,
      λ k item there.
          emptied k item
            (subst (λ q. lookup k q ≡ some item) (queue ∙ ap (λ u. u.queue) (sym p5)) there),
      λ k step there same.
          stopped k step
            (subst (λ m. lookup k m ≡ some step) (steps ∙ ap (λ u. u.steps) (sym p5)) there) same,
      (
        u3.next_dead_letter_id,
        letter,
        subst (λ m. lookup u3.next_dead_letter_id m ≡ some letter)
            (ap (λ u. u.dead_letters) p4 ∙ (ap (λ u. u.dead_letters) p5 ∙ sym letters))
            (lookup-insert u3.next_dead_letter_id u3.next_dead_letter_id letter u3.dead_letters
              ∙ rw ((nat_eq.beq_iff u3.next_dead_letter_id u3.next_dead_letter_id).1 refl) refl),
        refl,
        refl,
      ),
    )

-- In a valid store, let a step that is not to be retried fail in a workflow whose definition has the
-- dead letter queue enabled. If the handling of the failure returns no error, the instance has the
-- status of the dead letter queue, no item in the queue and no running step, and there is a dead
-- letter for the step.
pub handle_step_failure-IsParked :
    (env : Env) (instance : WorkflowInstance) (row : WorkflowStep) (step_def : StepDefinition)
    (e : Fault) (def : WorkflowDefinition) (s t : MemoryStore)
    → IsValid s
    → can_retry step_def row ≡ false
    → lookup instance.workflow_id s.definitions ≡ some def
    → def.definition.dlq_enabled ≡ true
    → handle_step_failure env instance row step_def e s ≡ returned tt t
    → IsParked instance row t
unfolding handle_step_failure choose ◌>>=◌ attempt get_workflow_definition on_option
handle_step_failure-IsParked env instance row step_def e def s t valid last there enabled run =
    park_in_dlq-IsParked env instance row def (fault_text env e) s t valid
      (rw (last, there, enabled) at run)
