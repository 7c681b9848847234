-- ===== src/Engine/Steps/Completed.antt =====
-- The end of a workflow.
use floxy_pro.Prelude.{
  All, Bool, List, [], any, ap, arith, false, inl, inr, nat_eq, none, refl, some, string_eq, sym,
  true, ℕ, ◌++◌, ◌∙◌, ◌∷◌, ◌≡◌, ◌⊎◌,
}
use floxy_pro.Engine.Calls.{definition_for, mark_instance}
use floxy_pro.Engine.Env.{Env}
use floxy_pro.Engine.Env.Logged.{log_lem, with_events}
use floxy_pro.Engine.Leaves.{Leaves, Leaves-returned, leaves_rules, log-Leaves, recover-Leaves}
use floxy_pro.Engine.Monad.{attempt, call, choose, on_result, pure, returned, ◌>>=◌}
use floxy_pro.Engine.Names.{event_workflow_completed, event_workflow_failed}
use floxy_pro.Engine.Outcome.Frozen.{mark_instance-returned}
use floxy_pro.Engine.Returned.{bind-returned, choose-returned}
use floxy_pro.Engine.Steps.{
  about_workflow, ask_steps, complete_workflow, enqueue_compensation,
  enqueue_completed_steps_for_rollback, fail_workflow, failed_steps_message,
  has_failed_or_rolled_back_steps, is_failed_or_rolled_back, undo_without_handler, workflow_reason,
}
use floxy_pro.Model.{RawMessage, StepStatus, WorkflowInstance, WorkflowStatus, WorkflowStep}
use floxy_pro.Prelude.Maps.{adjust, lookup, lookup-adjust}
use floxy_pro.Store.Defs.{MemoryStore, ok}
use floxy_pro.Store.Instances.{update_instance_status, with_status}
use floxy_pro.Store.Steps.{get_steps_by_instance}

undo_without_handler-Leaves :
    (env : Env) (id : ℕ) (row : WorkflowStep) → Leaves (undo_without_handler env id row)
unfolding undo_without_handler
undo_without_handler-Leaves env id row = search leaves_rules depth 12

enqueue_compensation-Leaves :
    (env : Env) (id index : ℕ) (row : WorkflowStep) → Leaves (enqueue_compensation env id index row)
unfolding enqueue_compensation
enqueue_compensation-Leaves env id index row = search leaves_rules depth 12

enqueue_completed_steps_for_rollback-Leaves :
    (env : Env) (id : ℕ) → Leaves (enqueue_completed_steps_for_rollback env id)
unfolding enqueue_completed_steps_for_rollback definition_for
enqueue_completed_steps_for_rollback-Leaves env id =
    search (leaves_rules, undo_without_handler-Leaves, enqueue_compensation-Leaves) depth 14

ask_steps-Leaves : (holds : WorkflowStep → Bool) (id : ℕ) → Leaves (ask_steps holds id)
unfolding ask_steps
ask_steps-Leaves holds id = search leaves_rules depth 12

abbrev any_failed : List WorkflowStep → Bool
any_failed rows = any (λ (row : WorkflowStep). is_failed_or_rolled_back row.status) rows

-- A status that stands in the way of the completion.
abbrev pub IsBroken : StepStatus → Type 0
IsBroken status = (status ≡ StepStatus.failed) ⊎ (status ≡ StepStatus.rolled_back)

IsBroken-true : (status : StepStatus) → IsBroken status → is_failed_or_rolled_back status ≡ true
IsBroken-true status (inl e) = ap is_failed_or_rolled_back e
IsBroken-true status (inr e) = ap is_failed_or_rolled_back e

IsBroken-false :
    (status : StepStatus) → (¬ IsBroken status) → is_failed_or_rolled_back status ≡ false
IsBroken-false StepStatus.failed sound = absurd (sound (inl refl))
IsBroken-false StepStatus.rolled_back sound = absurd (sound (inr refl))
IsBroken-false _ sound = refl

any_failed-there :
    (before after : List WorkflowStep) (row : WorkflowStep)
    → IsBroken row.status
    → any_failed (before ++ row ∷ after) ≡ true
any_failed-there [] after row broken = rw (IsBroken-true row.status broken) refl
any_failed-there (x ∷ before) after row broken =
    ground (arith, any_failed-there before after row broken)

any_failed-none :
    (rows : List WorkflowStep)
    → All (λ (row : WorkflowStep). ¬ IsBroken row.status) rows
    → any_failed rows ≡ false
any_failed-none [] sound = refl
any_failed-none (row ∷ rows) sound =
    ground (arith, IsBroken-false row.status sound.0, any_failed-none rows sound.1)

module _ (env : Env) (instance : WorkflowInstance) (output : RawMessage) (s : MemoryStore)
    (i : WorkflowInstance) (there : lookup instance.id s.instances ≡ some i)
    (rows : List WorkflowStep) (read : get_steps_by_instance instance.id s ≡ (ok rows, s)) where
  asked :
      (b : Bool)
      → any_failed rows ≡ b
      → has_failed_or_rolled_back_steps instance.id s ≡ returned b s
  unfolding ask_steps ◌>>=◌ attempt on_result pure
  asked b e = rw (read, e) refl

  -- Let the store hold the instance, and none of the steps that it lists for it have failed or be
  -- rolled back. Then completeWorkflow returns no error, and the instance is completed, with the
  -- output.
  pub complete_workflow_lem :
      All (λ (row : WorkflowStep). ¬ IsBroken row.status) rows
      → (t : MemoryStore) × (complete_workflow env instance output s ≡ returned tt t)
        × ((j : WorkflowInstance) × (lookup instance.id t.instances ≡ some j)
            × (j.status ≡ WorkflowStatus.completed)
            × (j.output ≡ output))
  unfolding complete_workflow ◌>>=◌ choose mark_instance call update_instance_status with_status
  complete_workflow_lem sound =
      let fine = any_failed-none rows sound in
      let ending = with_status WorkflowStatus.completed output none env.now env.now in
      let u : MemoryStore = record s { instances = adjust instance.id ending s.instances } in
      let (v, logged) =
        log_lem env instance.id none event_workflow_completed (about_workflow instance) u in
      (
        with_events v u,
        rw (asked false fine, there, logged) refl,
        (
          ending i,
          lookup-adjust instance.id instance.id ending s.instances
              ∙ rw ((nat_eq.beq_iff instance.id instance.id).1 refl, there) refl,
          refl,
          refl,
        ),
      )

  -- As it was, or failed.
  abbrev pub NotCompleted : MemoryStore → Type 0
  NotCompleted t =
      (j : WorkflowInstance) × (lookup instance.id t.instances ≡ some j)
      × ((j ≡ i) ⊎ (j.status ≡ WorkflowStatus.failed))

  fail_workflow-NotCompleted :
      (u t : MemoryStore)
      → fail_workflow env instance.id instance u ≡ returned tt t
      → NotCompleted t
  unfolding fail_workflow
  fail_workflow-NotCompleted u t run =
      let (_, v, marked, logged) = bind-returned _ _ u t tt run in
      let ((j, held, status), _, _, _) =
        mark_instance-returned env _ instance.id _ _ _ u v marked in
      (
        j,
        ap (lookup instance.id) (
              Leaves-returned _ v t tt
                (log-Leaves env instance.id none event_workflow_failed
                  (workflow_reason instance failed_steps_message))
                logged)
            ∙ held,
        inr status,
      )

  broken-NotCompleted :
      (t : MemoryStore)
      → any_failed rows ≡ true
      → complete_workflow env instance output s ≡ returned tt t
      → NotCompleted t
  unfolding complete_workflow
  broken-NotCompleted t broken run =
      let (b, u1, r1, q1) = bind-returned _ _ s t tt run in
      let same : returned b u1 ≡ returned true s = sym r1 ∙ asked true broken in
      elim (choose-returned b _ _ u1 t tt q1) [
        | inr (clear, _) ↦ absurd (cc)
        | inl (set, rest) ↦
            let (_, u2, r2, q2) = bind-returned _ _ u1 t tt rest in
            let (c, u3, r3, q3) = bind-returned _ _ u2 t tt q2 in
            let e1 : u1 ≡ s = cc in
            let e2 =
              Leaves-returned _ u1 u2 _
                (recover-Leaves _ (enqueue_completed_steps_for_rollback-Leaves env instance.id))
                r2 in
            let e3 = Leaves-returned _ u2 u3 c (ask_steps-Leaves _ instance.id) r3 in
            elim (choose-returned c _ _ u3 t tt q3) [
              | inr (_, fails) ↦ fail_workflow-NotCompleted u3 t fails
              | inl (_, logged) ↦
                  let e4 =
                    Leaves-returned _ u3 t tt
                      (log-Leaves env instance.id none event_workflow_failed
                        (workflow_reason instance "compensation_in_progress"))
                      logged in
                  (
                    i,
                    ap (lookup instance.id) (e4 ∙ (e3 ∙ (e2 ∙ ap (λ u. u.instances) e1))) ∙ there,
                    inl refl,
                  )
            ]
      ]

  -- Let the store hold the instance, and one of the steps that it lists for it have failed or be rolled
  -- back. If completeWorkflow returns no error, the instance is as it was, or has failed.
  pub complete_workflow-NotCompleted :
      (t : MemoryStore) (before after : List WorkflowStep) (row : WorkflowStep)
      → rows ≡ before ++ row ∷ after
      → IsBroken row.status
      → complete_workflow env instance output s ≡ returned tt t
      → NotCompleted t
  complete_workflow-NotCompleted t before after row listed broken run =
      broken-NotCompleted t (ap any_failed listed ∙ any_failed-there before after row broken) run
