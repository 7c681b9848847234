-- ===== src/Engine/Outcome/Failed.antt =====
-- A step that fails: it is tried again, or the workflow fails.
use floxy_pro.Prelude.{false, nat_eq, refl, some, string_eq, ◌∙◌, ◌≡◌}
use floxy_pro.Engine.Calls.{mark_instance}
use floxy_pro.Engine.Env.{Env, fault_text}
use floxy_pro.Engine.Leaves.Rollback.{stop_and_roll_back-returns}
use floxy_pro.Engine.Monad.{
  Fault, attempt, call, choose, done, on_option, on_result, pure, returned, ◌>>=◌,
}
use floxy_pro.Engine.Outcome.{
  can_retry, fail_for_good, handle_step_failure, note_failure, stop_and_roll_back,
}
use floxy_pro.Model.{
  StepDefinition, WorkflowDefinition, WorkflowInstance, WorkflowStatus, WorkflowStep,
}
use floxy_pro.Prelude.Maps.{adjust, lookup, lookup-adjust}
use floxy_pro.Store.Definitions.{get_workflow_definition}
use floxy_pro.Store.Defs.{MemoryStore, Result, err, found, ok}
use floxy_pro.Store.Instances.{update_instance_status, with_status}

module _ (env : Env) (instance : WorkflowInstance) (row : WorkflowStep) (step_def : StepDefinition)
    (e : Fault) (s : MemoryStore) where
  roll_back-returns :
      (again : Result WorkflowDefinition) (u : MemoryStore)
      → (v : MemoryStore) × (on_result again (λ _. done) (stop_and_roll_back env instance.id row) u
          ≡ returned tt v)
        × (v.instances ≡ u.instances)
  unfolding on_result pure
  roll_back-returns (err x) u = (u, refl, refl)
  roll_back-returns (ok def) u = stop_and_roll_back-returns env instance.id row def u

  -- After the notes, the definition is read again where it was not found, which changes nothing.
  read_again :
      (noted : Result WorkflowDefinition) (u : MemoryStore)
      → (again : Result WorkflowDefinition) × (on_result noted
            (λ _. attempt (get_workflow_definition instance.workflow_id))
            (λ def. pure (ok def))
            u
          ≡ returned again u)
  unfolding on_result pure attempt get_workflow_definition
  read_again (err x) u = (found (lookup instance.workflow_id u.definitions), refl)
  read_again (ok def) u = (ok def, refl)

  -- Let a step fail that is not to be retried, in a workflow whose definition has no dead letter queue,
  -- and let the failure be noted: the step is marked as failed and the joins are told, without an
  -- error, and the instance is still there. Then handleStepFailure returns no error and the instance
  -- has failed with the error, whatever becomes of the rollback, which may end with an error.
  pub handle_step_failure_fails :
      (u : MemoryStore) (noted : Result WorkflowDefinition) (i : WorkflowInstance)
      (def : WorkflowDefinition)
      → can_retry step_def row ≡ false
      → lookup instance.workflow_id s.definitions ≡ some def
      → def.definition.dlq_enabled ≡ false
      → note_failure env instance row step_def (fault_text env e) s ≡ returned noted u
      → lookup instance.id u.instances ≡ some i
      → (t : MemoryStore) × (handle_step_failure env instance row step_def e s ≡ returned tt t)
        × ((j : WorkflowInstance) × (lookup instance.id t.instances ≡ some j)
            × (j.status ≡ WorkflowStatus.failed)
            × (j.error ≡ some (fault_text env e)))
  unfolding handle_step_failure choose ◌>>=◌ attempt get_workflow_definition on_option fail_for_good
      mark_instance call update_instance_status with_status
  handle_step_failure_fails u noted i def last there disabled note held =
      let failing =
        with_status WorkflowStatus.failed "" (some (fault_text env e)) env.now env.now in
      let (again, reading) = read_again noted u in
      let (v, run, same) = roll_back-returns again u in
      (
        record v { instances = adjust instance.id failing v.instances },
        rw (last, there, disabled, note, reading, run, same, held) refl,
        (
          failing i,
          lookup-adjust instance.id instance.id failing v.instances
              ∙ rw ((nat_eq.beq_iff instance.id instance.id).1 refl, same, held) refl,
          refl,
          refl,
        ),
      )
