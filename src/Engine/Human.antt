-- ===== src/Engine/Human.antt =====
-- engine.go: executeHuman and processHumanDecision. The channel of events for a waiting decision is
-- left out.
-- What the handling of a step of any type gives: an output, whether the next steps follow, and the
-- engine's own copy of the step; or a step that ends the handling.
use floxy_pro.Prelude.{Bool, Option, String, [], false, nat_eq, none, some, string_eq, true, ◌∷◌}
use floxy_pro.Engine.Calls.{mark_instance, schedule}
use floxy_pro.Engine.Env.{Env, Payload, Value, log}
use floxy_pro.Engine.Handlers.{or_none}
use floxy_pro.Engine.Monad.{
  Action, attempt, call, choose, message, on_result, or_raise, pure, raise, store_error, within,
  ◌>>=◌, ◌>>◌,
}
use floxy_pro.Engine.Names.{
  event_step_completed, event_step_failed, event_step_started, key_decided_by, key_decision,
  key_reason, key_step_name, key_step_type,
}
use floxy_pro.Model.{
  HumanDecision, HumanDecisionRecord, RawMessage, StepDefinition, StepStatus, WorkflowInstance,
  WorkflowStatus, WorkflowStep, priority_higher,
}
use floxy_pro.Prelude.Maps.{insert}
use floxy_pro.Store.Defs.{Error, entity_not_found, found, marshal_failed}
use floxy_pro.Store.Requests.{get_human_decision}
use floxy_pro.Store.Steps.{update_step_status}

pub data Ran : Type 0 where
  finished : RawMessage → Bool → WorkflowStep → Ran
  aborted : Ran

abbrev pub is_not_found : Error → Bool
is_not_found entity_not_found = true
is_not_found marshal_failed = false

abbrev pub output_of : Env → Payload → Action RawMessage
output_of env payload =
    or_raise (env.marshal payload) (within "marshal output" (message env.marshal_error))

abbrev pub about_waiting : WorkflowStep → StepDefinition → Payload
about_waiting row def =
    (key_step_name, Value.text row.step_name)
    ∷ (key_step_type, Value.step_type def.type)
    ∷ (key_reason, Value.text "waiting_for_human_decision")
    ∷ []

abbrev pub waiting_output : Payload → Payload
waiting_output input =
    insert "message" (Value.text "Step is waiting for human decision")
      (insert "status" (Value.text "waiting_decision") input)

unfoldable pub await_decision : Env → WorkflowInstance → WorkflowStep → StepDefinition → Action Ran
unfolding schedule log
await_decision env instance row def = do
  call "update step status to waiting_decision"
      (update_step_status row.id StepStatus.waiting_decision)
  schedule env "enqueue step" instance.id row.id priority_higher def.delay
  log env instance.id (some row.id) event_step_started (about_waiting row def)
  output ← output_of env (waiting_output (or_none (env.unmarshal row.input)))
  pure (finished output true (record row { status = StepStatus.waiting_decision }))

abbrev pub decided_status : HumanDecision → StepStatus
decided_status HumanDecision.confirmed = StepStatus.confirmed
decided_status HumanDecision.rejected = StepStatus.rejected

abbrev pub decision_text : HumanDecision → String
decision_text HumanDecision.confirmed = "confirmed"
decision_text HumanDecision.rejected = "rejected"

abbrev pub about_decision : WorkflowStep → HumanDecision → String → Payload
about_decision row decision decided_by =
    (key_step_name, Value.text row.step_name)
    ∷ (key_decision, Value.decision decision)
    ∷ (key_decided_by, Value.text decided_by)
    ∷ []

abbrev pub with_comment : Option String → Payload → Payload
with_comment none payload = payload
with_comment (some words) payload = insert "comment" (Value.text words) payload

abbrev pub decided_output : HumanDecisionRecord → Payload → Payload
decided_output rec input = insert "decided_at" (Value.time rec.decided_at) (
    with_comment rec.comment (
      insert "decided_by" (Value.text rec.decided_by)
        (insert "status" (Value.text (decision_text rec.decision)) input)))

unfoldable pub note_decision :
    Env → WorkflowInstance → WorkflowStep → HumanDecisionRecord → HumanDecision → Action Unit
unfolding mark_instance log
note_decision env instance row rec HumanDecision.confirmed =
    log env instance.id (some row.id) event_step_completed
      (about_decision row rec.decision rec.decided_by)
note_decision env instance row rec HumanDecision.rejected = do
  mark_instance env "update instance status" instance.id WorkflowStatus.aborted ""
      (some "Step was rejected by human")
  log env instance.id (some row.id) event_step_failed
      (about_decision row rec.decision rec.decided_by)

abbrev pub ran_after : HumanDecision → RawMessage → WorkflowStep → Ran
ran_after HumanDecision.confirmed output row = finished output true row
ran_after HumanDecision.rejected output row = aborted

unfoldable pub process_human_decision :
    Env → WorkflowInstance → WorkflowStep → HumanDecisionRecord → Action Ran
unfolding note_decision
process_human_decision env instance row rec = do
  note_decision env instance row rec rec.decision
  call "update step status" (update_step_status row.id (decided_status rec.decision))
  output ← output_of env (decided_output rec (or_none (env.unmarshal row.input)))
  pure (ran_after rec.decision output row)

unfoldable pub execute_human : Env → WorkflowInstance → WorkflowStep → StepDefinition → Action Ran
unfolding await_decision process_human_decision
execute_human env instance row def = do
  found ← attempt (get_human_decision row.id)
  on_result found
      (λ e.
        choose (is_not_found e) (await_decision env instance row def)
          (raise (within "get human decision" (store_error e))))
      (process_human_decision env instance row)
