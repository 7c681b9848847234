-- ===== src/Engine/Names.antt =====
-- event_constants.go: the types of events and the keys of their payloads.
use floxy_pro.Prelude.{String, nat_eq, string_eq}

abbrev pub event_workflow_started : String
event_workflow_started = "workflow_started"

abbrev pub event_workflow_completed : String
event_workflow_completed = "workflow_completed"

abbrev pub event_workflow_failed : String
event_workflow_failed = "workflow_failed"

abbrev pub event_workflow_cancelled : String
event_workflow_cancelled = "workflow_cancelled"

abbrev pub event_workflow_aborted : String
event_workflow_aborted = "workflow_aborted"

abbrev pub event_step_started : String
event_step_started = "step_started"

abbrev pub event_step_completed : String
event_step_completed = "step_completed"

abbrev pub event_step_retry : String
event_step_retry = "step_retry"

abbrev pub event_step_failed : String
event_step_failed = "step_failed"

abbrev pub event_fork_started : String
event_fork_started = "fork_started"

abbrev pub event_join_state_created : String
event_join_state_created = "join_state_created"

abbrev pub event_join_check : String
event_join_check = "join_check"

abbrev pub event_join_completed : String
event_join_completed = "join_completed"

abbrev pub event_join_updated : String
event_join_updated = "join_updated"

abbrev pub event_join_ready : String
event_join_ready = "join_ready"

abbrev pub event_condition_check : String
event_condition_check = "condition_check"

abbrev pub event_cancellation_started : String
event_cancellation_started = "cancellation_started"

abbrev pub event_abort_started : String
event_abort_started = "abort_started"

abbrev pub event_dlq_requeued : String
event_dlq_requeued = "dlq_requeued"

abbrev pub event_step_skipped_missing_handler : String
event_step_skipped_missing_handler = "step_skipped_missing_handler"

abbrev pub key_workflow_id : String
key_workflow_id = "workflow_id"

abbrev pub key_step_name : String
key_step_name = "step_name"

abbrev pub key_step_type : String
key_step_type = "step_type"

abbrev pub key_parallel_steps : String
key_parallel_steps = "parallel_steps"

abbrev pub key_join_step : String
key_join_step = "join_step"

abbrev pub key_waiting_for : String
key_waiting_for = "waiting_for"

abbrev pub key_strategy : String
key_strategy = "strategy"

abbrev pub key_completed : String
key_completed = "completed"

abbrev pub key_failed : String
key_failed = "failed"

abbrev pub key_is_ready : String
key_is_ready = "is_ready"

abbrev pub key_outputs : String
key_outputs = "outputs"

abbrev pub key_status : String
key_status = "status"

abbrev pub key_retry_count : String
key_retry_count = "retry_count"

abbrev pub key_error : String
key_error = "error"

abbrev pub key_completed_step : String
key_completed_step = "completed_step"

abbrev pub key_success : String
key_success = "success"

abbrev pub key_reason : String
key_reason = "reason"

abbrev pub key_result : String
key_result = "result"

abbrev pub key_decision : String
key_decision = "decision"

abbrev pub key_decided_by : String
key_decided_by = "decided_by"

abbrev pub key_message : String
key_message = "message"

abbrev pub key_requested_by : String
key_requested_by = "requested_by"

abbrev pub key_cancel_type : String
key_cancel_type = "cancel_type"
