-- ===== src/Tests/EngineContexts.antt =====
-- The table of contexts and the throttle of events on concrete inputs.
use floxy_pro.Prelude.{
  String, [], arith, nat_eq, refl, some, string_eq, true, ℕ, ◌↔◌, ◌∷◌, ◌≡◌, ◌≢◌, ◌≤◌,
}
use floxy_pro.Engine.Cancel.{cancel_request}
use floxy_pro.Engine.Contexts.{
  CancelContexts, cancel_contexts, process_cancel_requests, process_each, register_instance_context,
  unregister_instance_context,
}
use floxy_pro.Engine.Contexts.Cancelled.{process_cancel_requests_lem}
use floxy_pro.Engine.Contexts.Registered.{unregister-register}
use floxy_pro.Engine.Throttle.{should_log_skip}
use floxy_pro.Engine.Throttle.Spaced.{should_log_skip_bounds}
use floxy_pro.Model.{CancelType, WorkflowCancelRequest}
use floxy_pro.Prelude.Maps.{delete, lookup}
use floxy_pro.Store.Defs.{MemoryStore, new_memory_store}
use floxy_pro.Store.Requests.{get_cancel_request}

-- Steps 4 and 5 of instance 1 and step 6 of instance 2 are running.
abbrev running_steps : CancelContexts ℕ
running_steps = (1, (4, 40) ∷ (5, 50) ∷ []) ∷ (2, (6, 60) ∷ []) ∷ []

abbrev stop_first : WorkflowCancelRequest
stop_first = cancel_request 1 "ops" CancelType.cancel "stop"

abbrev asked_store : MemoryStore
asked_store = record new_memory_store { cancel_requests = (1, stop_first) ∷ [] }

process_cancel_requests_run :
    process_cancel_requests asked_store running_steps ≡ (40 ∷ 50 ∷ [], (2, (6, 60) ∷ []) ∷ [])
unfolding new_memory_store process_cancel_requests process_each get_cancel_request cancel_contexts
    lookup delete
process_cancel_requests_run = refl

process_cancel_requests_lem_example :
    lookup 2 (process_cancel_requests asked_store running_steps).1 ≡ some ((6, 60) ∷ [])
unfolding new_memory_store lookup
process_cancel_requests_lem_example = process_cancel_requests_lem asked_store running_steps 2

full_entries : (j : ℕ) → lookup j running_steps ≢ some []
unfolding lookup
full_entries j = ground arith

unregister-register_example :
    lookup 1 (unregister_instance_context 1 7 (register_instance_context 1 7 70 running_steps))
    ≡ some ((4, 40) ∷ (5, 50) ∷ [])
unfolding lookup
unregister-register_example = unregister-register 1 7 70 running_steps full_entries refl 1

abbrev first_key : String
first_key = "a"

abbrev second_key : String
second_key = "b"

should_log_skip_bounds_example :
    let after = (should_log_skip 10 100 first_key []).1 in
    ((should_log_skip 10 105 first_key after).0 ≡ true ↔ 110 ≤ 105)
    × (first_key ≢ second_key
        → (should_log_skip 10 105 second_key after).0 ≡ (should_log_skip 10 105 second_key []).0)
unfolding should_log_skip lookup
should_log_skip_bounds_example =
    should_log_skip_bounds 10 100 105 first_key second_key [] (ground arith) refl
