-- ===== src/Store/Events.antt =====
-- memory_store.go: LogEvent and GetWorkflowEvents.
use floxy_pro.Prelude.{
  Bool, List, Option, String, [], find?, ltb, nat_eq, none, some, string_eq, suc, ℕ, ◌++◌, ◌==◌,
  ◌∷◌,
}
use floxy_pro.Model.{RawMessage, Time, WorkflowEvent}
use floxy_pro.Prelude.Maps.{insert, lookup}
use floxy_pro.Prelude.Sorting.{sort_by}
use floxy_pro.Store.Defs.{Op, err, marshal_failed, ok, or_nil}

-- `encoded` is what `json.Marshal(payload)` returns, `none` for its error.
unfoldable pub log_event : ℕ → Option ℕ → String → Option RawMessage → Time → Op Unit
log_event instance_id step_id event_type none now s = (err marshal_failed, s)
log_event instance_id step_id event_type (some payload) now s =
    let event : WorkflowEvent = record {
      id = s.next_event_id;
      instance_id = instance_id;
      step_id = step_id;
      event_type = event_type;
      payload = payload;
      created_at = now;
    } in
    let listed = or_nil (lookup instance_id s.events_by_instance) in
    (
      ok tt,
      record s {
        events = s.events ++ event ∷ [];
        events_by_instance = insert instance_id (listed ++ event.id ∷ []) s.events_by_instance;
        next_event_id = suc s.next_event_id;
      },
    )

-- For each identifier, the first event that has it.
unfoldable pub events_named : List WorkflowEvent → List ℕ → List WorkflowEvent
events_named events [] = []
events_named events (id ∷ ids) = elim (find? (λ event. event.id == id) events) [
  | none ↦ events_named events ids
  | some event ↦ event ∷ events_named events ids
]

abbrev pub event_before : WorkflowEvent → WorkflowEvent → Bool
event_before a b = ltb a.created_at b.created_at

unfoldable pub get_workflow_events : ℕ → Op (List WorkflowEvent)
unfolding events_named
get_workflow_events id s =
    (ok (sort_by event_before (events_named s.events (or_nil (lookup id s.events_by_instance)))), s)
