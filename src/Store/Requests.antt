-- ===== src/Store/Requests.antt =====
-- memory_store.go: cancel requests and human decisions.
use floxy_pro.Prelude.{nat_eq, none, some, suc, ℕ}
use floxy_pro.Model.{HumanDecisionRecord, Time, WorkflowCancelRequest}
use floxy_pro.Prelude.Maps.{delete, insert, lookup}
use floxy_pro.Store.Defs.{Op, found, ok}

-- An instance has at most one request: a second one is dropped without an error.
unfoldable pub create_cancel_request : WorkflowCancelRequest → Time → Op Unit
create_cancel_request req now s = elim (lookup req.instance_id s.cancel_requests) [
  | some _ ↦ (ok tt, s)
  | none ↦
      let created = record req { id = s.next_cancel_request_id; created_at = now } in
      (
        ok tt,
        record s {
          cancel_requests = insert req.instance_id created s.cancel_requests;
          next_cancel_request_id = suc s.next_cancel_request_id;
        },
      )
]

unfoldable pub get_cancel_request : ℕ → Op WorkflowCancelRequest
get_cancel_request instance_id s = (found (lookup instance_id s.cancel_requests), s)

unfoldable pub delete_cancel_request : ℕ → Op Unit
delete_cancel_request instance_id s =
    (ok tt, record s { cancel_requests = delete instance_id s.cancel_requests })

-- A later decision on the same step replaces the earlier one.
unfoldable pub create_human_decision : HumanDecisionRecord → Time → Op Unit
create_human_decision decision now s =
    let created = record decision { id = s.next_human_decision_id; created_at = now } in
    (
      ok tt,
      record s {
        human_decisions = insert decision.step_id created s.human_decisions;
        next_human_decision_id = suc s.next_human_decision_id;
      },
    )

unfoldable pub get_human_decision : ℕ → Op HumanDecisionRecord
get_human_decision step_id s = (found (lookup step_id s.human_decisions), s)
