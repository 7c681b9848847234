-- ===== src/Engine/Cancel/Requests.antt =====
-- What CancelWorkflow and AbortWorkflow do to the instance that they name.
use floxy_pro.Prelude.{
  Option, String, [], ap, arith, false, inl, inr, nat_eq, none, refl, some, string_eq, suc, true, ℕ,
  ◌∙◌, ◌∷◌, ◌≡◌, ◌≢◌, ◌⊎◌,
}
use floxy_pro.Engine.Cancel.{
  abort_workflow, already_over, cancel_request, cancel_workflow, is_over, request_stop,
}
use floxy_pro.Engine.Env.{Env, Value}
use floxy_pro.Engine.Env.Logged.{log_lem, with_events}
use floxy_pro.Engine.Monad.{
  Fault, Run, call, choose, failed, raise, returned, store_error, within, ◌>>=◌,
}
use floxy_pro.Engine.Names.{
  event_abort_started, event_cancellation_started, key_cancel_type, key_reason, key_requested_by,
}
use floxy_pro.Engine.Traced.Ops.{kept}
use floxy_pro.Model.{CancelType, WorkflowCancelRequest, WorkflowInstance}
use floxy_pro.Prelude.Maps.{insert, lookup, lookup-insert}
use floxy_pro.Store.Defs.{MemoryStore, entity_not_found, ok}
use floxy_pro.Store.Instances.{get_instance}
use floxy_pro.Store.Requests.{create_cancel_request}

module _ (env : Env) (id : ℕ) (requested_by reason : String) (s : MemoryStore) where
  request_stop_missing :
      (cancel_type : CancelType) (event : String)
      → lookup id s.instances ≡ none
      → request_stop env id requested_by reason cancel_type event s
        ≡ failed (within "get instance" (store_error entity_not_found)) s
  unfolding request_stop ◌>>=◌ call get_instance
  request_stop_missing cancel_type event absent = rw absent

  request_stop_over :
      (cancel_type : CancelType) (event : String) (i : WorkflowInstance)
      → lookup id s.instances ≡ some i
      → is_over i.status ≡ true
      → request_stop env id requested_by reason cancel_type event s
        ≡ failed (already_over env id i.status) s
  unfolding request_stop ◌>>=◌ call get_instance choose raise
  request_stop_over cancel_type event i there over = rw (there, over)

  -- A workflow that is not known, or that has ended, is neither cancelled nor aborted: both calls
  -- return the error, and the store is as it was.
  pub cancel_workflow_refused :
      (absent : (lookup id s.instances ≡ none)
        ⊎ ((i : WorkflowInstance) × (lookup id s.instances ≡ some i) × (is_over i.status ≡ true)))
      → (e : Fault) × (cancel_workflow env id requested_by reason s ≡ failed e s)
        × (abort_workflow env id requested_by reason s ≡ failed e s)
  unfolding cancel_workflow abort_workflow
  cancel_workflow_refused (inl absent) = (
    within "get instance" (store_error entity_not_found),
    request_stop_missing CancelType.cancel event_cancellation_started absent,
    request_stop_missing CancelType.abort event_abort_started absent,
  )
  cancel_workflow_refused (inr (i, there, over)) = (
    already_over env id i.status,
    request_stop_over CancelType.cancel event_cancellation_started i there over,
    request_stop_over CancelType.abort event_abort_started i there over,
  )

  abbrev new_request : CancelType → WorkflowCancelRequest
  new_request cancel_type = record (cancel_request id requested_by cancel_type reason) {
    id = s.next_cancel_request_id;
    created_at = env.now;
  }

  -- The request that is left in the store: the one that is there already, or the new one.
  abbrev kept_request : CancelType → Option WorkflowCancelRequest → Option WorkflowCancelRequest
  kept_request cancel_type (some old) = some old
  kept_request cancel_type none = some (new_request cancel_type)

  abbrev Kept : CancelType → MemoryStore → Type 0
  Kept cancel_type t =
      (lookup id t.cancel_requests ≡ kept_request cancel_type (lookup id s.cancel_requests))
      × ((k : ℕ) → id ≢ k → lookup k t.cancel_requests ≡ lookup k s.cancel_requests)
      × (t ≡ record (with_events t s) {
        cancel_requests = t.cancel_requests;
        next_cancel_request_id = t.next_cancel_request_id;
      })

  abbrev Requested : CancelType → Run Unit → Type 0
  Requested cancel_type r = (t : MemoryStore) × (r ≡ returned tt t) × Kept cancel_type t

  create_cancel_request-Kept :
      (cancel_type : CancelType)
      → (t : MemoryStore) × (create_cancel_request
            (cancel_request id requested_by cancel_type reason)
            env.now
            s
          ≡ (ok tt, t))
        × Kept cancel_type t
  unfolding create_cancel_request
  create_cancel_request-Kept cancel_type = go (lookup id s.cancel_requests) refl
    where
      go :
          (o : Option WorkflowCancelRequest)
          → lookup id s.cancel_requests ≡ o
          → (t : MemoryStore) × (create_cancel_request
                (cancel_request id requested_by cancel_type reason)
                env.now
                s
              ≡ (ok tt, t))
            × Kept cancel_type t
      go none e = (
        record s {
          cancel_requests = insert id (new_request cancel_type) s.cancel_requests;
          next_cancel_request_id = suc s.next_cancel_request_id;
        },
        rw (create_cancel_request, e),
        (
          lookup-insert id id _ s.cancel_requests ∙ rw ((nat_eq.beq_iff id id).1 refl, e) refl,
          λ k other. ground (
            arith,
            lookup-insert id k (new_request cancel_type) s.cancel_requests,
            nat_eq.beq_iff id k,
          ),
          refl,
        ),
      )
      go (some old) e = (s, rw (create_cancel_request, e), (rw e, λ k other. refl, refl))

  request_stop-Requested :
      (cancel_type : CancelType) (event : String) (i : WorkflowInstance)
      → lookup id s.instances ≡ some i
      → is_over i.status ≡ false
      → Requested cancel_type (request_stop env id requested_by reason cancel_type event s)
  unfolding request_stop ◌>>=◌ call get_instance choose
  request_stop-Requested cancel_type event i there going =
      let (u, made, kept) = create_cancel_request-Kept cancel_type in
      let (v, written) =
        log_lem env id none event
          ((key_requested_by, Value.text requested_by)
            ∷ (key_reason, Value.text reason)
            ∷ (key_cancel_type, Value.cancel_type cancel_type)
            ∷ [])
          u in
      let (request, others, frame) = kept in
      (
        with_events v u,
        rw (there, going, made, written),
        (request, others, ap (with_events v) frame),
      )

  -- A request for a workflow that has not ended returns no error. It leaves a request for the
  -- instance in the store, the earlier one where there is one, so that a request to abort that follows
  -- a request to cancel is dropped. Apart from the request, the counter of requests and the logged
  -- events, the whole store is as it was, the requests for other instances included.
  pub cancel_workflow_lem :
      (i : WorkflowInstance)
      → lookup id s.instances ≡ some i
      → is_over i.status ≡ false
      → Requested CancelType.cancel (cancel_workflow env id requested_by reason s)
        × Requested CancelType.abort (abort_workflow env id requested_by reason s)
  unfolding cancel_workflow abort_workflow
  cancel_workflow_lem i there going = (
    request_stop-Requested CancelType.cancel event_cancellation_started i there going,
    request_stop-Requested CancelType.abort event_abort_started i there going,
  )
