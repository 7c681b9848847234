-- ===== src/Engine/Contexts.antt =====
-- engine.go: the table of the contexts of running steps, by instance and step, and the worker that
-- calls the cancel functions of the instances with a cancel request. `C` stands for
-- context.CancelFunc; a run of the worker returns the functions that it calls, in their order.
pub mod Cancelled
pub mod Registered
use floxy_pro.Prelude.{List, Option, [], map, nat_eq, none, some, ℕ, ◌++◌, ◌∷◌}
use floxy_pro.Model.{WorkflowCancelRequest}
use floxy_pro.Prelude.Maps.{Map, delete, insert, lookup, values}
use floxy_pro.Store.Defs.{MemoryStore, Result, err, ok}
use floxy_pro.Store.Requests.{get_cancel_request}

abbrev pub CancelContexts {ℓ} : Type ℓ → Type ℓ
CancelContexts C = Map ℕ (Map ℕ C)

module _ {ℓ} {C : Type ℓ} where
  abbrev pub steps_or_empty : Option (Map ℕ C) → Map ℕ C
  steps_or_empty none = []
  steps_or_empty (some steps) = steps

  unfoldable pub register_instance_context : ℕ → ℕ → C → CancelContexts C → CancelContexts C
  register_instance_context instance_id step_id cancel contexts =
      insert instance_id (insert step_id cancel (steps_or_empty (lookup instance_id contexts)))
        contexts

  -- The entry of the instance goes with its last step.
  abbrev pub keep_steps : ℕ → Map ℕ C → CancelContexts C → CancelContexts C
  keep_steps instance_id [] contexts = delete instance_id contexts
  keep_steps instance_id (step ∷ steps) contexts = insert instance_id (step ∷ steps) contexts

  abbrev pub without_step : ℕ → ℕ → Option (Map ℕ C) → CancelContexts C → CancelContexts C
  without_step instance_id step_id none contexts = contexts
  without_step instance_id step_id (some steps) contexts =
      keep_steps instance_id (delete step_id steps) contexts

  unfoldable pub unregister_instance_context : ℕ → ℕ → CancelContexts C → CancelContexts C
  unregister_instance_context instance_id step_id contexts =
      without_step instance_id step_id (lookup instance_id contexts) contexts

  -- The functions of the instance are called, and its entry goes.
  unfoldable pub cancel_contexts : ℕ → CancelContexts C → List C × CancelContexts C
  cancel_contexts instance_id contexts =
      (values (steps_or_empty (lookup instance_id contexts)), delete instance_id contexts)

  -- On any error of GetCancelRequest the instance is passed over.
  abbrev pub cancel_if_requested :
      ℕ → Result WorkflowCancelRequest → CancelContexts C → List C × CancelContexts C
  cancel_if_requested instance_id (err e) contexts = ([], contexts)
  cancel_if_requested instance_id (ok request) contexts = cancel_contexts instance_id contexts

  unfoldable pub process_each : MemoryStore → List ℕ → CancelContexts C → List C × CancelContexts C
  process_each s [] contexts = ([], contexts)
  process_each s (id ∷ ids) contexts =
      let (now, left) = cancel_if_requested id (get_cancel_request id s).0 contexts in
      let (later, rest) = process_each s ids left in (now ++ later, rest)

  -- The identifiers are collected before the first request is read.
  unfoldable pub process_cancel_requests :
      MemoryStore → CancelContexts C → List C × CancelContexts C
  process_cancel_requests s contexts = process_each s (map (λ entry. entry.0) contexts) contexts
