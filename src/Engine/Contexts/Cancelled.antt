-- ===== src/Engine/Contexts/Cancelled.antt =====
-- Which contexts a run of the worker for cancel requests leaves.
use native.Mathlib.Decide.{ℕ_discrete}
use floxy_pro.Prelude.{
  Bool, List, Option, [], ap, arith, contains, if◌then◌else◌, is_set, map, nat_eq, none, refl, some,
  ℕ, ◌&&◌, ◌==◌, ◌∷◌, ◌≡◌,
}
use floxy_pro.Engine.Contexts.{
  CancelContexts, cancel_contexts, cancel_if_requested, process_cancel_requests, process_each,
}
use floxy_pro.Model.{WorkflowCancelRequest}
use floxy_pro.Prelude.Maps.{lookup, lookup-delete}
use floxy_pro.Store.Defs.{MemoryStore, found}
use floxy_pro.Store.Requests.{get_cancel_request}

abbrev pub is_requested : MemoryStore → ℕ → Bool
is_requested s id = is_set (lookup id s.cancel_requests)

module _ {ℓ} {C : Type ℓ} where
  step-lookup :
      (id k : ℕ) (held : Option WorkflowCancelRequest) (contexts : CancelContexts C)
      → lookup k (cancel_if_requested id (found held) contexts).1
        ≡ (if id == k && is_set held then none else lookup k contexts)
  unfolding cancel_contexts
  step-lookup id k none contexts = ground arith
  step-lookup id k (some request) contexts = ground (arith, lookup-delete id k contexts)

  each-lookup :
      (s : MemoryStore) (ids : List ℕ) (k : ℕ) (contexts : CancelContexts C)
      → lookup k (process_each s ids contexts).1
        ≡ (if contains ids k && is_requested s k then none else lookup k contexts)
  unfolding process_each get_cancel_request
  each-lookup s [] k contexts = refl
  each-lookup s (id ∷ ids) k contexts =
      let held = lookup id s.cancel_requests in
      let left = (cancel_if_requested id (found held) contexts).1 in
      elim (ℕ_discrete id k) [
        | yes same ↦ ground (
          arith,
          each-lookup s ids k left,
          step-lookup id k held contexts,
          ap (λ i. lookup i s.cancel_requests) same,
          nat_eq.beq_iff id k,
        )
        | no other ↦
            ground
              (arith, each-lookup s ids k left, step-lookup id k held contexts, nat_eq.beq_iff id k)
      ]

  keys-lookup :
      (k : ℕ) (contexts : CancelContexts C)
      → contains (map (λ entry. entry.0) contexts) k ≡ is_set (lookup k contexts)
  unfolding lookup
  keys-lookup k [] = refl
  keys-lookup k ((j, steps) ∷ rest) = ground (arith, keys-lookup k rest)

  -- A run of the worker removes the contexts of exactly the instances with a cancel request: of every
  -- other instance they stay as they are.
  pub process_cancel_requests_lem :
      (s : MemoryStore) (contexts : CancelContexts C) (k : ℕ)
      → lookup k (process_cancel_requests s contexts).1
        ≡ (if is_requested s k then none else lookup k contexts)
  unfolding process_cancel_requests
  process_cancel_requests_lem s contexts k =
      ground
        (arith, each-lookup s (map (λ entry. entry.0) contexts) k contexts, keys-lookup k contexts)
