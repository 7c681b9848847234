-- ===== src/Engine/Next/PutBack.antt =====
-- A queue item that ExecuteNext puts back for another engine.
use floxy_pro.Prelude.{
  Bool, Option, String, ap, arith, false, inl, inr, ltb, nat_eq, none, refl, some, string_eq, subst,
  sym, true, ℕ, ◌+◌, ◌∙◌, ◌≡◌, ◌⊎◌,
}
use floxy_pro.Engine.Calls.{definition_for, known_step}
use floxy_pro.Engine.Env.{Env, Payload, log}
use floxy_pro.Engine.Env.Logged.{log_lem, with_events}
use floxy_pro.Engine.Monad.{
  Action, Fault, call, choose, or_raise, pure, raise, returned, when, ◌>>=◌,
}
use floxy_pro.Engine.Next.{
  handle_item, handle_step_item, lacks_compensation, lacks_handler, put_back,
}
use floxy_pro.Engine.Returned.{bind-returned, call-returned, choose-returned, found-ok}
use floxy_pro.Engine.Traced.Ops.{kept}
use floxy_pro.Model.{QueueItem, StepDefinition, WorkflowDefinition, WorkflowInstance, WorkflowStep}
use floxy_pro.Prelude.Maps.{adjust, lookup, lookup-adjust}
use floxy_pro.Store.Definitions.{get_workflow_definition}
use floxy_pro.Store.Defs.{MemoryStore, if_found, ok}
use floxy_pro.Store.Instances.{get_instance}
use floxy_pro.Store.Queue.{postpone, release_queue_item, reschedule_and_release_queue_item, unclaim}

-- The item is in the queue, and no worker has claimed it.
abbrev pub IsUnclaimed : ℕ → MemoryStore → Type 0
IsUnclaimed id t =
    (held : QueueItem) × (lookup id t.queue ≡ some held)
    × (held.attempted_at ≡ none)
    × (held.attempted_by ≡ none)

-- A step of the definition that the instance has needs a handler that is not registered, or its
-- compensation does.
abbrev pub IsUnhandled : Env → String → MemoryStore → Type 0
IsUnhandled env workflow_id t =
    (workflow : WorkflowDefinition) × (name : String) × (def : StepDefinition) × (lookup workflow_id
        t.definitions
      ≡ some workflow)
    × (lookup name workflow.definition.steps ≡ some def)
    × ((lacks_compensation env def workflow.definition.steps ≡ true)
        ⊎ (lacks_handler env (some def) ≡ true))

-- A call that changes an item of the queue by `f`, or is an error where there is none.
if_found-unclaims :
    (id : ℕ) (f : QueueItem → QueueItem) (s u : MemoryStore)
    → ((q : QueueItem) → ((f q).attempted_at ≡ none) × ((f q).attempted_by ≡ none))
    → if_found (lookup id s.queue) s (record s { queue = adjust id f s.queue }) ≡ (ok tt, u)
    → IsUnclaimed id u × (u.definitions ≡ s.definitions)
if_found-unclaims id f s u clears run = go (lookup id s.queue) refl run
  where
    go :
        (o : Option QueueItem)
        → lookup id s.queue ≡ o
        → if_found o s (record s { queue = adjust id f s.queue }) ≡ (ok tt, u)
        → IsUnclaimed id u × (u.definitions ≡ s.definitions)
    go none absent e = absurd (cc)
    go (some q) there e =
        let same : record s { queue = adjust id f s.queue } ≡ u = ap (λ r. r.1) e in
        subst (λ v. IsUnclaimed id v × (v.definitions ≡ s.definitions)) same
          (
            (
              f q,
              lookup-adjust id id f s.queue ∙ rw ((nat_eq.beq_iff id id).1 refl, there) refl,
              (clears q).0,
              (clears q).1,
            ),
            refl,
          )

release-IsUnclaimed :
    (env : Env) (item : QueueItem) (s u : MemoryStore)
    → choose
        (ltb 0 env.cooldown)
        (call "reschedule queue item"
          (reschedule_and_release_queue_item item.id env.cooldown env.now))
        (call "release queue item" (release_queue_item item.id))
        s
      ≡ returned tt u
    → IsUnclaimed item.id u × (u.definitions ≡ s.definitions)
unfolding release_queue_item reschedule_and_release_queue_item
release-IsUnclaimed env item s u run = elim (choose-returned _ _ _ s u tt run) [
  | inl (_, e) ↦
      if_found-unclaims item.id (postpone (env.now + env.cooldown)) s u (λ q. (refl, refl))
        (call-returned _ (reschedule_and_release_queue_item item.id env.cooldown env.now) s u tt e)
  | inr (_, e) ↦
      if_found-unclaims item.id unclaim s u (λ q. (refl, refl))
        (call-returned _ (release_queue_item item.id) s u tt e)
]

noted_keeps :
    (env : Env) (c : Bool) (id : ℕ) (event : String) (payload : Payload) (s u : MemoryStore)
    → when c (log env id none event payload) s ≡ returned tt u
    → (u.queue ≡ s.queue) × (u.definitions ≡ s.definitions)
unfolding when pure
noted_keeps env false id event payload s u e =
    let same : s ≡ u = cc in (ap (λ t. t.queue) (sym same), ap (λ t. t.definitions) (sym same))
noted_keeps env true id event payload s u e =
    let (v, written) = log_lem env id none event payload s in
    let same : with_events v s ≡ u = cc (written, e) in
    (ap (λ t. t.queue) (sym same), ap (λ t. t.definitions) (sym same))

put_back-IsUnclaimed :
    (env : Env) (item : QueueItem) (instance : WorkflowInstance) (row : WorkflowStep)
    (words : String) (s u : MemoryStore) (b : Bool)
    → put_back env item instance row words s ≡ returned b u
    → IsUnclaimed item.id u × (u.definitions ≡ s.definitions)
unfolding put_back pure
put_back-IsUnclaimed env item instance row words s u b run =
    let (_, v, r1, q1) = bind-returned _ _ s u b run in
    let (_, w, r2, q2) = bind-returned _ _ v u b q1 in
    let ((held, there, at, by), defs) = release-IsUnclaimed env item s v r1 in
    let (queue, kept) = noted_keeps env env.log_skip instance.id _ _ v w r2 in
    let same : w ≡ u = cc (q2) in
    subst (λ t. IsUnclaimed item.id t × (t.definitions ≡ s.definitions)) same
      ((held, subst (λ q. lookup item.id q ≡ some held) (sym queue) there, at, by), kept ∙ defs)

or_raise-returned :
    {A : Type 0} (o : Option A) (e : Fault) (s t : MemoryStore) (a : A)
    → or_raise o e s ≡ returned a t
    → (o ≡ some a) × (s ≡ t)
unfolding or_raise raise pure
or_raise-returned none e s t a run = absurd (cc)
or_raise-returned (some b) e s t a run = (cc, cc)

-- An action that ends with `true` does not return `false`.
then_true :
    {A : Type 0} (m : Action A) (s u : MemoryStore)
    → (m >>= λ _. pure true) s ≡ returned false u
    → ⊥
unfolding pure
then_true m s u run =
    let (_, v, _, q) = bind-returned m (λ _. pure true) s u false run in absurd (cc (q))

definition_for-returned :
    (instance : WorkflowInstance) (s t : MemoryStore) (workflow : WorkflowDefinition)
    → definition_for instance s ≡ returned workflow t
    → (lookup instance.workflow_id s.definitions ≡ some workflow) × (s ≡ t)
unfolding definition_for get_workflow_definition
definition_for-returned instance s t workflow run =
    let pair = call-returned _ (get_workflow_definition instance.workflow_id) s t workflow run in
    (found-ok _ workflow (ap (λ r. r.0) pair), ap (λ r. r.1) pair)

module _ (env : Env) (item : QueueItem) where
  put_back-IsUnhandled :
      (instance : WorkflowInstance) (row : WorkflowStep) (words : String)
      (workflow : WorkflowDefinition) (def : StepDefinition) (s u : MemoryStore)
      → lookup instance.workflow_id s.definitions ≡ some workflow
      → lookup row.step_name workflow.definition.steps ≡ some def
      → (lacks_compensation env def workflow.definition.steps ≡ true)
        ⊎ (lacks_handler env (some def) ≡ true)
      → put_back env item instance row words s ≡ returned false u
      → IsUnclaimed item.id u × IsUnhandled env instance.workflow_id u
  put_back-IsUnhandled instance row words workflow def s u there known missing run =
      let (unclaimed, kept) = put_back-IsUnclaimed env item instance row words s u false run in
      (
        unclaimed,
        (
          workflow,
          row.step_name,
          def,
          subst (λ m. lookup instance.workflow_id m ≡ some workflow) (sym kept) there,
          known,
          missing,
        ),
      )

  handle_step_item-false :
      (instance : WorkflowInstance) (row : WorkflowStep) (s u : MemoryStore)
      → handle_step_item env item instance row s ≡ returned false u
      → IsUnclaimed item.id u × IsUnhandled env instance.workflow_id u
  unfolding handle_step_item known_step
  handle_step_item-false instance row s u run =
      let (workflow, v, r1, q1) = bind-returned _ _ s u false run in
      let (def, w, r2, q2) = bind-returned _ _ v u false q1 in
      let (there, e1) = definition_for-returned instance s v workflow r1 in
      let (known, e2) = or_raise-returned _ _ v w def r2 in
      let held =
        subst (λ t. lookup instance.workflow_id t.definitions ≡ some workflow) (e1 ∙ e2) there in
      elim (choose-returned _ _ _ w u false q2) [
        | inl (_, q3) ↦ elim (choose-returned _ _ _ w u false q3) [
          | inl (missing, q4) ↦
              put_back-IsUnhandled instance row _ workflow def w u held known (inl missing) q4
          | inr (_, q4) ↦ absurd (then_true _ w u q4)
        ]
        | inr (_, q3) ↦ elim (choose-returned _ _ _ w u false q3) [
          | inl (missing, q4) ↦
              put_back-IsUnhandled instance row _ workflow def w u held known
                (inr (ground (arith, missing))) q4
          | inr (_, q4) ↦ absurd (then_true _ w u q4)
        ]
      ]

  pub handle_item-false :
      (s u : MemoryStore)
      → handle_item env item s ≡ returned false u
      → IsUnclaimed item.id u
        × ((instance : WorkflowInstance) × (lookup item.instance_id s.instances ≡ some instance)
            × IsUnhandled env instance.workflow_id u)
  unfolding handle_item get_instance
  handle_item-false s u run =
      let (instance, v, r1, q1) = bind-returned _ _ s u false run in
      let there =
        found-ok _ instance
          (ap (λ r. r.0) (call-returned _ (get_instance item.instance_id) s v instance r1)) in
      elim (choose-returned _ _ _ v u false q1) [
        | inl (_, q2) ↦ absurd (then_true _ v u q2)
        | inr (_, q2) ↦
            let (row, w, r3, q3) = bind-returned _ _ v u false q2 in
            elim (choose-returned _ _ _ w u false q3) [
              | inl (_, q4) ↦ absurd (then_true _ w u q4)
              | inr (_, q4) ↦
                  let (unclaimed, missing) = handle_step_item-false instance row w u q4 in
                  (unclaimed, (instance, there, missing))
            ]
      ]
