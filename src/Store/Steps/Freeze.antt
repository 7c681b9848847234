-- ===== src/Store/Steps/Freeze.antt =====
-- PauseActiveStepsAndClearQueue: what it does to the steps and to the queue.
use floxy_pro.Prelude.{
  Bool, Bool-cases, List, Option-cases, [], ap, arith, contains, false, if-keeps, if_false,
  if◌then◌else◌, inl, inr, nat_eq, none, refl, some, subst, sym, true, ℕ, ◌==◌, ◌∙◌, ◌∷◌, ◌≡◌, ◌≢◌,
}
use floxy_pro.Builder.{step}
use floxy_pro.Model.{QueueItem, StepStatus, WorkflowStep}
use floxy_pro.Prelude.Maps.{Map, adjust, lookup, lookup-adjust}
use floxy_pro.Prelude.Maps.Distinct.{lookup-delete_where, unless}
use floxy_pro.Prelude.Maps.Everywhere.{delete_where_cases}
use floxy_pro.Store.Defs.{MemoryStore, ok}
use floxy_pro.Store.Steps.{is_running, pause, pause_active_steps_and_clear_queue, write_each}
use floxy_pro.Store.Valid.{IsValid}
use floxy_pro.Store.Valid.Steps.{list_of, list_of-ListEntry}

pause_stops : (step : WorkflowStep) → is_running (pause step).status ≡ false
pause_stops step =
    if-keeps (λ (x : WorkflowStep). is_running x.status ≡ false) (is_running step.status) _ step
      (λ _. refl) (λ stopped. stopped)

pause_twice : (step : WorkflowStep) → pause (pause step) ≡ pause step
pause_twice step = if_false (is_running (pause step).status) _ (pause step) (pause_stops step)

pause-instance_id : (step : WorkflowStep) → (pause step).instance_id ≡ step.instance_id
pause-instance_id step =
    if-keeps (λ (x : WorkflowStep). x.instance_id ≡ step.instance_id) (is_running step.status) _
      step (λ _. refl) (λ _. refl)

-- A step that the list names or not, paused once or twice.
paused_once :
    (c : Bool) (step : WorkflowStep)
    → some (if c then pause (pause step) else pause step) ≡ some (if true then pause step else step)
paused_once true step = ap some (pause_twice step)
paused_once false step = refl

-- The step under an identifier after the writes.
write_each_there :
    (ids : List ℕ) (m : Map ℕ WorkflowStep) (k : ℕ) (step : WorkflowStep)
    → lookup k m ≡ some step
    → lookup k (write_each pause ids m) ≡ some (if contains ids k then pause step else step)
unfolding write_each
write_each_there [] m k step there = there
write_each_there (id ∷ ids) m k step there = elim (Bool-cases (id == k)) [
  | inl same ↦
      let here : lookup k (adjust id pause m) ≡ some (pause step) =
        lookup-adjust id k pause m ∙ rw (same, there) refl in
      write_each_there ids (adjust id pause m) k (pause step) here
      ∙ (paused_once (contains ids k) step ∙ rw same refl)
  | inr other ↦
      let here : lookup k (adjust id pause m) ≡ some step =
        lookup-adjust id k pause m ∙ rw (other, there) refl in
      write_each_there ids (adjust id pause m) k step here ∙ rw other refl
]

write_each_absent :
    (ids : List ℕ) (m : Map ℕ WorkflowStep) (k : ℕ)
    → lookup k m ≡ none
    → lookup k (write_each pause ids m) ≡ none
unfolding write_each
write_each_absent [] m k absent = absent
write_each_absent (id ∷ ids) m k absent =
    write_each_absent ids (adjust id pause m) k (ground (arith, lookup-adjust id k pause m))

module _ (id : ℕ) (s : MemoryStore) (v : IsValid s) where
  abbrev frozen : Map ℕ WorkflowStep
  frozen = write_each pause (list_of s.steps_by_instance id) s.steps

  -- The list of the instance names its own steps, and all of them.
  listed-instance_id :
      (k : ℕ) (step : WorkflowStep)
      → lookup k s.steps ≡ some step
      → contains (list_of s.steps_by_instance id) k ≡ true
      → step.instance_id ≡ id
  listed-instance_id k step there c =
      (list_of-ListEntry s.steps s.steps_by_instance s.next_step_id v.steps id k c).1 step there

  own_listed :
      (k : ℕ) (step : WorkflowStep)
      → lookup k s.steps ≡ some step
      → step.instance_id ≡ id
      → contains (list_of s.steps_by_instance id) k ≡ true
  own_listed k step there own =
      subst (λ i. contains (list_of s.steps_by_instance i) k ≡ true) own
        (v.steps.entries k step there).2

  frozen-stops :
      (k : ℕ) (step : WorkflowStep)
      → lookup k frozen ≡ some step
      → step.instance_id ≡ id
      → step.status ≢ StepStatus.running
  frozen-stops k step there own runs = elim (Option-cases (lookup k s.steps)) [
    | inl absent ↦
        absurd (cc (write_each_absent (list_of s.steps_by_instance id) s.steps k absent, there))
    | inr old ↦
        let now_there = write_each_there (list_of s.steps_by_instance id) s.steps k old.0 old.1 in
        elim (Bool-cases (contains (list_of s.steps_by_instance id) k)) [
          | inl listed ↦
              let e : some (pause old.0) ≡ some step = sym (rw listed at now_there) ∙ there in
              let stopped = pause_stops old.0 in
              let same : pause old.0 ≡ step = cc e in
              absurd (
                cc (
                  ap (λ (x : WorkflowStep). is_running x.status) same,
                  stopped,
                  ap is_running runs,
                ))
          | inr unlisted ↦
              let e : some old.0 ≡ some step = sym (rw unlisted at now_there) ∙ there in
              let same : old.0 ≡ step = cc e in
              let yes_listed =
                own_listed k old.0 old.1 (ap (λ (x : WorkflowStep). x.instance_id) same ∙ own) in
              absurd (cc (yes_listed, unlisted))
        ]
  ]

  frozen_other :
      (k : ℕ) (step : WorkflowStep)
      → lookup k s.steps ≡ some step
      → step.instance_id ≢ id
      → lookup k frozen ≡ some step
  frozen_other k step there other =
      let now_there = write_each_there (list_of s.steps_by_instance id) s.steps k step there in
      elim (Bool-cases (contains (list_of s.steps_by_instance id) k)) [
        | inl listed ↦ absurd (other (listed-instance_id k step there listed))
        | inr unlisted ↦
            now_there
            ∙ ap some (if_false (contains (list_of s.steps_by_instance id) k) _ step unlisted)
      ]

-- In a valid store, PauseActiveStepsAndClearQueue returns no error and leaves the instance without a
-- running step and without an item in the queue; the steps and the items of other instances stay as
-- they are.
pub freeze_lem :
    (id : ℕ) (s : MemoryStore)
    → IsValid s
    → let (result, after) = pause_active_steps_and_clear_queue id s in
      (result ≡ ok tt)
      × ((k : ℕ) (step : WorkflowStep)
          → lookup k after.steps ≡ some step
          → step.instance_id ≡ id
          → step.status ≢ StepStatus.running)
      × ((k : ℕ) (item : QueueItem) → lookup k after.queue ≡ some item → item.instance_id ≢ id)
      × ((k : ℕ) (step : WorkflowStep)
          → lookup k s.steps ≡ some step
          → step.instance_id ≢ id
          → lookup k after.steps ≡ some step)
      × ((k : ℕ) (item : QueueItem)
          → lookup k s.queue ≡ some item
          → item.instance_id ≢ id
          → lookup k after.queue ≡ some item)
unfolding pause_active_steps_and_clear_queue
freeze_lem id s v = (
  refl,
  frozen-stops id s v,
  λ k item there same.
      let (out, old) =
        delete_where_cases k (λ item. item.instance_id == id) item s.queue v.queue.distinct there in
      ground (arith, out, same),
  frozen_other id s v,
  λ k item there other.
      lookup-delete_where k (λ item. item.instance_id == id) s.queue v.queue.distinct
      ∙ (ap (unless (λ (item : QueueItem). item.instance_id == id)) there ∙ ground (arith, other)),
)
