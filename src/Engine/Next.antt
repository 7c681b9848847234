-- ===== src/Engine/Next.antt =====
-- engine.go: ExecuteNext, for a worker that takes the next item of the queue.
pub mod PutBack
pub mod Queue
use Prim.Native.String.{◌++◌ as str_append}
use floxy_pro.Prelude.{
  Bool, Option, String, false, find?, inl, inr, is_set, ltb, nat_eq, none, not, some, string_eq,
  true, ℕ, ◌&&◌, ◌==◌, ◌||◌, ◌⊎◌,
}
use floxy_pro.Engine.Calls.{about, definition_for, known_step, say}
use floxy_pro.Engine.Compensation.{execute_compensation_step}
use floxy_pro.Engine.Env.{Env, log}
use floxy_pro.Engine.Execute.{execute_step}
use floxy_pro.Engine.Monad.{
  Action, Fault, call, choose, done, ignore, inside, message, on_either, on_option, or_raise, pure,
  raise, recover, returned, when, ◌>>=◌, ◌>>◌,
}
use floxy_pro.Engine.Names.{event_step_failed, event_step_skipped_missing_handler, key_message}
use floxy_pro.Engine.Steps.{create_first_step, is_compensation, is_dlq}
use floxy_pro.Graph.{Steps}
use floxy_pro.Model.{
  QueueItem, StepDefinition, StepStatus, StepType, WorkflowInstance, WorkflowStep,
}
use floxy_pro.Prelude.Maps.{lookup}
use floxy_pro.Store.Instances.{get_instance}
use floxy_pro.Store.Queue.{
  dequeue_step, release_queue_item, remove_from_queue, reschedule_and_release_queue_item,
}
use floxy_pro.Store.Steps.{get_steps_by_instance}

unfoldable pub take_item : Env → String → Action (Option QueueItem)
take_item env worker s = let (item, t) = dequeue_step worker env.now s in returned item t

-- The statuses that are not executed: the item is left to the deferred removal.
abbrev pub is_set_aside : StepStatus → Bool
is_set_aside StepStatus.skipped = true
is_set_aside StepStatus.paused = true
is_set_aside StepStatus.rolled_back = true
is_set_aside _ = false

abbrev pub has_id : ℕ → WorkflowStep → Bool
has_id id row = row.id == id

unfoldable pub step_of_item : Env → WorkflowInstance → Option ℕ → Action WorkflowStep
unfolding create_first_step
step_of_item env instance none = inside "create first step" (create_first_step env instance)
step_of_item env instance (some id) = do
  rows ← call "get steps" (get_steps_by_instance instance.id)
  or_raise (find? (has_id id) rows) (message (str_append "step not found: " (env.show id)))

-- Is the step defined, and its handler not registered with this engine?
abbrev pub lacks_handler : Env → Option StepDefinition → Bool
lacks_handler env none = false
lacks_handler env (some def) = not (is_set (lookup def.handler env.handlers))

-- The item goes back to the queue for another engine.
unfoldable pub put_back : Env → QueueItem → WorkflowInstance → WorkflowStep → String → Action Bool
unfolding log
put_back env item instance row words = do
  choose (ltb 0 env.cooldown)
      (call "reschedule queue item"
        (reschedule_and_release_queue_item item.id env.cooldown env.now))
      (call "release queue item" (release_queue_item item.id))
  when env.log_skip (
      log env instance.id none event_step_skipped_missing_handler
        (about row.step_name key_message words))
  pure false

abbrev pub lacks_compensation : Env → StepDefinition → Steps → Bool
lacks_compensation env def steps =
    not (def.on_failure == "") && lacks_handler env (lookup def.on_failure steps)

abbrev pub is_task_step : StepType → Bool
is_task_step StepType.task = true
is_task_step _ = false

abbrev pub lacks_task : Env → StepDefinition → WorkflowStep → Bool
lacks_task env def row = is_task_step row.step_type && lacks_handler env (some def)

-- `true` where the item is to be removed from the queue.
unfoldable pub handle_step_item : Env → QueueItem → WorkflowInstance → WorkflowStep → Action Bool
unfolding definition_for known_step put_back execute_compensation_step execute_step
handle_step_item env item instance row = do
  workflow ← definition_for instance
  def ← known_step "step definition not found: " row.step_name workflow.definition.steps
  choose (is_compensation row.status)
      (choose (lacks_compensation env def workflow.definition.steps)
        (put_back env item instance row "no local compensation handler registered; rescheduled")
        (do execute_compensation_step env instance row; pure true))
      (choose (lacks_task env def row)
        (put_back env item instance row "no local handler registered; rescheduled")
        (do execute_step env instance row; pure true))

unfoldable pub handle_item : Env → QueueItem → Action Bool
unfolding step_of_item handle_step_item log
handle_item env item = do
  instance ← call "get instance" (get_instance item.instance_id)
  choose (is_dlq instance.status)
      (do
        log env instance.id none event_step_failed
            (say key_message "instance in DLQ state, skipping queued item")
        pure true)
      (do
        row ← step_of_item env instance item.step_id
        choose (is_set_aside row.status)
            (do call "remove step from queue" (remove_from_queue row.id); pure true)
            (handle_step_item env item instance row))

-- `removeFromQueue` when the method returns.
abbrev pub is_removed : Fault ⊎ Bool → Bool
is_removed (inl e) = true
is_removed (inr remove) = remove

unfoldable pub process_item : Env → QueueItem → Action Unit
unfolding handle_item
process_item env item = do
  handled ← recover (handle_item env item)
  when (is_removed handled) (ignore (remove_from_queue item.id))
  on_either handled raise (λ _. done)

-- The result says whether there was nothing to do.
unfoldable pub execute_next : Env → String → Action Bool
unfolding take_item process_item
execute_next env worker = choose (env.shutdown 0 || env.shutdown 1) (pure true) (do
  taken ← take_item env worker
  on_option taken (pure true) λ item.
      choose (env.shutdown 2) (do ignore (release_queue_item item.id); pure true)
        (do process_item env item; pure false))
