-- ===== src/Engine/Handlers.antt =====
-- engine.go: executeTask, executeFork, executeJoin and executeCondition.
pub mod Ready
use Prim.Native.String.{◌++◌ as str_append}
use floxy_pro.Prelude.{
  Bool, List, Option, String, [], contains, false, if◌then◌else◌, is_set, length, ltb, nat_eq, none,
  not, some, string_eq, true, ℕ, ◌&&◌, ◌∷◌, ◌⊎◌,
}
use floxy_pro.Engine.Calls.{about, add_step, definition_for, known_step, schedule}
use floxy_pro.Engine.Env.{Env, ExecutionContext, Payload, Value, log, pending_step}
use floxy_pro.Engine.Joins.{join_only}
use floxy_pro.Engine.Monad.{
  Action, Fault, attempt_locked, call, choose, done, for_each, message, on_either, on_option,
  on_result, or_raise, pure, raise, returned, store_error, within, ◌>>=◌, ◌>>◌,
}
use floxy_pro.Engine.Names.{
  event_condition_check, event_fork_started, event_join_check, event_join_completed,
  event_join_state_created, key_completed, key_error, key_failed, key_is_ready, key_join_step,
  key_outputs, key_parallel_steps, key_result, key_status, key_step_name, key_strategy,
  key_waiting_for,
}
use floxy_pro.Engine.Steps.{is_completed}
use floxy_pro.Graph.{Steps}
use floxy_pro.Model.{
  JoinState, JoinStrategy, RawMessage, StepDefinition, WorkflowInstance, WorkflowStep,
  priority_normal,
}
use floxy_pro.Prelude.Maps.{Map, lookup}
use floxy_pro.Store.Defs.{MemoryStore}
use floxy_pro.Store.Joins.{Locked, create_join_state, get_join_state, or_all}
use floxy_pro.Store.Operations.{perform_all}
use floxy_pro.Store.Steps.{get_steps_by_instance}

abbrev pub variables_of : Map String String → Payload
variables_of [] = []
variables_of ((key, words) ∷ rest) = (key, Value.text words) ∷ variables_of rest

-- What other goroutines do to the store while a handler runs.
unfoldable pub interleave : Env → Action Unit
interleave env s = returned tt (perform_all env.meanwhile s)

abbrev pub from_handler : String ⊎ RawMessage → Action RawMessage
from_handler result = on_either result (λ e. raise (message e)) pure

unfoldable pub execute_task :
    Env → WorkflowInstance → WorkflowStep → StepDefinition → Action RawMessage
unfolding interleave
execute_task env instance row def = do
  handler ←
      or_raise (lookup def.handler env.handlers)
        (message (str_append "handler not found: " def.handler))
  interleave env
  from_handler (
      handler
        (record {
          instance_id = instance.id;
          step_name = row.step_name;
          idempotency_key = row.idempotency_key;
          retry_count = row.retry_count;
          variables = variables_of def.metadata;
        })
        row.input)

unfoldable pub fork_step : Env → ℕ → Steps → RawMessage → String → Action Unit
unfolding known_step add_step schedule
fork_step env id steps input name = do
  def ← known_step "parallel step definition not found: " name steps
  row ←
      add_step env (str_append "create fork step " name)
        (pending_step id name def.type input def.max_retries)
  schedule env (str_append "enqueue fork step " name) id row.id priority_normal def.delay

-- `waitFor := nextStepDef.WaitFor; if len(waitFor) == 0 { waitFor = stepDef.Parallel }`
abbrev pub waiting_or : List String → List String → List String
waiting_or [] parallel = parallel
waiting_or (name ∷ names) parallel = name ∷ names

-- A call of the store that may block, with its error returned.
unfoldable pub call_locked : String → (MemoryStore → Locked Unit) → Action Unit
call_locked context op = do
  result ← attempt_locked op
  on_result result (λ e. raise (within context (store_error e))) pure

unfoldable pub fork_join : Env → ℕ → ℕ → StepDefinition → Steps → String → Action Unit
unfolding call_locked log
fork_join env id step_id def steps name = on_option (join_only (lookup name steps)) done λ join.
    let waiting = waiting_or join.wait_for def.parallel in
    let strategy = or_all join.join_strategy in
    do
      call_locked "create join state" (create_join_state false id name waiting strategy env.now)
      log env id (some step_id) event_join_state_created (
          (key_join_step, Value.text name)
          ∷ (key_waiting_for, Value.names waiting)
          ∷ (key_strategy, Value.strategy strategy)
          ∷ [])

abbrev pub marshalled : Env → Payload → Action RawMessage
marshalled env payload = or_raise (env.marshal payload) (message env.marshal_error)

unfoldable pub execute_fork :
    Env → WorkflowInstance → WorkflowStep → StepDefinition → Action RawMessage
unfolding fork_step fork_join definition_for log
execute_fork env instance row def = do
  log env instance.id (some row.id) event_fork_started
      ((key_parallel_steps, Value.names def.parallel) ∷ [])
  workflow ← definition_for instance
  let steps = workflow.definition.steps
  for_each def.parallel (fork_step env instance.id steps row.input)
  for_each def.next (fork_join env instance.id row.id def steps)
  marshalled env
      ((key_status, Value.text "forked") ∷ (key_parallel_steps, Value.names def.parallel) ∷ [])

-- `%v` of a slice of texts.
abbrev pub spaced : List String → String
spaced [] = ""
spaced (name ∷ []) = name
spaced (name ∷ more ∷ names) = str_append name (str_append " " (spaced (more ∷ names)))

abbrev pub bracketed : List String → String
bracketed names = str_append "[" (str_append (spaced names) "]")

-- `outputs[s.StepName] = s.Output` for the completed steps that the join waits for.
unfoldable pub outputs_of : List String → List WorkflowStep → Map String RawMessage
outputs_of waiting [] = []
outputs_of waiting (row ∷ rows) =
    let rest = outputs_of waiting rows in
    if contains waiting row.step_name
      && is_completed row.status
      && not (is_set (lookup row.step_name rest))
    then (row.step_name, row.output) ∷ rest
    else rest

abbrev pub is_all : JoinStrategy → Bool
is_all JoinStrategy.all = true
is_all _ = false

abbrev pub join_check : JoinState → Payload
join_check state =
    (key_waiting_for, Value.names state.waiting_for)
    ∷ (key_completed, Value.names state.completed)
    ∷ (key_failed, Value.names state.failed)
    ∷ (key_is_ready, Value.flag state.is_ready)
    ∷ []

abbrev pub join_results : JoinState → Map String RawMessage → Payload
join_results state outputs =
    (key_completed, Value.names state.completed)
    ∷ (key_failed, Value.names state.failed)
    ∷ (key_strategy, Value.strategy state.join_strategy)
    ∷ (key_outputs, Value.raws outputs)
    ∷ (key_status, Value.text "success")
    ∷ []

abbrev pub join_failed : Env → ℕ → Fault
join_failed env failures =
    message (str_append "join failed: " (str_append (env.show failures) " steps failed"))

unfoldable pub execute_join : Env → WorkflowInstance → WorkflowStep → Action RawMessage
unfolding outputs_of log
execute_join env instance row = do
  state ← call "get join state" (get_join_state instance.id row.step_name)
  log env instance.id (some row.id) event_join_check (join_check state)
  choose state.is_ready
      (do
        rows ← call "get steps" (get_steps_by_instance instance.id)
        let results = join_results state (outputs_of state.waiting_for rows)
        choose (ltb 0 (length state.failed) && is_all state.join_strategy)
            (raise (join_failed env (length state.failed)))
            (do
              log env instance.id (some row.id) event_join_completed results
              marshalled env results))
      (raise (message (str_append "join not ready: waiting for " (bracketed state.waiting_for))))

abbrev pub or_none : Option Payload → Payload
or_none none = []
or_none (some payload) = payload

abbrev pub condition_context : WorkflowStep → Payload → ExecutionContext
condition_context row input = record {
  instance_id = row.instance_id;
  step_name = row.step_name;
  idempotency_key = row.idempotency_key;
  retry_count = 0;
  variables = input;
}

unfoldable pub execute_condition :
    Env → WorkflowInstance → WorkflowStep → StepDefinition → Action (RawMessage × Bool)
unfolding log
execute_condition env instance row def =
    on_either
      (env.evaluate def.condition (condition_context row (or_none (env.unmarshal row.input))))
      (λ e. do
        log env instance.id (some row.id) event_condition_check (about row.step_name key_error e)
        raise (within "evaluate condition" (message e)))
      (λ result. do
        log env instance.id (some row.id) event_condition_check
            ((key_step_name, Value.text row.step_name) ∷ (key_result, Value.flag result) ∷ [])
        pure (row.input, result))
