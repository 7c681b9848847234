-- ===== src/Engine/Calls.antt =====
-- The calls of the store as the engine makes them, with the reading of its clock.
pub mod Delays
use Prim.Native.String.{◌++◌ as str_append}
use floxy_pro.Prelude.{
  Option, String, [], if◌then◌else◌, ltb, nat_eq, some, string_eq, suc, ℕ, ◌&&◌, ◌*◌, ◌+◌, ◌-◌, ◌^◌,
  ◌∷◌,
}
use floxy_pro.Engine.Env.{Env, Payload, Value, create_step_row}
use floxy_pro.Engine.Monad.{Action, attempt, call, message, or_raise}
use floxy_pro.Engine.Names.{key_step_name}
use floxy_pro.Graph.{Steps}
use floxy_pro.Model.{
  Duration, Priority, RawMessage, RetryStrategy, StepDefinition, StepStatus, Time,
  WorkflowDefinition, WorkflowInstance, WorkflowStatus, WorkflowStep,
}
use floxy_pro.Prelude.Machine.{float64_of, is_zero, negsuc, pos, wrap64, ℤ}
use floxy_pro.Prelude.Maps.{lookup}
use floxy_pro.Store.Definitions.{get_workflow_definition}
use floxy_pro.Store.Instances.{update_instance_status}
use floxy_pro.Store.Queue.{enqueue_step}
use floxy_pro.Store.Steps.{update_step}

abbrev pub say : String → String → Payload
say key words = (key, Value.text words) ∷ []

-- `map[string]any{KeyStepName: name, key: words}`
abbrev pub about : String → String → String → Payload
about name key words = (key_step_name, Value.text name) ∷ (key, Value.text words) ∷ []

unfoldable pub definition_for : WorkflowInstance → Action WorkflowDefinition
definition_for instance =
    call "get workflow definition" (get_workflow_definition instance.workflow_id)

unfoldable pub mark_step : Env → String → ℕ → StepStatus → RawMessage → Option String → Action Unit
mark_step env context id status output error =
    call context (update_step id status output error env.now)

unfoldable pub mark_instance :
    Env → String → ℕ → WorkflowStatus → RawMessage → Option String → Action Unit
mark_instance env context id status output error =
    call context (update_instance_status id status output error env.now env.now)

unfoldable pub schedule : Env → String → ℕ → ℕ → Priority → Duration → Action Unit
schedule env context instance_id step_id priority delay =
    call context (enqueue_step instance_id (some step_id) priority delay env.now)

unfoldable pub add_step : Env → String → WorkflowStep → Action WorkflowStep
unfolding create_step_row
add_step env context row = call context (create_step_row env row)

-- `def.Definition.Steps[name]`, with the error where it is missing.
unfoldable pub known_step : String → String → Steps → Action StepDefinition
known_step words name steps = or_raise (lookup name steps) (message (str_append words name))

-- The conversion of a float64 to time.Duration, where its value is an int64; elsewhere Go leaves the
-- result open. Beyond 2 to the power of 1023, `math.Pow` is infinite.
unfoldable pub exponential_delay : Env → Duration → ℕ → ℤ
unfolding float64_of
exponential_delay env base attempt =
    let value = float64_of base * 2 ^ attempt in
    if ltb attempt 1024 && ltb value (2 ^ 63) then pos value else env.out_of_range base attempt

-- CalculateRetryDelay.
unfoldable pub calculate_retry_delay : Env → RetryStrategy → Duration → ℕ → ℤ
unfolding exponential_delay
calculate_retry_delay env RetryStrategy.exponential base attempt =
    exponential_delay env base attempt
calculate_retry_delay env RetryStrategy.linear base attempt = wrap64 (base * attempt)
calculate_retry_delay env RetryStrategy.fixed base attempt = pos base

-- `if retryDelay == 0 { retryDelay = onFailureStep.Delay }`
unfoldable pub compensation_delay : Env → StepDefinition → ℕ → ℤ
unfolding calculate_retry_delay
compensation_delay env def attempt =
    let delay = calculate_retry_delay env def.retry_strategy def.retry_delay attempt in
    if is_zero delay then pos def.delay else delay

-- `now.Add(delay)`; times count from the year 1, so that no int64 leads before it.
abbrev pub add_delay : Time → ℤ → Time
add_delay now (pos delay) = now + delay
add_delay now (negsuc delay) = now - suc delay

-- EnqueueStep with a delay that may be negative.
unfoldable pub schedule_after : Env → String → ℕ → ℕ → Priority → ℤ → Action Unit
schedule_after env context instance_id step_id priority delay =
    call context (enqueue_step instance_id (some step_id) priority 0 (add_delay env.now delay))
