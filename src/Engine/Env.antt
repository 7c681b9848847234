-- ===== src/Engine/Env.antt =====
-- What an engine is given: the handlers, plugins and packages that it calls, and the readings of the
-- clock. engine.go (the fields), execution_context.go, step_handler.go and plugins.go.
pub mod Logged
use Prim.Native.String.{◌++◌ as str_append}
use floxy_pro.Prelude.{
  Bool, List, Option, String, [], ltb, nat_eq, none, some, string_eq, ℕ, ◌++◌, ◌∷◌, ◌⊎◌,
}
use floxy_pro.Engine.Monad.{
  Action, Fault, done, ignore, invalid, message, on_option, out_of_fuel, raise, store_error, within,
}
use floxy_pro.Graph.{GraphError}
use floxy_pro.Model.{
  CancelType, Duration, HumanDecision, JoinStrategy, Priority, RawMessage, StepStatus, StepType,
  Time, WorkflowInstance, WorkflowStep,
}
use floxy_pro.Prelude.Machine.{ℤ}
use floxy_pro.Prelude.Maps.{Map}
use floxy_pro.Prelude.Sorting.{sort_by}
use floxy_pro.Store.Defs.{Op, entity_not_found, marshal_failed}
use floxy_pro.Store.Events.{log_event}
use floxy_pro.Store.Operations.{Operation}
use floxy_pro.Store.Steps.{create_step}

-- A value of a payload; `json` is any other value of decoded JSON, by its text.
pub data Value : Type 0 where
  text : String → Value
  number : ℕ → Value
  flag : Bool → Value
  names : List String → Value
  raws : Map String RawMessage → Value
  strategy : JoinStrategy → Value
  step_type : StepType → Value
  decision : HumanDecision → Value
  cancel_type : CancelType → Value
  time : Time → Value
  json : String → Value

abbrev pub Payload : Type 0
Payload = Map String Value

pub record ExecutionContext : Type 0 where
  pub instance_id : ℕ
  pub step_name : String
  pub idempotency_key : String
  pub retry_count : ℕ
  pub variables : Payload

-- `Execute` of a handler of the caller: an error text, or the output.
abbrev pub Handler : Type 0
Handler = ExecutionContext → RawMessage → String ⊎ RawMessage

-- The hooks whose error the engine returns. The others can only write to the log.
pub record Plugin : Type 0 where
  pub name : String
  pub priority : Priority
  pub on_workflow_start : WorkflowInstance → Option String
  pub on_step_start : WorkflowInstance → WorkflowStep → Option String

pub record Env : Type 0 where
  -- the readings of the clock during one call of an engine method
  pub now : Time
  -- `uuid.NewString()`, for the step of this identifier
  pub fresh : ℕ → String
  -- `json.Marshal` and `json.Unmarshal` of a payload, and the text of a marshalling error
  pub marshal : Payload → Option RawMessage
  pub unmarshal : RawMessage → Option Payload
  pub marshal_error : String
  -- the text of an error of ValidateWorkflowDefinition
  pub graph_text : GraphError → String
  -- a number in decimal
  pub show : ℕ → String
  -- what `time.Duration(f)` is for the delay of this base and attempt when `f` is out of range
  pub out_of_range : Duration → ℕ → ℤ
  -- `evaluateCondition`: an error text, or the value of the condition
  pub evaluate : String → ExecutionContext → String ⊎ Bool
  pub handlers : Map String Handler
  pub plugins : Option (List Plugin)
  -- what other goroutines do to the store while a handler runs, and whether they cancel its context
  pub meanwhile : List Operation
  pub cancelled : Bool
  -- the delay that `jitteredCooldown` draws, and what `shouldLogSkip` says
  pub cooldown : Duration
  pub log_skip : Bool
  -- what `isShutdown` says at its first, second and third reading in a call
  pub shutdown : ℕ → Bool

-- The text of an error.
unfoldable pub fault_text : Env → Fault → String
fault_text env (store_error entity_not_found) = "entity not found"
fault_text env (store_error marshal_failed) = env.marshal_error
fault_text env (message m) = m
fault_text env (within context e) = str_append context (str_append ": " (fault_text env e))
fault_text env (invalid e) = env.graph_text e
fault_text env out_of_fuel = ""

-- PluginManager.Register: `append`, then a sort by priority.
abbrev pub runs_before : Plugin → Plugin → Bool
runs_before a b = ltb a.priority b.priority

unfoldable pub register : Plugin → List Plugin → List Plugin
register plugin plugins = sort_by runs_before (plugins ++ plugin ∷ [])

-- The loop of ExecuteWorkflowStart and ExecuteStepStart: the first error ends it.
unfoldable pub first_failure : (Plugin → Option String) → List Plugin → Option Fault
first_failure hook [] = none
first_failure hook (plugin ∷ plugins) = elim (hook plugin) [
  | some e ↦ some (within (str_append "plugin " (str_append plugin.name " failed")) (message e))
  | none ↦ first_failure hook plugins
]

-- `if engine.pluginManager != nil { if err := …; err != nil { return … } }`
unfoldable pub run_hooks : String → (Plugin → Option String) → Option (List Plugin) → Action Unit
unfolding first_failure
run_hooks context hook none = done
run_hooks context hook (some plugins) =
    on_option (first_failure hook plugins) done (λ e. raise (within context e))

-- `_ = engine.store.LogEvent(…)`
unfoldable pub log : Env → ℕ → Option ℕ → String → Payload → Action Unit
log env instance_id step_id event_type payload =
    ignore (log_event instance_id step_id event_type (env.marshal payload) env.now)

-- A step that the engine creates, with its identifier once it is in the store.
unfoldable pub create_step_row : Env → WorkflowStep → Op WorkflowStep
create_step_row env row s = create_step (env.fresh s.next_step_id) env.now row s

-- A `WorkflowStep` literal with the fields that the engine sets, and zero values otherwise.
abbrev pub pending_step : ℕ → String → StepType → RawMessage → ℕ → WorkflowStep
pending_step instance_id name type input retries = record {
  id = 0;
  instance_id = instance_id;
  step_name = name;
  step_type = type;
  status = StepStatus.pending;
  input = input;
  output = "";
  error = none;
  retry_count = 0;
  max_retries = retries;
  compensation_retry_count = 0;
  idempotency_key = "";
  started_at = none;
  completed_at = none;
  created_at = 0;
}
