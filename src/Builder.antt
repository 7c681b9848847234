-- ===== src/Builder.antt =====
-- builder.go and builder_opts.go: NewBuilder, Step, Then, OnFailure, Parallel, JoinStep, SavePoint,
-- WaitHumanConfirm, NewTask and Build, with the options. Fork, Join and Condition, which call functions
-- of the caller on builders of their own, are not modelled, and with them the field subBuilders.
pub mod Calls
pub mod Links
pub mod Sound
pub mod Reachable
pub mod Parallel
pub mod Ready
use floxy_pro.Prelude.{
  Bool, List, Option, String, [], false, if◌then◌else◌, nat_eq, none, some, string_eq, true, ℕ,
  ◌++◌, ◌==◌, ◌||◌, ◌∷◌,
}
use floxy_pro.Graph.{GraphError, has, root_step_name}
use floxy_pro.Model.{Duration, JoinStrategy, RetryStrategy, StepDefinition, StepType}
use floxy_pro.Prelude.Maps.{Map, adjust, insert}
use floxy_pro.Store.Joins.{or_all}

-- The errors, each with the values that its text holds.
pub data BuilderError : Type 0 where
  step_exists : String → BuilderError
  no_step_to_guard : String → BuilderError
  parallel_exists : String → BuilderError
  task_without_name : ℕ → String → BuilderError
  task_without_handler : ℕ → String → BuilderError
  task_exists : String → String → BuilderError
  no_step_to_join : String → BuilderError
  join_without_name : BuilderError
  save_point_without_name : BuilderError
  save_point_in_subflow : String → BuilderError
  confirm_without_name : BuilderError
  workflow_without_name : BuilderError
  no_steps : String → BuilderError
  invalid : GraphError → BuilderError

pub record Builder : Type 0 where
  pub name : String
  pub version : ℕ
  pub steps : Map String StepDefinition
  pub start_step : String
  pub current_step : String
  pub nesting_level : ℕ
  pub default_max_retries : ℕ
  pub dlq_enabled : Bool
  pub error : Option BuilderError

abbrev pub default_retries : ℕ
default_retries = 3

-- The options of the package, in the order of builder_opts.go.
pub data StepOption : Type 0 where
  with_step_max_retries : ℕ → StepOption
  with_step_metadata : Map String String → StepOption
  with_step_no_idempotent : StepOption
  with_step_delay : Duration → StepOption
  with_step_retry_delay : Duration → StepOption
  with_step_timeout : Duration → StepOption
  with_step_retry_strategy : RetryStrategy → StepOption

unfoldable pub apply_option : StepOption → StepDefinition → StepDefinition
apply_option (with_step_max_retries retries) step =
    if step.no_idempotent then step else record step { max_retries = retries }
apply_option (with_step_metadata metadata) step = record step { metadata = metadata }
apply_option with_step_no_idempotent step = record step { no_idempotent = true; max_retries = 1 }
apply_option (with_step_delay delay) step = record step { delay = delay }
apply_option (with_step_retry_delay delay) step = record step { retry_delay = delay }
apply_option (with_step_timeout timeout) step = record step { timeout = timeout }
apply_option (with_step_retry_strategy strategy) step = record step { retry_strategy = strategy }

unfoldable pub apply_options : List StepOption → StepDefinition → StepDefinition
apply_options [] step = step
apply_options (option ∷ options) step = apply_options options (apply_option option step)

pub data BuilderOption : Type 0 where
  with_builder_max_retries : ℕ → BuilderOption
  with_dlq_enabled : Bool → BuilderOption

unfoldable pub apply_builder_option : BuilderOption → Builder → Builder
apply_builder_option (with_builder_max_retries retries) b = record b {
  default_max_retries = retries;
}
apply_builder_option (with_dlq_enabled enabled) b = record b { dlq_enabled = enabled }

unfoldable pub apply_builder_options : List BuilderOption → Builder → Builder
unfolding apply_builder_option
apply_builder_options [] b = b
apply_builder_options (option ∷ options) b =
    apply_builder_options options (apply_builder_option option b)

unfoldable pub new_builder : String → ℕ → List BuilderOption → Builder
unfolding apply_builder_options
new_builder name version options = apply_builder_options options (record {
  name = name;
  version = version;
  steps = [];
  start_step = "";
  current_step = "";
  nesting_level = 1;
  default_max_retries = default_retries;
  dlq_enabled = false;
  error = none;
})

-- A struct literal with a name, a type and a predecessor, and the zero values of the other fields.
abbrev pub plain_step : String → StepType → String → StepDefinition
plain_step name type prev = record {
  name = name;
  type = type;
  handler = "";
  max_retries = 0;
  next = [];
  prev = prev;
  else_branch = "";
  on_failure = "";
  condition = "";
  parallel = [];
  wait_for = [];
  join_strategy = JoinStrategy.unset;
  metadata = [];
  no_idempotent = false;
  delay = 0;
  retry_delay = 0;
  retry_strategy = RetryStrategy.fixed;
  timeout = 0;
}

abbrev pub task_step : String → String → ℕ → String → StepDefinition
task_step name handler retries prev = record (plain_step name StepType.task prev) {
  handler = handler;
  max_retries = retries;
}

unfoldable pub new_task : String → String → List StepOption → StepDefinition
unfolding apply_options
new_task name handler options = apply_options options (task_step name handler default_retries "")

-- `if builder.err != nil { return builder }`
abbrev pub unless_set : Option BuilderError → Builder → Builder → Builder
unless_set none b after = after
unless_set (some _) b after = b

abbrev pub unless_failed : Builder → Builder → Builder
unless_failed b after = unless_set b.error b after

abbrev pub fail : BuilderError → Builder → Builder
fail e b = record b { error = some e }

abbrev pub link_to : String → StepDefinition → StepDefinition
link_to name step = record step { next = step.next ++ name ∷ [] }

-- The name is appended to the links of the current step, unless there is none or it is the step itself.
unfoldable pub link_current : String → Builder → Builder
link_current name b =
    if b.current_step == "" || b.current_step == name
    then b
    else record b { steps = adjust b.current_step (link_to name) b.steps }

-- The tail of most operations: the step is stored, linked, and made the current one.
unfoldable pub append_step : String → StepDefinition → Builder → Builder
unfolding link_current
append_step name step b =
    record (link_current name (record b { steps = insert name step b.steps })) {
      current_step = name;
    }

-- The first step of a flow is its start, and the root its predecessor.
abbrev pub mark_start : String → StepDefinition → Builder → Builder
mark_start name step b =
    if b.start_step == ""
    then record b {
      start_step = name;
      steps = insert name (record step { prev = root_step_name }) b.steps;
    }
    else record b { steps = insert name step b.steps }

unfoldable pub step : String → String → List StepOption → Builder → Builder
unfolding apply_options link_current
step name handler options b = unless_failed b (
    if has b.steps name
    then fail (step_exists name) b
    else let built =
        apply_options options (task_step name handler b.default_max_retries b.current_step) in
      record (link_current name (mark_start name built b)) { current_step = name })

unfoldable pub on_failure : String → String → List StepOption → Builder → Builder
unfolding apply_options
on_failure name handler options b = unless_failed b (
    if b.current_step == ""
    then fail (no_step_to_guard name) b
    else let compensation =
        apply_options options (task_step name handler b.default_max_retries "") in
      record b {
        steps =
            adjust b.current_step (λ step. record step { on_failure = name })
              (insert name compensation b.steps);
      })

unfoldable pub join_step : String → List String → JoinStrategy → Builder → Builder
unfolding append_step
join_step name wait_for strategy b = unless_failed b (
    if b.current_step == ""
    then fail (no_step_to_join name) b
    else if name == ""
    then fail join_without_name b
    else append_step name
        (record (plain_step name StepType.join b.current_step) {
          wait_for = wait_for;
          join_strategy = or_all strategy;
        })
        b)
