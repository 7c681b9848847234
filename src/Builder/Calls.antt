-- ===== src/Builder/Calls.antt =====
-- builder.go: Parallel, SavePoint, WaitHumanConfirm and Build, and sequences of calls.
use Prim.Native.String.{◌++◌ as str_append}
use floxy_pro.Prelude.{
  List, Option, String, [], if◌then◌else◌, inl, inr, ltb, nat_eq, none, some, string_eq, suc, ℕ,
  ◌++◌, ◌==◌, ◌∷◌, ◌⊎◌,
}
use floxy_pro.Builder.{
  Builder, BuilderError, StepOption, append_step, apply_options, confirm_without_name, fail,
  invalid, join_step, link_current, link_to, no_steps, on_failure, parallel_exists, plain_step,
  save_point_in_subflow, save_point_without_name, step, task_exists, task_without_handler,
  task_without_name, unless_failed, workflow_without_name,
}
use floxy_pro.Graph.{Check, has, validate_workflow_definition}
use floxy_pro.Model.{Duration, JoinStrategy, StepDefinition, StepType, WorkflowDefinition}
use floxy_pro.Prelude.Maps.{adjust, insert, lookup}

abbrev pub add_task : String → StepDefinition → StepDefinition
add_task task step = record step { parallel = step.parallel ++ task ∷ [] }

-- The loop over the tasks, from the index on.
unfoldable pub add_tasks : ℕ → String → List StepDefinition → Builder → Builder
add_tasks i name [] b = b
add_tasks i name (task ∷ tasks) b =
    let added = record b {
      steps =
          adjust name (add_task task.name) (insert task.name (record task { prev = name }) b.steps);
    } in
    let rest = add_tasks (suc i) name tasks added in
    if task.name == ""
    then fail (task_without_name i name) b
    else if task.handler == ""
    then fail (task_without_handler i name) b
    else if has b.steps task.name
    then fail (task_exists task.name name) b
    else rest

abbrev pub parallel_of : Option StepDefinition → List String
parallel_of none = []
parallel_of (some step) = step.parallel

-- The join step that ends a parallel step.
unfoldable pub close_parallel : String → Builder → Builder
unfolding join_step
close_parallel name b = unless_failed b (
    let join_name = str_append name "_join" in
    let waits = parallel_of (lookup name b.steps) in
    join_step join_name waits JoinStrategy.all
      (record b { steps = adjust name (link_to join_name) b.steps }))

unfoldable pub parallel : String → List StepDefinition → Builder → Builder
unfolding link_current add_tasks close_parallel
parallel name tasks b = unless_failed b (
    if has b.steps name
    then fail (parallel_exists name) b
    else let stored = insert name (plain_step name StepType.parallel b.current_step) b.steps in
      close_parallel name
        (add_tasks 0 name tasks (link_current name (record b { steps = stored }))))

unfoldable pub save_point : String → Builder → Builder
unfolding append_step
save_point name b = unless_failed b (
    if name == ""
    then fail save_point_without_name b
    else if ltb 1 b.nesting_level
    then fail (save_point_in_subflow name) b
    else append_step name (plain_step name StepType.save_point b.current_step) b)

abbrev pub minute : Duration
minute = 60000000000

unfoldable pub wait_human_confirm : String → List StepOption → Builder → Builder
unfolding apply_options append_step
wait_human_confirm name options b = unless_failed b (
    if name == ""
    then fail confirm_without_name b
    else append_step name
        (apply_options options (record (plain_step name StepType.human b.current_step) {
          max_retries = b.default_max_retries;
          delay = minute;
        }))
        b)

abbrev pub Built : Type 0
Built = BuilderError ⊎ WorkflowDefinition

abbrev pub if_valid : Check → WorkflowDefinition → Built
if_valid none def = inr def
if_valid (some e) def = inl (invalid e)

abbrev pub unless_error : Option BuilderError → Built → Built
unless_error none built = built
unless_error (some e) built = inl e

-- `id` is what `fmt.Sprintf("%s-v%d", builder.name, builder.version)` returns.
abbrev pub definition_of : String → Builder → WorkflowDefinition
definition_of id b = record {
  id = id;
  name = b.name;
  version = b.version;
  definition = record { steps = b.steps; start = b.start_step; dlq_enabled = b.dlq_enabled };
  created_at = 0;
}

unfoldable pub build : String → Builder → Built
build id b = unless_error b.error (
    if b.name == ""
    then inl workflow_without_name
    else if b.start_step == ""
    then inl (no_steps b.name)
    else if_valid (validate_workflow_definition (definition_of id b)) (definition_of id b))

-- A call of the builder's interface. Then is Step under another name.
pub data Call : Type 0 where
  call_step : String → String → List StepOption → Call
  call_on_failure : String → String → List StepOption → Call
  call_parallel : String → List StepDefinition → Call
  call_join_step : String → List String → JoinStrategy → Call
  call_save_point : String → Call
  call_confirm : String → List StepOption → Call

unfoldable pub call : Call → Builder → Builder
call (call_step name handler options) b = step name handler options b
call (call_on_failure name handler options) b = on_failure name handler options b
call (call_parallel name tasks) b = parallel name tasks b
call (call_join_step name wait_for strategy) b = join_step name wait_for strategy b
call (call_save_point name) b = save_point name b
call (call_confirm name options) b = wait_human_confirm name options b

unfoldable pub call_all : List Call → Builder → Builder
unfolding call
call_all [] b = b
call_all (c ∷ calls) b = call_all calls (call c b)
