-- ===== src/Tests/Graph.antt =====
-- Concrete workflow definitions for the theorems on the validation.
use floxy_pro.Prelude.{
  List, String, [], false, nat_eq, none, refl, some, string_eq, ◌↔◌, ◌∷◌, ◌≡◌, ◌⊎◌,
}
use floxy_pro.Graph.{
  Steps, cycle, detect_cycles, is_virtual_step, outs, probe, probe_all,
  validate_workflow_definition,
}
use floxy_pro.Graph.Cycles.{IsAcyclic}
use floxy_pro.Graph.Cycles.Decided.{detect_cycles_lem}
use floxy_pro.Graph.Cycles.Sound.{IsCycle}
use floxy_pro.Graph.Valid.{AllWellFormed, validate_workflow_definition_iff}
use floxy_pro.Model.{JoinStrategy, RetryStrategy, StepDefinition, StepType, WorkflowDefinition}
use floxy_pro.Prelude.Maps.{lookup}

abbrev task_step : String → List String → StepDefinition
task_step name next = record {
  name = name;
  type = StepType.task;
  handler = "run";
  max_retries = 3;
  next = next;
  prev = "";
  else_branch = "";
  on_failure = "";
  condition = "";
  parallel = [];
  wait_for = [];
  join_strategy = JoinStrategy.unset;
  metadata = [];
  no_idempotent = false;
  delay = 0;
  retry_delay = 0;
  retry_strategy = RetryStrategy.fixed;
  timeout = 0;
}

abbrev looping_steps : Steps
looping_steps =
    ("pay", task_step "pay" ("ship" ∷ [])) ∷ ("ship", task_step "ship" ("pay" ∷ [])) ∷ []

abbrev order_steps : Steps
order_steps = ("pay", task_step "pay" ("ship" ∷ [])) ∷ ("ship", task_step "ship" []) ∷ []

abbrev order_definition : WorkflowDefinition
order_definition = record {
  id = "order-v1";
  name = "order";
  version = 1;
  definition = record { start = "pay"; steps = order_steps; dlq_enabled = false };
  created_at = 0;
}

looping_steps_run : (detect_cycles 3 looping_steps [] [] "pay").result ≡ some (cycle "ship" "pay")
unfolding detect_cycles is_virtual_step lookup outs probe probe_all
looping_steps_run = refl

detect_cycles_lem_example :
    (((detect_cycles 3 looping_steps [] [] "pay").result ≡ none) × IsAcyclic looping_steps "pay")
    ⊎ ((a : String) × (b : String) × ((detect_cycles 3 looping_steps [] [] "pay").result
          ≡ some (cycle a b))
        × IsCycle looping_steps "pay" a b)
detect_cycles_lem_example = detect_cycles_lem looping_steps "pay"

validate_workflow_definition_iff_example :
    (validate_workflow_definition order_definition ≡ none)
    ↔ (AllWellFormed order_steps order_steps × IsAcyclic order_steps "pay")
validate_workflow_definition_iff_example = validate_workflow_definition_iff order_definition
