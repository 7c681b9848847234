-- ===== src/Tests/Engine.antt =====
-- An engine with two handlers, a workflow of two steps, and a store that holds an instance of it.
use floxy_pro.Prelude.{
  List, String, [], false, inl, inr, nat_eq, none, refl, some, string_eq, true, ◌-◌, ◌^◌, ◌∷◌, ◌≡◌,
  ◌≢◌,
}
use floxy_pro.Engine.Calls.{calculate_retry_delay, exponential_delay}
use floxy_pro.Engine.Cancel.{abort_workflow, cancel_workflow}
use floxy_pro.Engine.Cancel.Requests.{cancel_workflow_refused}
use floxy_pro.Engine.Env.{Env, Handler, pending_step}
use floxy_pro.Engine.Monad.{Fault, failed, returned}
use floxy_pro.Engine.Start.{start_workflow, validate_definition}
use floxy_pro.Engine.Start.Started.{start_workflow_lem}
use floxy_pro.Engine.Steps.{enqueue_next_steps}
use floxy_pro.Engine.Steps.Enqueued.{IsEnqueued, enqueue_next_steps-IsEnqueued}
use floxy_pro.Engine.Walks.{is_unset, out_of_rounds, rounds, visit_ancestor, walk}
use floxy_pro.Engine.Walks.Rounds.{walk-rounds}
use floxy_pro.Graph.{
  detect_cycles, is_virtual_step, outs, probe, probe_all, validate_step, validate_step_name,
  validate_steps, validate_workflow_definition,
}
use floxy_pro.Model.{
  JoinStrategy, QueueItem, RetryStrategy, StepDefinition, StepType, WorkflowDefinition,
  WorkflowInstance, WorkflowStatus, WorkflowStep, priority_normal,
}
use floxy_pro.Prelude.Machine.{float64_of, negsuc, unit_of}
use floxy_pro.Prelude.Maps.{adjust, insert, lookup}
use floxy_pro.Store.Definitions.{save_workflow_definition}
use floxy_pro.Store.Defs.{MemoryStore, new_memory_store}
use floxy_pro.Store.Instances.{create_instance, update_instance_status, with_status}
use floxy_pro.Store.Operations.{Operation, perform, perform_all}
use floxy_pro.Store.Queue.{enqueue_step}
use floxy_pro.Store.Steps.{create_step, registered}

abbrev pub handler_ok : Handler
handler_ok context input = inr "done"

abbrev pub handler_bad : Handler
handler_bad context input = inl "boom"

abbrev pub plain_env : Env
plain_env = record {
  now = 100;
  fresh = λ id. "key";
  marshal = λ payload. some "{}";
  unmarshal = λ raw. some [];
  marshal_error = "";
  graph_text = λ e. "";
  show = λ n. "n";
  out_of_range = λ base attempt. negsuc (2 ^ 63 - 1);
  evaluate = λ condition context. inr true;
  handlers = ("work", handler_ok) ∷ ("bad", handler_bad) ∷ [];
  plugins = none;
  meanwhile = [];
  cancelled = false;
  cooldown = 0;
  log_skip = false;
  shutdown = λ i. false;
}

abbrev pub step_named : String → String → String → List String → StepDefinition
step_named name handler prev next = record {
  name = name;
  type = StepType.task;
  handler = handler;
  max_retries = 0;
  next = next;
  prev = prev;
  else_branch = "";
  on_failure = "";
  condition = "";
  parallel = [];
  wait_for = [];
  join_strategy = JoinStrategy.unset;
  metadata = [];
  no_idempotent = false;
  delay = 0;
  retry_delay = 0;
  retry_strategy = RetryStrategy.fixed;
  timeout = 0;
}

abbrev pub two_steps : String → WorkflowDefinition
two_steps second = record {
  id = "flow";
  name = "flow";
  version = 1;
  definition = record {
    steps =
        ("a", step_named "a" "work" "_root_" ("b" ∷ [])) ∷ ("b", step_named "b" second "a" []) ∷ [];
    start = "a";
    dlq_enabled = false;
  };
  created_at = 0;
}

abbrev pub opened : List Operation
opened =
    Operation.save_definition "flow" 0 (two_steps "work")
    ∷ Operation.new_instance "flow" "{}" 0
    ∷ Operation.set_instance 1 WorkflowStatus.running "" none 0 0
    ∷ Operation.new_step "key" 0 (pending_step 1 "a" StepType.task "{}" 0)
    ∷ Operation.enqueue 1 (some 1) priority_normal 0 0
    ∷ []

abbrev pub open_store : MemoryStore
open_store = perform_all opened new_memory_store

abbrev pub open_instance : WorkflowInstance
open_instance = record {
  id = 1;
  workflow_id = "flow";
  status = WorkflowStatus.running;
  input = "{}";
  output = "";
  error = none;
  started_at = some 0;
  completed_at = none;
  created_at = 0;
  updated_at = 0;
}

abbrev pub open_row : WorkflowStep
open_row = record (pending_step 1 "a" StepType.task "{}" 0) { id = 1; idempotency_key = "key" }

abbrev pub open_item : QueueItem
open_item = record {
  id = 1;
  instance_id = 1;
  step_id = some 1;
  scheduled_at = 0;
  attempted_at = some 100;
  attempted_by = some "w";
  priority = priority_normal;
}

enqueue_next_steps-IsEnqueued_example :
    (t : MemoryStore) × (enqueue_next_steps plain_env 1 ("b" ∷ []) "{}" open_store ≡ returned tt t)
    × IsEnqueued plain_env 1 "b" (step_named "b" "work" "a" []) "{}" open_store t
    × (t.instances ≡ open_store.instances)
unfolding perform_all perform new_memory_store lookup insert adjust create_instance
    update_instance_status save_workflow_definition create_step enqueue_step with_status registered
enqueue_next_steps-IsEnqueued_example =
    enqueue_next_steps-IsEnqueued plain_env 1 "b" (step_named "b" "work" "a" []) "{}" open_store
      open_instance (two_steps "work") refl refl refl refl

abbrev two_definitions : MemoryStore
two_definitions = record new_memory_store { definitions = ("flow", two_steps "work") ∷ [] }

start_workflow_lem_example :
    (t : MemoryStore) × (start_workflow plain_env "flow" "{}" two_definitions
      ≡ returned two_definitions.next_instance_id t)
    × ((i : WorkflowInstance) × (lookup two_definitions.next_instance_id t.instances ≡ some i)
        × (i.status ≡ WorkflowStatus.running)
        × (i.workflow_id ≡ "flow")
        × (i.input ≡ "{}"))
    × ((start_def : StepDefinition) × (lookup "a" (two_steps "work").definition.steps
          ≡ some start_def)
        × IsEnqueued plain_env two_definitions.next_instance_id "a" start_def "{}" two_definitions
            t)
unfolding new_memory_store lookup validate_definition validate_workflow_definition validate_steps
    validate_step validate_step_name is_virtual_step detect_cycles outs probe probe_all
start_workflow_lem_example =
    start_workflow_lem plain_env "flow" "{}" two_definitions (two_steps "work") refl refl refl

walk-rounds_example :
    walk
      (rounds (two_steps "work").definition.steps)
      (two_steps "work").definition.steps
      is_unset
      (visit_ancestor "a")
      []
      "b"
    ≢ out_of_rounds
walk-rounds_example =
    walk-rounds (two_steps "work").definition.steps is_unset (visit_ancestor "a") "b"

-- With a base of one second, the attempt 34 is out of the range of time.Duration.
overflowing_delay :
    calculate_retry_delay plain_env RetryStrategy.exponential 1000000000 34 ≡ negsuc (2 ^ 63 - 1)
unfolding calculate_retry_delay exponential_delay float64_of unit_of
overflowing_delay = refl

cancel_workflow_refused_example :
    (e : Fault) × (cancel_workflow plain_env 7 "me" "late" open_store ≡ failed e open_store)
    × (abort_workflow plain_env 7 "me" "late" open_store ≡ failed e open_store)
unfolding perform_all perform new_memory_store lookup insert adjust create_instance
    update_instance_status save_workflow_definition create_step enqueue_step with_status registered
cancel_workflow_refused_example =
    cancel_workflow_refused plain_env 7 "me" "late" open_store (inl refl)
