-- ===== src/Store/Stats.antt =====
-- memory_store.go: GetSummaryStats and GetActiveInstances.
pub mod Counts
use floxy_pro.Prelude.{
  Bool, List, Option, String, [], false, filter, length, ltb, map, nat_eq, none, some, string_eq,
  suc, true, ℕ, ◌∷◌,
}
use floxy_pro.Model.{
  ActiveWorkflowInstance, StepStatus, SummaryStats, WorkflowDefinition, WorkflowInstance,
  WorkflowStatus, WorkflowStep,
}
use floxy_pro.Prelude.Maps.{Map, lookup, values}
use floxy_pro.Prelude.Sorting.{sort_by}
use floxy_pro.Store.Defs.{MemoryStore, Op, ok, or_nil}
use floxy_pro.Store.Steps.{present}

abbrev pub no_summary : SummaryStats
no_summary = record {
  total_workflows = 0;
  completed_workflows = 0;
  failed_workflows = 0;
  running_workflows = 0;
  pending_workflows = 0;
  active_workflows = 0;
}

-- The counters that an instance of this status raises, the total left aside.
abbrev pub count_status : WorkflowStatus → SummaryStats → SummaryStats
count_status WorkflowStatus.completed n = record n {
  completed_workflows = suc n.completed_workflows;
}
count_status WorkflowStatus.failed n = record n { failed_workflows = suc n.failed_workflows }
count_status WorkflowStatus.running n = record n {
  running_workflows = suc n.running_workflows;
  active_workflows = suc n.active_workflows;
}
count_status WorkflowStatus.pending n = record n {
  pending_workflows = suc n.pending_workflows;
  active_workflows = suc n.active_workflows;
}
count_status _ n = n

unfoldable pub summarize : Map ℕ WorkflowInstance → SummaryStats → SummaryStats
summarize [] n = n
summarize ((id, i) ∷ rest) n =
    summarize rest (count_status i.status (record n { total_workflows = suc n.total_workflows }))

unfoldable pub get_summary_stats : Op SummaryStats
unfolding summarize
get_summary_stats s = (ok (summarize s.instances no_summary), s)

abbrev pub is_open : WorkflowStatus → Bool
is_open WorkflowStatus.running = true
is_open WorkflowStatus.pending = true
is_open WorkflowStatus.dlq = true
is_open _ = false

abbrev pub name_of : Option WorkflowDefinition → String
name_of none = ""
name_of (some def) = def.name

abbrev pub count_step : StepStatus → String → ActiveWorkflowInstance → ActiveWorkflowInstance
count_step StepStatus.running name a = record a { current_step = name }
count_step StepStatus.completed name a = record a { completed_steps = suc a.completed_steps }
count_step StepStatus.rolled_back name a = record a { rolled_back_steps = suc a.rolled_back_steps }
count_step _ name a = a

unfoldable pub count_steps : List WorkflowStep → ActiveWorkflowInstance → ActiveWorkflowInstance
count_steps [] a = a
count_steps (step ∷ rest) a = count_steps rest (count_step step.status step.step_name a)

unfoldable pub active_instance : MemoryStore → WorkflowInstance → ActiveWorkflowInstance
unfolding count_steps
active_instance s i =
    let listed = or_nil (lookup i.id s.steps_by_instance) in
    count_steps (present s.steps listed) (record {
      id = i.id;
      workflow_id = i.workflow_id;
      workflow_name = name_of (lookup i.workflow_id s.definitions);
      status = i.status;
      started_at = i.created_at;
      updated_at = i.updated_at;
      current_step = "";
      total_steps = length listed;
      completed_steps = 0;
      rolled_back_steps = 0;
    })

abbrev pub started_after : ActiveWorkflowInstance → ActiveWorkflowInstance → Bool
started_after a b = ltb b.started_at a.started_at

unfoldable pub get_active_instances : Op (List ActiveWorkflowInstance)
unfolding active_instance
get_active_instances s = (
  ok (
      sort_by started_after
        (map (active_instance s) (filter (λ i. is_open i.status) (values s.instances)))),
  s,
)
