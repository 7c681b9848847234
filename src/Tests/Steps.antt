-- ===== src/Tests/Steps.antt =====
-- Two steps of one instance and one of another.
use floxy_pro.Prelude.{List, String, [], nat_eq, none, some, string_eq, ℕ, ◌↔◌, ◌∷◌, ◌≡◌, ◌≢◌, ◌⊎◌}
use floxy_pro.Model.{DeadLetterRecord, QueueItem, StepStatus, StepType, WorkflowStats, WorkflowStep}
use floxy_pro.Prelude.Maps.{lookup, values}
use floxy_pro.Prelude.Sorting.{Among, SortedBy}
use floxy_pro.Store.DeadLetters.{requeue_dead_letter}
use floxy_pro.Store.DeadLetters.Requeue.{Requeues, requeue_dead_letter_lem}
use floxy_pro.Store.Defs.{MemoryStore, entity_not_found, err, new_memory_store, ok}
use floxy_pro.Store.Operations.{Operation, perform, perform_all}
use floxy_pro.Store.Reports.{get_workflow_stats}
use floxy_pro.Store.Reports.Totals.{defined_instances, get_workflow_stats_lem, sum_totals}
use floxy_pro.Store.Stats.{get_summary_stats}
use floxy_pro.Store.Stats.Counts.{counted, get_summary_stats_lem}
use floxy_pro.Store.Steps.{get_steps_by_instance, pause_active_steps_and_clear_queue}
use floxy_pro.Store.Steps.Freeze.{freeze_lem}
use floxy_pro.Store.Steps.Listing.{get_steps_by_instance_lem}
use floxy_pro.Store.Valid.Sequences.{reachable-IsValid}

abbrev step_row : ℕ → String → WorkflowStep
step_row instance name = record {
  id = 0;
  instance_id = instance;
  step_name = name;
  step_type = StepType.task;
  status = StepStatus.pending;
  input = "";
  output = "";
  error = none;
  retry_count = 0;
  max_retries = 3;
  compensation_retry_count = 0;
  idempotency_key = "";
  started_at = none;
  completed_at = none;
  created_at = 0;
}

abbrev step_operations : List Operation
step_operations =
    Operation.new_step "k1" 30 (step_row 7 "pay")
    ∷ Operation.new_step "k2" 20 (step_row 7 "ship")
    ∷ Operation.new_step "k3" 10 (step_row 8 "pay")
    ∷ []

abbrev with_steps : MemoryStore
with_steps = perform_all step_operations new_memory_store

get_steps_by_instance_lem_example :
    (l : List WorkflowStep) × ((get_steps_by_instance 7 with_steps).0 ≡ ok l)
    × SortedBy (λ step. step.created_at) l
    × ((step : WorkflowStep)
        → Among step l ↔ ((lookup step.id with_steps.steps ≡ some step) × (step.instance_id ≡ 7)))
get_steps_by_instance_lem_example =
    get_steps_by_instance_lem 7 with_steps (reachable-IsValid step_operations)

freeze_lem_example :
    let (result, after) = pause_active_steps_and_clear_queue 7 with_steps in
    (result ≡ ok tt)
    × ((k : ℕ) (step : WorkflowStep)
        → lookup k after.steps ≡ some step
        → step.instance_id ≡ 7
        → step.status ≢ StepStatus.running)
    × ((k : ℕ) (item : QueueItem) → lookup k after.queue ≡ some item → item.instance_id ≢ 7)
    × ((k : ℕ) (step : WorkflowStep)
        → lookup k with_steps.steps ≡ some step
        → step.instance_id ≢ 7
        → lookup k after.steps ≡ some step)
    × ((k : ℕ) (item : QueueItem)
        → lookup k with_steps.queue ≡ some item
        → item.instance_id ≢ 7
        → lookup k after.queue ≡ some item)
freeze_lem_example = freeze_lem 7 with_steps (reachable-IsValid step_operations)

abbrev letter : DeadLetterRecord
letter = record {
  id = 0;
  instance_id = 7;
  workflow_id = "order-v1";
  step_id = 2;
  step_name = "ship";
  step_type = "task";
  input = "";
  error = some "no carrier";
  reason = "dlq enabled: rollback/compensation skipped";
  created_at = 0;
}

abbrev with_letter : MemoryStore
with_letter = perform (Operation.bury letter 50) with_steps

requeue_dead_letter_lem_example :
    (lookup 1 with_letter.dead_letters ≡ none)
      × (requeue_dead_letter 1 none with_letter ≡ (err entity_not_found, with_letter))
    ⊎ (rec : DeadLetterRecord) × (lookup 1 with_letter.dead_letters ≡ some rec)
      × ((lookup rec.step_id with_letter.steps ≡ none)
            × (requeue_dead_letter 1 none with_letter ≡ (err entity_not_found, with_letter))
          ⊎ (after : MemoryStore) × (requeue_dead_letter 1 none with_letter ≡ (ok tt, after))
            × Requeues 1 none rec with_letter after)
requeue_dead_letter_lem_example = requeue_dead_letter_lem 1 none with_letter

get_summary_stats_lem_example :
    get_summary_stats with_letter ≡ (ok (counted with_letter.instances), with_letter)
get_summary_stats_lem_example = get_summary_stats_lem with_letter

get_workflow_stats_lem_example :
    (l : List WorkflowStats) × (get_workflow_stats with_letter ≡ (ok l, with_letter))
    × (sum_totals l ≡ defined_instances with_letter.definitions (values with_letter.instances))
get_workflow_stats_lem_example = get_workflow_stats_lem with_letter
