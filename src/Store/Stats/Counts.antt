-- ===== src/Store/Stats/Counts.antt =====
-- GetSummaryStats counts the instances by their statuses.
use floxy_pro.Prelude.{
  Bool, [], ap, arith, false, filter, length, nat_eq, suc, true, ℕ, ◌+◌, ◌∷◌, ◌≡◌,
}
use floxy_pro.Model.{SummaryStats, WorkflowInstance, WorkflowStatus}
use floxy_pro.Prelude.Maps.{Map, values}
use floxy_pro.Store.Defs.{MemoryStore, ok}
use floxy_pro.Store.Stats.{count_status, get_summary_stats, no_summary, summarize}

abbrev pub is_completed : WorkflowStatus → Bool
is_completed WorkflowStatus.completed = true
is_completed _ = false

abbrev pub is_failed : WorkflowStatus → Bool
is_failed WorkflowStatus.failed = true
is_failed _ = false

abbrev pub is_in_progress : WorkflowStatus → Bool
is_in_progress WorkflowStatus.running = true
is_in_progress _ = false

abbrev pub is_pending : WorkflowStatus → Bool
is_pending WorkflowStatus.pending = true
is_pending _ = false

-- How many instances have a status of the kind.
abbrev pub count : (WorkflowStatus → Bool) → Map ℕ WorkflowInstance → ℕ
count p m = length (filter (λ i. p i.status) (values m))

summarize-total :
    (m : Map ℕ WorkflowInstance) (n : SummaryStats)
    → (summarize m n).total_workflows ≡ n.total_workflows + length m
unfolding summarize
summarize-total [] n = omega arith
summarize-total ((k, i) ∷ m) n = ground (
  arith,
  summarize-total m (count_status i.status (record n { total_workflows = suc n.total_workflows })),
)

summarize-completed_workflows :
    (m : Map ℕ WorkflowInstance) (n : SummaryStats)
    → (summarize m n).completed_workflows ≡ n.completed_workflows + count is_completed m
unfolding summarize
summarize-completed_workflows [] n = omega arith
summarize-completed_workflows ((k, i) ∷ m) n = ground (
  arith,
  summarize-completed_workflows m
      (count_status i.status (record n { total_workflows = suc n.total_workflows })),
)

summarize-failed_workflows :
    (m : Map ℕ WorkflowInstance) (n : SummaryStats)
    → (summarize m n).failed_workflows ≡ n.failed_workflows + count is_failed m
unfolding summarize
summarize-failed_workflows [] n = omega arith
summarize-failed_workflows ((k, i) ∷ m) n = ground (
  arith,
  summarize-failed_workflows m
      (count_status i.status (record n { total_workflows = suc n.total_workflows })),
)

summarize-running_workflows :
    (m : Map ℕ WorkflowInstance) (n : SummaryStats)
    → (summarize m n).running_workflows ≡ n.running_workflows + count is_in_progress m
unfolding summarize
summarize-running_workflows [] n = omega arith
summarize-running_workflows ((k, i) ∷ m) n = ground (
  arith,
  summarize-running_workflows m
      (count_status i.status (record n { total_workflows = suc n.total_workflows })),
)

summarize-pending_workflows :
    (m : Map ℕ WorkflowInstance) (n : SummaryStats)
    → (summarize m n).pending_workflows ≡ n.pending_workflows + count is_pending m
unfolding summarize
summarize-pending_workflows [] n = omega arith
summarize-pending_workflows ((k, i) ∷ m) n = ground (
  arith,
  summarize-pending_workflows m
      (count_status i.status (record n { total_workflows = suc n.total_workflows })),
)

summarize-active_workflows :
    (m : Map ℕ WorkflowInstance) (n : SummaryStats)
    → (summarize m n).active_workflows
      ≡ n.active_workflows + (count is_in_progress m + count is_pending m)
unfolding summarize
summarize-active_workflows [] n = omega arith
summarize-active_workflows ((k, i) ∷ m) n = ground (
  arith,
  summarize-active_workflows m
      (count_status i.status (record n { total_workflows = suc n.total_workflows })),
)

-- Two summaries with the same six counters.
summary_ext :
    (n m : SummaryStats)
    → n.total_workflows ≡ m.total_workflows
    → n.completed_workflows ≡ m.completed_workflows
    → n.failed_workflows ≡ m.failed_workflows
    → n.running_workflows ≡ m.running_workflows
    → n.pending_workflows ≡ m.pending_workflows
    → n.active_workflows ≡ m.active_workflows
    → n ≡ m
summary_ext n m t c f r p a = λ i. record {
  total_workflows = t i;
  completed_workflows = c i;
  failed_workflows = f i;
  running_workflows = r i;
  pending_workflows = p i;
  active_workflows = a i;
}

abbrev pub counted : Map ℕ WorkflowInstance → SummaryStats
counted m = record {
  total_workflows = length m;
  completed_workflows = count is_completed m;
  failed_workflows = count is_failed m;
  running_workflows = count is_in_progress m;
  pending_workflows = count is_pending m;
  active_workflows = count is_in_progress m + count is_pending m;
}

-- GetSummaryStats changes nothing and returns the number of instances, and of those that are completed,
-- failed, running and pending; the active ones are the running and the pending ones.
pub get_summary_stats_lem : (s : MemoryStore) → get_summary_stats s ≡ (ok (counted s.instances), s)
unfolding get_summary_stats
get_summary_stats_lem s =
    let m = s.instances in
    ap (λ (n : SummaryStats). (ok n, s))
      (summary_ext (summarize m no_summary) (counted m)
        (omega (arith, summarize-total m no_summary))
        (omega (arith, summarize-completed_workflows m no_summary))
        (omega (arith, summarize-failed_workflows m no_summary))
        (omega (arith, summarize-running_workflows m no_summary))
        (omega (arith, summarize-pending_workflows m no_summary))
        (omega (arith, summarize-active_workflows m no_summary)))
