-- ===== src/Store/Reports/Totals.antt =====
-- GetWorkflowStats counts every instance with a definition once.
use floxy_pro.Prelude.{
  List, Option, String, [], arith, filter, if◌then◌else◌, is_set, length, nat_eq, none, pair_eq,
  refl, some, string_eq, suc, ℕ, ◌+◌, ◌∷◌, ◌≡◌,
}
use floxy_pro.Model.{WorkflowDefinition, WorkflowInstance, WorkflowStats, WorkflowStatus}
use floxy_pro.Prelude.Maps.{Map, insert, lookup, values}
use floxy_pro.Store.Defs.{MemoryStore, ok}
use floxy_pro.Store.Reports.{
  StatsKey, get_workflow_stats, stats_or_new, tally_all, tally_instances, tally_under,
}

abbrev pub sum_totals : List WorkflowStats → ℕ
sum_totals [] = 0
sum_totals (n ∷ ns) = n.total_instances + sum_totals ns

abbrev total_of : Option WorkflowStats → ℕ
total_of none = 0
total_of (some n) = n.total_instances

insert-sum_totals :
    (k : StatsKey) (n : WorkflowStats) (m : Map StatsKey WorkflowStats)
    → sum_totals (values (insert k n m)) + total_of (lookup k m)
      ≡ sum_totals (values m) + n.total_instances
unfolding insert lookup
insert-sum_totals k n [] = omega arith
insert-sum_totals k n ((j, old) ∷ m) = ground (arith, insert-sum_totals k n m)

tally_all-total :
    (def : WorkflowDefinition) (status : WorkflowStatus) (o : Option WorkflowStats)
    → (tally_all status (stats_or_new def o)).total_instances ≡ suc (total_of o)
tally_all-total def status none = ground arith
tally_all-total def status (some n) = ground arith

-- How many of the instances have a definition.
abbrev pub defined_instances : Map String WorkflowDefinition → List WorkflowInstance → ℕ
defined_instances definitions l = length (filter (λ i. is_set (lookup i.workflow_id definitions)) l)

tally_under-sum :
    (o : Option WorkflowDefinition) (status : WorkflowStatus) (m : Map StatsKey WorkflowStats)
    → sum_totals (values (tally_under o status m))
      ≡ sum_totals (values m) + (if is_set o then 1 else 0)
tally_under-sum none status m = omega arith
tally_under-sum (some def) status m =
    let key : StatsKey = (def.version, def.name) in
    omega (
      arith,
      insert-sum_totals key (tally_all status (stats_or_new def (lookup key m))) m,
      tally_all-total def status (lookup key m),
    )

tally_instances-sum :
    (definitions : Map String WorkflowDefinition) (l : List WorkflowInstance)
    (m : Map StatsKey WorkflowStats)
    → sum_totals (values (tally_instances definitions l m))
      ≡ sum_totals (values m) + defined_instances definitions l
unfolding tally_instances
tally_instances-sum definitions [] m = omega arith
tally_instances-sum definitions (i ∷ l) m =
    let here = lookup i.workflow_id definitions in
    ground (
      arith,
      tally_under-sum here i.status m,
      tally_instances-sum definitions l (tally_under here i.status m),
    )

-- GetWorkflowStats changes nothing, and the totals that it returns add up to the number of the
-- instances whose definition is in the store.
pub get_workflow_stats_lem :
    (s : MemoryStore)
    → (l : List WorkflowStats) × (get_workflow_stats s ≡ (ok l, s))
      × (sum_totals l ≡ defined_instances s.definitions (values s.instances))
unfolding get_workflow_stats
get_workflow_stats_lem s =
    let m = tally_instances s.definitions (values s.instances) [] in
    (values m, refl, omega (arith, tally_instances-sum s.definitions (values s.instances) []))
