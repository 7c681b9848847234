-- ===== src/Store/Reports.antt =====
-- memory_store.go: GetWorkflowDefinitions and GetWorkflowStats.
pub mod Totals
use Prim.Native.Nat.{Ordering}
use Prim.Native.String.{compare as text_compare}
use floxy_pro.Prelude.{
  Bool, List, Option, String, [], false, if◌then◌else◌, ltb, nat_eq, none, pair_eq, some, string_eq,
  suc, true, ℕ, ◌==◌, ◌∷◌,
}
use floxy_pro.Model.{WorkflowDefinition, WorkflowInstance, WorkflowStats, WorkflowStatus}
use floxy_pro.Prelude.Maps.{Map, insert, lookup, values}
use floxy_pro.Prelude.Sorting.{sort_by}
use floxy_pro.Store.Defs.{Op, ok}

abbrev pub name_before : String → String → Bool
name_before a b = elim (text_compare a b) [ Ordering.lt ↦ true | _ ↦ false ]

-- By name, and the latest version of a name first.
abbrev pub definition_before : WorkflowDefinition → WorkflowDefinition → Bool
definition_before a b =
    if a.name == b.name then ltb b.version a.version else name_before a.name b.name

unfoldable pub get_workflow_definitions : Op (List WorkflowDefinition)
get_workflow_definitions s = (ok (sort_by definition_before (values s.definitions)), s)

-- The text "%s:%d" of a name and a version determines both, as the digits begin after the last colon.
abbrev pub StatsKey : Type 0
StatsKey = ℕ × String

abbrev pub no_stats : WorkflowDefinition → WorkflowStats
no_stats def = record {
  workflow_name = def.name;
  version = def.version;
  total_instances = 0;
  completed_instances = 0;
  failed_instances = 0;
  running_instances = 0;
  average_duration = 0;
}

abbrev pub stats_or_new : WorkflowDefinition → Option WorkflowStats → WorkflowStats
stats_or_new def none = no_stats def
stats_or_new def (some stats) = stats

abbrev pub tally : WorkflowStatus → WorkflowStats → WorkflowStats
tally WorkflowStatus.completed n = record n { completed_instances = suc n.completed_instances }
tally WorkflowStatus.failed n = record n { failed_instances = suc n.failed_instances }
tally WorkflowStatus.running n = record n { running_instances = suc n.running_instances }
tally _ n = n

abbrev pub tally_all : WorkflowStatus → WorkflowStats → WorkflowStats
tally_all status n = tally status (record n { total_instances = suc n.total_instances })

-- The body of the loop, for the definition of the instance if there is one.
abbrev pub tally_under :
    Option WorkflowDefinition
    → WorkflowStatus
    → Map StatsKey WorkflowStats
    → Map StatsKey WorkflowStats
tally_under none status m = m
tally_under (some def) status m =
    let key : StatsKey = (def.version, def.name) in
    insert key (tally_all status (stats_or_new def (lookup key m))) m

unfoldable pub tally_instances :
    Map String WorkflowDefinition
    → List WorkflowInstance
    → Map StatsKey WorkflowStats
    → Map StatsKey WorkflowStats
tally_instances definitions [] m = m
tally_instances definitions (i ∷ rest) m =
    tally_instances definitions rest (tally_under (lookup i.workflow_id definitions) i.status m)

unfoldable pub get_workflow_stats : Op (List WorkflowStats)
unfolding tally_instances
get_workflow_stats s = (ok (values (tally_instances s.definitions (values s.instances) [])), s)
