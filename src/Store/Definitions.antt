-- ===== src/Store/Definitions.antt =====
-- memory_store.go: SaveWorkflowDefinition and GetWorkflowDefinition.
use floxy_pro.Prelude.{Option, String, if◌then◌else◌, nat_eq, none, pair_eq, some, string_eq, ◌==◌}
use floxy_pro.Model.{Time, WorkflowDefinition}
use floxy_pro.Prelude.Maps.{insert, lookup}
use floxy_pro.Store.Defs.{Op, found, ok}

-- `fresh` is the identifier that `uuid.NewString` gives. The caller's pointer is what is stored.
abbrev pub stamped :
    String → Time → WorkflowDefinition → Option WorkflowDefinition → WorkflowDefinition
stamped fresh now def none = record def {
  id = if def.id == "" then fresh else def.id;
  created_at = now;
}
stamped fresh now def (some existing) = record def {
  id = existing.id;
  created_at = existing.created_at;
}

unfoldable pub save_workflow_definition : String → Time → WorkflowDefinition → Op Unit
save_workflow_definition fresh now def s =
    let saved = stamped fresh now def (lookup def.id s.definitions) in
    (ok tt, record s { definitions = insert saved.id saved s.definitions })

unfoldable pub get_workflow_definition : String → Op WorkflowDefinition
get_workflow_definition id s = (found (lookup id s.definitions), s)
