-- ===== src/Store/Instances.antt =====
-- memory_store.go: CreateInstance, UpdateInstanceStatus and GetInstance.
use floxy_pro.Prelude.{Option, String, nat_eq, none, some, string_eq, suc, ℕ}
use floxy_pro.Model.{RawMessage, Time, WorkflowInstance, WorkflowStatus}
use floxy_pro.Prelude.Maps.{adjust, insert, lookup}
use floxy_pro.Store.Defs.{Op, found, if_found, ok}

unfoldable pub create_instance : String → RawMessage → Time → Op WorkflowInstance
create_instance workflow_id input now s =
    let created : WorkflowInstance = record {
      id = s.next_instance_id;
      workflow_id = workflow_id;
      status = WorkflowStatus.pending;
      input = input;
      output = "";
      error = none;
      started_at = none;
      completed_at = none;
      created_at = now;
      updated_at = now;
    } in
    (
      ok created,
      record s {
        instances = insert created.id created s.instances;
        next_instance_id = suc s.next_instance_id;
      },
    )

abbrev pub stamp_completed : WorkflowStatus → Time → Option Time → Option Time
stamp_completed WorkflowStatus.completed later t = some later
stamp_completed WorkflowStatus.failed later t = some later
stamp_completed WorkflowStatus.cancelled later t = some later
stamp_completed _ later t = t

abbrev pub stamp_started : WorkflowStatus → Time → Option Time → Option Time
stamp_started WorkflowStatus.running later none = some later
stamp_started _ later t = t

unfoldable pub with_status :
    WorkflowStatus → RawMessage → Option String → Time → Time → WorkflowInstance → WorkflowInstance
with_status status output error now later i = record i {
  status = status;
  output = output;
  error = error;
  updated_at = now;
  completed_at = stamp_completed status later i.completed_at;
  started_at = stamp_started status later i.started_at;
}

-- `now` is the reading for `UpdatedAt`, `later` the one for `CompletedAt` or `StartedAt`.
unfoldable pub update_instance_status :
    ℕ → WorkflowStatus → RawMessage → Option String → Time → Time → Op Unit
update_instance_status id status output error now later s =
    if_found (lookup id s.instances) s
      (record s { instances = adjust id (with_status status output error now later) s.instances })

unfoldable pub get_instance : ℕ → Op WorkflowInstance
get_instance id s = (found (lookup id s.instances), s)
