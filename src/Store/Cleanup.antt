-- ===== src/Store/Cleanup.antt =====
-- memory_store.go: CleanupOldWorkflows.
pub mod Kept
use floxy_pro.Prelude.{
  Bool, Option, [], false, if◌then◌else◌, ltb, nat_eq, none, pair_eq, some, ℕ, ◌+◌, ◌==◌, ◌∷◌,
}
use floxy_pro.Builder.{step}
use floxy_pro.Model.{Duration, Time, WorkflowInstance}
use floxy_pro.Prelude.Maps.{Map, delete, delete_where}
use floxy_pro.Store.Defs.{MemoryStore, Op, ok}

-- `AddDate(0, 0, -1)`, where no clock is put forward or back: 24 hours in nanoseconds.
abbrev pub day : Duration
day = 86400000000000

-- `instance.CompletedAt != nil && instance.CompletedAt.Before(cutoffTime)`
abbrev pub is_old : Time → Option Time → Bool
is_old now none = false
is_old now (some completed) = ltb (completed + day) now

unfoldable pub forget_instance : ℕ → MemoryStore → MemoryStore
forget_instance id s = record s {
  instances = delete id s.instances;
  steps_by_instance = delete id s.steps_by_instance;
  steps = delete_where (λ step. step.instance_id == id) s.steps;
  events_by_instance = delete id s.events_by_instance;
  cancel_requests = delete id s.cancel_requests;
  join_states = delete_where (λ state. state.instance_id == id) s.join_states;
}

-- The loop over the instances that were there when it began.
unfoldable pub forget_old : Time → Map ℕ WorkflowInstance → MemoryStore → MemoryStore
forget_old now [] s = s
forget_old now ((id, i) ∷ rest) s =
    forget_old now rest (if is_old now i.completed_at then forget_instance id s else s)

unfoldable pub cleanup_old_workflows : Time → Op Unit
cleanup_old_workflows now s = (ok tt, forget_old now s.instances s)
