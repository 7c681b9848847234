-- ===== src/Tests/Cleanup.antt =====
-- Three instances: one completed long ago, one completed just now, one that runs.
use floxy_pro.Prelude.{List, [], false, nat_eq, none, refl, some, string_eq, ℕ, ◌↔◌, ◌∷◌, ◌≡◌}
use floxy_pro.Model.{Time, WorkflowInstance, WorkflowStatus}
use floxy_pro.Prelude.Maps.{adjust, insert, lookup}
use floxy_pro.Prelude.Maps.Distinct.{IsDistinct}
use floxy_pro.Store.Cleanup.{cleanup_old_workflows, is_old}
use floxy_pro.Store.Cleanup.Kept.{cleanup_old_workflows_lem}
use floxy_pro.Store.Defs.{MemoryStore, new_memory_store, ok}
use floxy_pro.Store.Instances.{create_instance, update_instance_status, with_status}
use floxy_pro.Store.Operations.{Operation, perform, perform_all}

abbrev cleanup_time : Time
cleanup_time = 90000000000000

abbrev finished : List Operation
finished =
    Operation.new_instance "order-v1" "" 1000
    ∷ Operation.new_instance "order-v1" "" 2000
    ∷ Operation.new_instance "order-v1" "" 3000
    ∷ Operation.set_instance 1 WorkflowStatus.completed "" none 4000 4001
    ∷ Operation.set_instance 2 WorkflowStatus.failed "" none 89000000000000 89000000000001
    ∷ Operation.set_instance 3 WorkflowStatus.running "" none 5000 5001
    ∷ []

abbrev with_instances : MemoryStore
with_instances = perform_all finished new_memory_store

with_instances-IsDistinct : IsDistinct with_instances.instances
unfolding perform_all perform create_instance update_instance_status with_status new_memory_store
    insert adjust lookup
with_instances-IsDistinct = (refl, (refl, (refl, tt)))

cleanup_old_workflows_lem_example :
    let (result, after) = cleanup_old_workflows cleanup_time with_instances in
    (result ≡ ok tt)
    × ((k : ℕ) (i : WorkflowInstance)
        → (lookup k after.instances ≡ some i) ↔ (
            (lookup k with_instances.instances ≡ some i)
            × (is_old cleanup_time i.completed_at ≡ false)))
    × (after.queue ≡ with_instances.queue)
cleanup_old_workflows_lem_example =
    cleanup_old_workflows_lem cleanup_time with_instances with_instances-IsDistinct
