-- ===== src/Store/Listings.antt =====
-- memory_store.go: GetWorkflowInstances, GetAllWorkflowInstances and their paginated forms.
use floxy_pro.Prelude.{
  Bool, List, String, [], filter, if◌then◌else◌, leb, length, ltb, nat_eq, string_eq, ℕ, ◌+◌, ◌==◌,
}
use floxy_pro.Model.{WorkflowInstance}
use floxy_pro.Prelude.Maps.{values}
use floxy_pro.Prelude.Sorting.{sort_by}
use floxy_pro.Store.DeadLetters.{at_most, slice}
use floxy_pro.Store.Defs.{Op, ok}

abbrev pub newest_first : WorkflowInstance → WorkflowInstance → Bool
newest_first a b = ltb b.created_at a.created_at

unfoldable pub get_all_workflow_instances : Op (List WorkflowInstance)
get_all_workflow_instances s = (ok (sort_by newest_first (values s.instances)), s)

unfoldable pub get_workflow_instances : String → Op (List WorkflowInstance)
get_workflow_instances workflow_id s =
    (ok (sort_by newest_first (filter (λ i. i.workflow_id == workflow_id) (values s.instances))), s)

-- The tail of the two paginated methods: one page, with the number of all instances.
unfoldable pub page {ℓ} : {A : Type ℓ} → ℕ → ℕ → List A → List A × ℕ
unfolding slice
page offset limit xs =
    if leb (length xs) offset
    then ([], length xs)
    else (slice offset (at_most (length xs) (offset + limit)) xs, length xs)

unfoldable pub get_workflow_instances_paginated : String → ℕ → ℕ → Op (List WorkflowInstance × ℕ)
get_workflow_instances_paginated workflow_id offset limit s = (
  ok (
      page offset limit
        (sort_by newest_first (filter (λ i. i.workflow_id == workflow_id) (values s.instances)))),
  s,
)

unfoldable pub get_all_workflow_instances_paginated : ℕ → ℕ → Op (List WorkflowInstance × ℕ)
get_all_workflow_instances_paginated offset limit s =
    (ok (page offset limit (sort_by newest_first (values s.instances))), s)
