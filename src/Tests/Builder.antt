-- ===== src/Tests/Builder.antt =====
-- A workflow with a compensation and two parallel tasks, built by calls.
use mathlib.Core.Option
use floxy_pro.Prelude.{All, List, [], inr, nat_eq, refl, some, string_eq, true, ◌∷◌, ◌≡◌}
use floxy_pro.Builder.{
  Builder, append_step, apply_builder_options, apply_option, apply_options, join_step, link_current,
  new_builder, new_task, on_failure, step, with_step_max_retries, with_step_no_idempotent,
}
use floxy_pro.Builder.Calls.{
  Call, add_tasks, build, call, call_all, call_on_failure, call_parallel, call_step, close_parallel,
  definition_of, parallel,
}
use floxy_pro.Builder.Links.{AllLinked, IsClean}
use floxy_pro.Builder.Ready.{IsCleanCall, build_lem}
use floxy_pro.Graph.{
  all_known, all_known_or_virtual, detect_cycles, has, is_virtual_step, outs, probe, probe_all,
  validate_step, validate_step_name, validate_steps, validate_workflow_definition,
}
use floxy_pro.Graph.Cycles.{IsAcyclic}
use floxy_pro.Graph.Valid.{AllWellFormed}
use floxy_pro.Model.{StepDefinition, WorkflowDefinition}
use floxy_pro.Prelude.Maps.{adjust, insert, lookup}

abbrev order_calls : List Call
order_calls =
    call_step "pay" "charge" (with_step_max_retries 5 ∷ [])
    ∷ call_on_failure "refund" "repay" []
    ∷ call_parallel "notify" (new_task "mail" "send" [] ∷ new_task "text" "send" [] ∷ [])
    ∷ call_step "ship" "send" (with_step_no_idempotent ∷ [])
    ∷ []

abbrev order_builder : Builder
order_builder = call_all order_calls (new_builder "order" 1 [])

abbrev order_workflow : WorkflowDefinition
order_workflow = definition_of "order-v1" order_builder

order_calls_clean : All IsCleanCall order_calls
unfolding new_task apply_options apply_option
order_calls_clean =
    let clean : IsClean (new_task "mail" "send" []) = record {
      next = refl;
      on_failure = refl;
      parallel = refl;
    } in
    let clean' : IsClean (new_task "text" "send" []) = record {
      next = refl;
      on_failure = refl;
      parallel = refl;
    } in
    (tt, (tt, ((clean, (clean', tt)), (tt, tt))))

order_build : build "order-v1" order_builder ≡ inr order_workflow
unfolding build call_all call step on_failure parallel add_tasks close_parallel join_step
    append_step link_current new_builder apply_builder_options apply_options apply_option new_task
    insert adjust lookup validate_workflow_definition validate_steps validate_step
    validate_step_name all_known all_known_or_virtual is_virtual_step detect_cycles probe probe_all
    outs
order_build = refl

-- Parallel leaves the current step where it is until the join step is made: the step before it leads
-- both to the parallel step and to the join step.
pay_next :
    Option.map (λ (d : StepDefinition). d.next) (lookup "pay" order_builder.steps)
    ≡ some ("notify" ∷ "notify_join" ∷ [])
unfolding call_all call step on_failure parallel add_tasks close_parallel join_step append_step
    link_current new_builder apply_builder_options apply_options apply_option new_task insert adjust
    lookup
pay_next = refl

build_lem_example :
    (has order_workflow.definition.steps order_workflow.definition.start ≡ true)
    × AllLinked order_workflow.definition.steps
    × AllWellFormed order_workflow.definition.steps order_workflow.definition.steps
    × IsAcyclic order_workflow.definition.steps order_workflow.definition.start
build_lem_example =
    build_lem "order" 1 [] order_calls "order-v1" order_workflow order_calls_clean order_build
