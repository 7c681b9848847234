-- ===== src/Builder/Reachable.antt =====
-- Sequences of calls of the builder: what they keep, and what Build makes of the result.
use floxy_pro.Prelude.{
  All, List, String, [], if-keeps, ltb, nat_eq, refl, string_eq, suc, true, ℕ, ◌==◌, ◌∷◌, ◌≡◌,
}
use floxy_pro.Builder.{
  Builder, StepOption, confirm_without_name, save_point_in_subflow, save_point_without_name,
  task_exists, task_without_handler, task_without_name,
}
use floxy_pro.Builder.Calls.{add_task, add_tasks, save_point, wait_human_confirm}
use floxy_pro.Builder.Links.{
  IsClean, IsKnown-snoc, IsLinked, IsSound, apply_options-IsClean, has-insert_self,
}
use floxy_pro.Builder.Sound.{
  append_step-IsSound, fail-IsSound, plain_step-IsClean, store-IsSound, unless_failed-IsSound,
  write-IsSound,
}
use floxy_pro.Graph.{Steps, has}
use floxy_pro.Model.{StepDefinition, StepType}
use floxy_pro.Prelude.Maps.{adjust, insert}

add_task-IsLinked :
    (steps : Steps) (name : String)
    → has steps name ≡ true
    → (def : StepDefinition) → IsLinked steps def
    → IsLinked steps (add_task name def)
add_task-IsLinked steps name known def linked = record {
  next = linked.next;
  on_failure = linked.on_failure;
  parallel = IsKnown-snoc steps def.parallel name linked.parallel known;
}

pub add_tasks-IsSound :
    (i : ℕ) (name : String) (tasks : List StepDefinition) (b : Builder)
    → All IsClean tasks
    → IsSound b
    → IsSound (add_tasks i name tasks b)
unfolding add_tasks
add_tasks-IsSound i name [] b clean sound = sound
add_tasks-IsSound i name (task ∷ tasks) b clean sound =
    let child = record task { prev = name } in
    let stored = record b { steps = insert task.name child b.steps } in
    let added = record stored { steps = adjust name (add_task task.name) stored.steps } in
    let clean_child : IsClean child = record {
      next = clean.0.next;
      on_failure = clean.0.on_failure;
      parallel = clean.0.parallel;
    } in
    let sound_added =
      write-IsSound name (add_task task.name) stored
        (add_task-IsLinked stored.steps task.name (has-insert_self task.name child b.steps))
        (store-IsSound task.name child b clean_child sound) in
    if-keeps IsSound (task.name == "") _ _ (λ _. fail-IsSound (task_without_name i name) b sound)
      (λ _.
        if-keeps IsSound (task.handler == "") _ _
          (λ _. fail-IsSound (task_without_handler i name) b sound)
          (λ _.
            if-keeps IsSound (has b.steps task.name) _ _
              (λ _. fail-IsSound (task_exists task.name name) b sound)
              (λ _. add_tasks-IsSound (suc i) name tasks added clean.1 sound_added)))

pub save_point-IsSound : (name : String) (b : Builder) → IsSound b → IsSound (save_point name b)
unfolding save_point
save_point-IsSound name b sound = unless_failed-IsSound b _ sound (
    if-keeps IsSound (name == "") _ _ (λ _. fail-IsSound save_point_without_name b sound)
      (λ _.
        if-keeps IsSound (ltb 1 b.nesting_level) _ _
          (λ _. fail-IsSound (save_point_in_subflow name) b sound)
          (λ _.
            append_step-IsSound name _ b
              (plain_step-IsClean name StepType.save_point b.current_step) sound)))

pub wait_human_confirm-IsSound :
    (name : String) (options : List StepOption) (b : Builder)
    → IsSound b
    → IsSound (wait_human_confirm name options b)
unfolding wait_human_confirm
wait_human_confirm-IsSound name options b sound = unless_failed-IsSound b _ sound (
    if-keeps IsSound (name == "") _ _ (λ _. fail-IsSound confirm_without_name b sound)
      (λ _.
        append_step-IsSound name _ b
          (apply_options-IsClean options _
            (record { next = refl; on_failure = refl; parallel = refl }))
          sound))
