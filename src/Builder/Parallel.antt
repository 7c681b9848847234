-- ===== src/Builder/Parallel.antt =====
-- Parallel links its step to the join step before it stores that step, so its links are sound when the
-- call returns without an error.
use Prim.Native.String.{◌++◌ as str_append}
use floxy_pro.Prelude.{
  All, List, Option-cases, String, if-keeps, inl, inr, nat_eq, none, refl, some, string_eq, subst,
  sym, true, ◌==◌, ◌∙◌, ◌≡◌,
}
use floxy_pro.Builder.{
  Builder, BuilderError, append_step, join_step, link_current, link_to, plain_step, unless_failed,
  unless_set,
}
use floxy_pro.Builder.Calls.{add_tasks, close_parallel, parallel, parallel_of}
use floxy_pro.Builder.Links.{
  AllLinked, IsClean, IsClean-IsLinked, IsLinked, IsLinked-grow, IsSound, has-adjust, has-insert,
  has-insert_self, link_to-IsLinked,
}
use floxy_pro.Builder.Reachable.{add_tasks-IsSound}
use floxy_pro.Builder.Sound.{link_current-IsSound, move-IsSound, plain_step-IsClean, store-IsSound}
use floxy_pro.Graph.{Steps, has}
use floxy_pro.Model.{StepDefinition, StepType}
use floxy_pro.Prelude.Maps.{adjust, insert, lookup}
use floxy_pro.Prelude.Maps.Everywhere.{adjust-Everywhere, insert-Everywhere}

-- Sound, unless the builder has failed.
abbrev pub SoundUnlessFailed : Builder → Type 0
SoundUnlessFailed b = b.error ≡ none → IsSound b

pub unless_failed-open :
    (P : Builder → Type 0) (b after : Builder)
    → b.error ≡ none
    → P after
    → P (unless_failed b after)
unless_failed-open P b after fine later = subst (λ o. P (unless_set o b after)) (sym fine) later

pub unless_failed-shut :
    {e : BuilderError} (P : Builder → Type 0) (b after : Builder)
    → b.error ≡ some e
    → P b
    → P (unless_failed b after)
unless_failed-shut P b after failed before =
    subst (λ o. P (unless_set o b after)) (sym failed) before

-- A step stored after a link to it.
link_insert-AllLinked :
    (name join_name : String) (def : StepDefinition) (steps : Steps)
    → IsClean def
    → AllLinked steps
    → AllLinked (insert join_name def (adjust name (link_to join_name) steps))
link_insert-AllLinked name join_name def steps clean all =
    let mid = adjust name (link_to join_name) steps in
    let after = insert join_name def mid in
    let grows : (x : String) → has steps x ≡ true → has after x ≡ true = λ x known.
      has-insert join_name x def mid (has-adjust name x (link_to join_name) steps ∙ known) in
    insert-Everywhere (λ k d. IsLinked after d) mid join_name def (IsClean-IsLinked after def clean)
      (adjust-Everywhere (λ k d. IsLinked after d) steps name (link_to join_name)
        (link_to-IsLinked after join_name (has-insert_self join_name def mid))
        (λ k d seen. IsLinked-grow steps after d grows (all k d seen)))

link_append-IsSound :
    (name join_name : String) (def : StepDefinition) (b : Builder)
    → IsClean def
    → IsSound b
    → IsSound
        (append_step join_name def (record b { steps = adjust name (link_to join_name) b.steps }))
unfolding append_step
link_append-IsSound name join_name def b clean sound =
    let mid = adjust name (link_to join_name) b.steps in
    let stored = record b { steps = insert join_name def mid } in
    let kept : (x : String) → has b.steps x ≡ true → has stored.steps x ≡ true = λ x known.
      has-insert join_name x def mid (has-adjust name x (link_to join_name) b.steps ∙ known) in
    move-IsSound join_name stored (has-insert_self join_name def mid) (record {
      links = link_insert-AllLinked name join_name def b.steps clean sound.links;
      start = λ set. kept b.start_step (sound.start set);
      current = λ set. kept b.current_step (sound.current set);
    })

close_parallel-IsSound :
    (name : String) (b : Builder) → IsSound b → SoundUnlessFailed (close_parallel name b)
unfolding close_parallel join_step
close_parallel-IsSound name b sound = elim (Option-cases b.error) [
  | inl fine ↦
      let join_name = str_append name "_join" in
      let waits = parallel_of (lookup name b.steps) in
      let linked = record b { steps = adjust name (link_to join_name) b.steps } in
      unless_failed-open SoundUnlessFailed b _ fine (
        unless_failed-open SoundUnlessFailed linked _ fine (
          if-keeps SoundUnlessFailed (linked.current_step == "") _ _
            (λ _ failed. absurd (cc failed))
            (λ _.
              if-keeps SoundUnlessFailed (join_name == "") _ _ (λ _ failed. absurd (cc failed))
                (λ _ _.
                  link_append-IsSound name join_name _ b
                    (record { next = refl; on_failure = refl; parallel = refl }) sound))))
  | inr bad ↦ unless_failed-shut SoundUnlessFailed b _ bad.1 (λ _. sound)
]

pub parallel-IsSound :
    (name : String) (tasks : List StepDefinition) (b : Builder)
    → All IsClean tasks
    → IsSound b
    → SoundUnlessFailed (parallel name tasks b)
unfolding parallel
parallel-IsSound name tasks b clean sound = elim (Option-cases b.error) [
  | inl fine ↦
      let def = plain_step name StepType.parallel b.current_step in
      let stored = record b { steps = insert name def b.steps } in
      let linked = link_current name stored in
      unless_failed-open SoundUnlessFailed b _ fine (
        if-keeps SoundUnlessFailed (has b.steps name) _ _ (λ _ failed. absurd (cc failed))
          (λ _. close_parallel-IsSound name (add_tasks 0 name tasks linked) (
            add_tasks-IsSound 0 name tasks linked clean (
              link_current-IsSound name stored (has-insert_self name def b.steps) (
                store-IsSound name def b (plain_step-IsClean name StepType.parallel b.current_step)
                  sound)))))
  | inr bad ↦ unless_failed-shut SoundUnlessFailed b _ bad.1 (λ _. sound)
]
