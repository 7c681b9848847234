-- ===== src/Builder/Sound.antt =====
-- Every operation of the builder keeps the links sound.
use floxy_pro.Prelude.{
  List, Option, String, if-keeps, nat_eq, none, refl, some, string_eq, true, ℕ, ◌==◌, ◌||◌, ◌∙◌,
  ◌≡◌,
}
use floxy_pro.Builder.{
  Builder, BuilderError, StepOption, append_step, apply_options, fail, join_step, join_without_name,
  link_current, link_to, mark_start, no_step_to_guard, no_step_to_join, on_failure, plain_step,
  step, step_exists, task_step, unless_failed, unless_set,
}
use floxy_pro.Builder.Links.{
  IsClean, IsLinked, IsSound, adjust-AllLinked, apply_options-IsClean, has-adjust, has-insert,
  has-insert_self, insert-AllLinked, link_to-IsLinked,
}
use floxy_pro.Graph.{Steps, has, root_step_name}
use floxy_pro.Model.{JoinStrategy, StepDefinition, StepType}
use floxy_pro.Prelude.Maps.{adjust, insert}

pub unless_failed-IsSound :
    (b after : Builder) → IsSound b → IsSound after → IsSound (unless_failed b after)
unless_failed-IsSound b after before later = go b.error
  where
    go : (o : Option BuilderError) → IsSound (unless_set o b after)
    go none = later
    go (some e) = before

pub fail-IsSound : (e : BuilderError) (b : Builder) → IsSound b → IsSound (fail e b)
fail-IsSound e b sound = record {
  links = sound.links;
  start = sound.start;
  current = sound.current;
}

pub link_current-IsSound :
    (name : String) (b : Builder)
    → has b.steps name ≡ true
    → IsSound b
    → IsSound (link_current name b)
unfolding link_current
link_current-IsSound name b known sound =
    if-keeps IsSound (b.current_step == "" || b.current_step == name) b _ (λ _. sound)
      (λ _. record {
        links =
            adjust-AllLinked b.current_step (link_to name) b.steps
              (link_to-IsLinked b.steps name known) sound.links;
        start =
            λ set. has-adjust b.current_step b.start_step (link_to name) b.steps ∙ sound.start set;
        current = λ set.
            has-adjust b.current_step b.current_step (link_to name) b.steps ∙ sound.current set;
      })

pub link_current-has :
    (name x : String) (b : Builder) → has (link_current name b).steps x ≡ has b.steps x
unfolding link_current
link_current-has name x b =
    if-keeps (λ (c : Builder). has c.steps x ≡ has b.steps x)
      (b.current_step == "" || b.current_step == name) b _ (λ _. refl)
      (λ _. has-adjust b.current_step x (link_to name) b.steps)

-- A clean step stored under its name.
pub store-IsSound :
    (name : String) (def : StepDefinition) (b : Builder)
    → IsClean def
    → IsSound b
    → IsSound (record b { steps = insert name def b.steps })
store-IsSound name def b clean sound = record {
  links = insert-AllLinked name def b.steps clean sound.links;
  start = λ set. has-insert name b.start_step def b.steps (sound.start set);
  current = λ set. has-insert name b.current_step def b.steps (sound.current set);
}

-- The step that is made the current one is stored.
pub move-IsSound :
    (name : String) (b : Builder)
    → has b.steps name ≡ true
    → IsSound b
    → IsSound (record (link_current name b) { current_step = name })
move-IsSound name b known sound =
    let linked = link_current-IsSound name b known sound in
    record {
      links = linked.links;
      start = linked.start;
      current = λ _. link_current-has name name b ∙ known;
    }

pub append_step-IsSound :
    (name : String) (def : StepDefinition) (b : Builder)
    → IsClean def
    → IsSound b
    → IsSound (append_step name def b)
unfolding append_step
append_step-IsSound name def b clean sound =
    move-IsSound name (record b { steps = insert name def b.steps })
      (has-insert_self name def b.steps) (store-IsSound name def b clean sound)

pub plain_step-IsClean :
    (name : String) (type : StepType) (prev : String) → IsClean (plain_step name type prev)
plain_step-IsClean name type prev = record { next = refl; on_failure = refl; parallel = refl }

task_step-IsClean :
    (name handler : String) (retries : ℕ) (prev : String)
    → IsClean (task_step name handler retries prev)
task_step-IsClean name handler retries prev = record {
  next = refl;
  on_failure = refl;
  parallel = refl;
}

mark_start-IsSound :
    (name : String) (def : StepDefinition) (b : Builder)
    → IsClean def
    → IsSound b
    → IsSound (mark_start name def b)
mark_start-IsSound name def b clean sound =
    let rooted : IsClean (record def { prev = root_step_name }) = record {
      next = clean.next;
      on_failure = clean.on_failure;
      parallel = clean.parallel;
    } in
    if-keeps IsSound (b.start_step == "") _ _
      (λ _.
        let stored = store-IsSound name (record def { prev = root_step_name }) b rooted sound in
        record {
          links = stored.links;
          start = λ _. has-insert_self name (record def { prev = root_step_name }) b.steps;
          current = stored.current;
        })
      (λ _. store-IsSound name def b clean sound)

mark_start-has :
    (name : String) (def : StepDefinition) (b : Builder)
    → has (mark_start name def b).steps name ≡ true
mark_start-has name def b =
    if-keeps (λ (c : Builder). has c.steps name ≡ true) (b.start_step == "") _ _
      (λ _. has-insert_self name (record def { prev = root_step_name }) b.steps)
      (λ _. has-insert_self name def b.steps)

pub step-IsSound :
    (name handler : String) (options : List StepOption) (b : Builder)
    → IsSound b
    → IsSound (step name handler options b)
unfolding step
step-IsSound name handler options b sound =
    let base = task_step name handler b.default_max_retries b.current_step in
    let built = apply_options options base in
    let clean =
      apply_options-IsClean options base
        (task_step-IsClean name handler b.default_max_retries b.current_step) in
    unless_failed-IsSound b _ sound (
      if-keeps IsSound (has b.steps name) _ _ (λ _. fail-IsSound (step_exists name) b sound)
        (λ _.
          move-IsSound name (mark_start name built b) (mark_start-has name built b)
            (mark_start-IsSound name built b clean sound)))

guard-IsLinked :
    (steps : Steps) (name : String)
    → has steps name ≡ true
    → (def : StepDefinition) → IsLinked steps def
    → IsLinked steps (record def { on_failure = name })
guard-IsLinked steps name known def linked = record {
  next = linked.next;
  on_failure = λ _. known;
  parallel = linked.parallel;
}

-- A write through a pointer of the map that keeps the links.
pub write-IsSound :
    (k : String) (f : StepDefinition → StepDefinition) (b : Builder)
    → ((def : StepDefinition) → IsLinked b.steps def → IsLinked b.steps (f def))
    → IsSound b
    → IsSound (record b { steps = adjust k f b.steps })
write-IsSound k f b keep sound = record {
  links = adjust-AllLinked k f b.steps keep sound.links;
  start = λ set. has-adjust k b.start_step f b.steps ∙ sound.start set;
  current = λ set. has-adjust k b.current_step f b.steps ∙ sound.current set;
}

pub on_failure-IsSound :
    (name handler : String) (options : List StepOption) (b : Builder)
    → IsSound b
    → IsSound (on_failure name handler options b)
unfolding on_failure
on_failure-IsSound name handler options b sound =
    let base = task_step name handler b.default_max_retries "" in
    let built = apply_options options base in
    let clean =
      apply_options-IsClean options base
        (task_step-IsClean name handler b.default_max_retries "") in
    let stored = record b { steps = insert name built b.steps } in
    unless_failed-IsSound b _ sound (
      if-keeps IsSound (b.current_step == "") _ _
        (λ _. fail-IsSound (no_step_to_guard name) b sound)
        (λ _.
          write-IsSound b.current_step (λ def. record def { on_failure = name }) stored
            (guard-IsLinked stored.steps name (has-insert_self name built b.steps))
            (store-IsSound name built b clean sound)))

pub join_step-IsSound :
    (name : String) (wait_for : List String) (strategy : JoinStrategy) (b : Builder)
    → IsSound b
    → IsSound (join_step name wait_for strategy b)
unfolding join_step
join_step-IsSound name wait_for strategy b sound = unless_failed-IsSound b _ sound (
    if-keeps IsSound (b.current_step == "") _ _ (λ _. fail-IsSound (no_step_to_join name) b sound)
      (λ _.
        if-keeps IsSound (name == "") _ _ (λ _. fail-IsSound join_without_name b sound)
          (λ _.
            append_step-IsSound name _ b
              (record { next = refl; on_failure = refl; parallel = refl }) sound)))
