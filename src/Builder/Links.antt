-- ===== src/Builder/Links.antt =====
-- What the builder keeps of the links between steps.
-- A step definition without links, as NewTask and the operations make them.
use floxy_pro.Prelude.{
  Bool-cases, List, String, [], arith, contains, contains-append, if-keeps, inl, inr, nat_eq,
  str_iff, string_eq, subst, true, ◌++◌, ◌∙◌, ◌∷◌, ◌≡◌, ◌≢◌,
}
use floxy_pro.Builder.{
  Builder, StepOption, apply_option, apply_options, link_to, with_step_delay, with_step_max_retries,
  with_step_metadata, with_step_no_idempotent, with_step_retry_delay, with_step_retry_strategy,
  with_step_timeout,
}
use floxy_pro.Graph.{Steps, has}
use floxy_pro.Graph.Valid.{IsKnown}
use floxy_pro.Model.{StepDefinition}
use floxy_pro.Prelude.Maps.{adjust, insert, lookup-adjust, lookup-insert}
use floxy_pro.Prelude.Maps.Everywhere.{Everywhere, adjust-Everywhere, insert-Everywhere}

pub record IsClean (def : StepDefinition) : Type 0 where
  pub next : def.next ≡ []
  pub on_failure : def.on_failure ≡ ""
  pub parallel : def.parallel ≡ []

-- The targets of a step are steps.
pub record IsLinked (steps : Steps) (def : StepDefinition) : Type 0 where
  pub next : IsKnown steps def.next
  pub on_failure : def.on_failure ≢ "" → has steps def.on_failure ≡ true
  pub parallel : IsKnown steps def.parallel

abbrev pub AllLinked : Steps → Type 0
AllLinked steps = Everywhere (λ k def. IsLinked steps def) steps

pub IsClean-IsLinked : (steps : Steps) (def : StepDefinition) → IsClean def → IsLinked steps def
IsClean-IsLinked steps def clean = record {
  next = λ x c. cc (c, clean.next);
  on_failure = λ set. absurd (set clean.on_failure);
  parallel = λ x c. cc (c, clean.parallel);
}

pub has-insert :
    (k x : String) (def : StepDefinition) (steps : Steps)
    → has steps x ≡ true
    → has (insert k def steps) x ≡ true
has-insert k x def steps known = ground (arith, lookup-insert k x def steps)

pub has-insert_self :
    (k : String) (def : StepDefinition) (steps : Steps) → has (insert k def steps) k ≡ true
has-insert_self k def steps = ground (arith, lookup-insert k k def steps, str_iff k k)

pub has-adjust :
    (k x : String) (f : StepDefinition → StepDefinition) (steps : Steps)
    → has (adjust k f steps) x ≡ has steps x
has-adjust k x f steps = ground (arith, lookup-adjust k x f steps)

pub IsLinked-grow :
    (steps after : Steps) (def : StepDefinition)
    → ((x : String) → has steps x ≡ true → has after x ≡ true)
    → IsLinked steps def
    → IsLinked after def
IsLinked-grow steps after def grows linked = record {
  next = λ x c. grows x (linked.next x c);
  on_failure = λ set. grows def.on_failure (linked.on_failure set);
  parallel = λ x c. grows x (linked.parallel x c);
}

pub insert-AllLinked :
    (k : String) (def : StepDefinition) (steps : Steps)
    → IsClean def
    → AllLinked steps
    → AllLinked (insert k def steps)
insert-AllLinked k def steps clean all =
    let after = insert k def steps in
    insert-Everywhere (λ k d. IsLinked after d) steps k def (IsClean-IsLinked after def clean)
      (λ j d seen. IsLinked-grow steps after d (λ x h. has-insert k x def steps h) (all j d seen))

pub adjust-AllLinked :
    (k : String) (f : StepDefinition → StepDefinition) (steps : Steps)
    → ((def : StepDefinition) → IsLinked steps def → IsLinked steps (f def))
    → AllLinked steps
    → AllLinked (adjust k f steps)
adjust-AllLinked k f steps keep all =
    let after = adjust k f steps in
    λ j d seen.
      IsLinked-grow steps after d (λ x h. has-adjust k x f steps ∙ h)
        (adjust-Everywhere (λ k d. IsLinked steps d) steps k f keep all j d seen)

pub IsKnown-snoc :
    (steps : Steps) (xs : List String) (name : String)
    → IsKnown steps xs
    → has steps name ≡ true
    → IsKnown steps (xs ++ name ∷ [])
IsKnown-snoc steps xs name all known x c = elim (Bool-cases (contains xs x)) [
  | inl old ↦ all x old
  | inr new ↦
      let same : name ≡ x = ground (arith, contains-append xs (name ∷ []) x, str_iff name x, c) in
      subst (λ z. has steps z ≡ true) same known
]

pub link_to-IsLinked :
    (steps : Steps) (name : String)
    → has steps name ≡ true
    → (def : StepDefinition) → IsLinked steps def
    → IsLinked steps (link_to name def)
link_to-IsLinked steps name known def linked = record {
  next = IsKnown-snoc steps def.next name linked.next known;
  on_failure = linked.on_failure;
  parallel = linked.parallel;
}

-- The invariant of the builder: the links are steps, and so are the start and the current step.
pub record IsSound (b : Builder) : Type 0 where
  pub links : AllLinked b.steps
  pub start : b.start_step ≢ "" → has b.steps b.start_step ≡ true
  pub current : b.current_step ≢ "" → has b.steps b.current_step ≡ true

apply_option-IsClean :
    (option : StepOption) (def : StepDefinition) → IsClean def → IsClean (apply_option option def)
unfolding apply_option
apply_option-IsClean (with_step_max_retries n) def clean =
    if-keeps IsClean def.no_idempotent def (record def { max_retries = n }) (λ _. clean)
      (λ _. record { next = clean.next; on_failure = clean.on_failure; parallel = clean.parallel })
apply_option-IsClean (with_step_metadata m) def clean = record {
  next = clean.next;
  on_failure = clean.on_failure;
  parallel = clean.parallel;
}
apply_option-IsClean with_step_no_idempotent def clean = record {
  next = clean.next;
  on_failure = clean.on_failure;
  parallel = clean.parallel;
}
apply_option-IsClean (with_step_delay d) def clean = record {
  next = clean.next;
  on_failure = clean.on_failure;
  parallel = clean.parallel;
}
apply_option-IsClean (with_step_retry_delay d) def clean = record {
  next = clean.next;
  on_failure = clean.on_failure;
  parallel = clean.parallel;
}
apply_option-IsClean (with_step_timeout t) def clean = record {
  next = clean.next;
  on_failure = clean.on_failure;
  parallel = clean.parallel;
}
apply_option-IsClean (with_step_retry_strategy s) def clean = record {
  next = clean.next;
  on_failure = clean.on_failure;
  parallel = clean.parallel;
}

pub apply_options-IsClean :
    (options : List StepOption) (def : StepDefinition)
    → IsClean def
    → IsClean (apply_options options def)
unfolding apply_options
apply_options-IsClean [] def clean = clean
apply_options-IsClean (option ∷ options) def clean =
    apply_options-IsClean options (apply_option option def) (apply_option-IsClean option def clean)
