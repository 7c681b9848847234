-- ===== src/Graph/Valid.antt =====
-- ValidateWorkflowDefinition: what a definition without an error is.
use floxy_pro.Prelude.{
  All, Bool-cases, List, String, [], arith, contains, false, if◌then◌else◌, inl, inr, length,
  nat_eq, none, refl, some, str_iff, string_eq, subst, suc, true, ◌&&◌, ◌==◌, ◌||◌, ◌↔◌, ◌∷◌, ◌≡◌,
  ◌≢◌,
}
use floxy_pro.Graph.{
  Check, GraphError, Steps, all_known, all_known_or_virtual, has, is_join_step, is_task,
  is_virtual_step, known_if_set, no_handler, root_step_name, unknown_compensation, unknown_else,
  unknown_parallel, unknown_step, unknown_wait_for, validate_step, validate_step_name,
  validate_steps, validate_workflow_definition, ◌&then◌,
}
use floxy_pro.Graph.Cycles.{IsAcyclic, detect_cycles-IsAcyclic}
use floxy_pro.Graph.Cycles.Decided.{IsAcyclic-detect_cycles}
use floxy_pro.Model.{StepDefinition, StepType, WorkflowDefinition}

abbrev pub IsKnown : Steps → List String → Type 0
IsKnown steps names = (x : String) → contains names x ≡ true → has steps x ≡ true

abbrev pub IsKnownOrVirtual : Steps → List String → Type 0
IsKnownOrVirtual steps names =
    (x : String) → contains names x ≡ true → (is_virtual_step x || has steps x) ≡ true

all_known_iff :
    (steps : Steps) (error : String → GraphError) (names : List String)
    → (all_known steps error names ≡ none) ↔ IsKnown steps names
unfolding all_known
all_known_iff steps error [] = (λ _ x c. cc, λ _. refl)
all_known_iff steps error (x ∷ xs) = (
  λ e y c. elim (Bool-cases (has steps x)) [
    | inl known ↦ elim (Bool-cases (x == y)) [
      | inl same ↦ subst (λ z. has steps z ≡ true) ((str_iff x y).0 same) known
      | inr other ↦ (all_known_iff steps error xs).0 (rw known at e) y (rw other at c)
    ]
    | inr unknown ↦ absurd (cc (rw unknown at e))
  ],
  λ all.
      let rest = (all_known_iff steps error xs).1 (λ y c. all y (ground (arith, c))) in
      rw (all x (ground (arith, str_iff x x))) rest,
)

all_known_or_virtual_iff :
    (steps : Steps) (error : String → GraphError) (names : List String)
    → (all_known_or_virtual steps error names ≡ none) ↔ IsKnownOrVirtual steps names
unfolding all_known_or_virtual
all_known_or_virtual_iff steps error [] = (λ _ x c. cc, λ _. refl)
all_known_or_virtual_iff steps error (x ∷ xs) = (
  λ e y c. elim (Bool-cases (is_virtual_step x || has steps x)) [
    | inl known ↦ elim (Bool-cases (x == y)) [
      | inl same ↦
          subst (λ z. (is_virtual_step z || has steps z) ≡ true) ((str_iff x y).0 same) known
      | inr other ↦ (all_known_or_virtual_iff steps error xs).0 (rw known at e) y (rw other at c)
    ]
    | inr unknown ↦ absurd (cc (rw unknown at e))
  ],
  λ all.
      let rest = (all_known_or_virtual_iff steps error xs).1 (λ y c. all y (ground (arith, c))) in
      rw (all x (ground (arith, str_iff x x))) rest,
)

-- What is asked of a step and of the name that it stands under.
pub record IsWellFormed (steps : Steps) (name : String) (def : StepDefinition) : Type 0 where
  pub name_set : name ≢ ""
  pub not_root : name ≢ root_step_name
  pub not_virtual : is_virtual_step name ≡ false
  pub next_known : IsKnown steps def.next
  pub compensation_known : def.on_failure ≢ "" → has steps def.on_failure ≡ true
  pub else_known : def.else_branch ≢ "" → has steps def.else_branch ≡ true
  pub parallel_known : IsKnownOrVirtual steps def.parallel
  pub wait_for_known : def.type ≡ StepType.join → IsKnownOrVirtual steps def.wait_for
  pub handler_set : def.type ≡ StepType.task → def.handler ≢ ""

and_then_iff : (c d : Check) → (c &then d ≡ none) ↔ ((c ≡ none) × (d ≡ none))
and_then_iff none d = (λ e. (refl, e), λ p. p.1)
and_then_iff (some e) d = (λ f. absurd (cc), λ p. absurd (cc))

validate_step_name_iff :
    (name : String)
    → (validate_step_name name ≡ none)
      ↔ ((name ≢ "") × (name ≢ root_step_name) × (is_virtual_step name ≡ false))
unfolding validate_step_name
validate_step_name_iff name = ground (arith, str_iff name "", str_iff name root_step_name)

known_if_set_iff :
    (steps : Steps) (error : String → GraphError) (name : String)
    → (known_if_set steps error name ≡ none) ↔ (name ≢ "" → has steps name ≡ true)
known_if_set_iff steps error name = ground (arith, str_iff name "")

is_join_step_iff : (t : StepType) → (is_join_step t ≡ true) ↔ (t ≡ StepType.join)
is_join_step_iff StepType.task = (λ e. absurd (cc e), λ e. absurd (cc e))
is_join_step_iff StepType.parallel = (λ e. absurd (cc e), λ e. absurd (cc e))
is_join_step_iff StepType.condition = (λ e. absurd (cc e), λ e. absurd (cc e))
is_join_step_iff StepType.fork = (λ e. absurd (cc e), λ e. absurd (cc e))
is_join_step_iff StepType.join = (λ _. refl, λ _. refl)
is_join_step_iff StepType.save_point = (λ e. absurd (cc e), λ e. absurd (cc e))
is_join_step_iff StepType.human = (λ e. absurd (cc e), λ e. absurd (cc e))
is_join_step_iff (StepType.other s) = (λ e. absurd (cc e), λ e. absurd (cc e))

is_task_iff : (t : StepType) → (is_task t ≡ true) ↔ (t ≡ StepType.task)
is_task_iff StepType.task = (λ _. refl, λ _. refl)
is_task_iff StepType.parallel = (λ e. absurd (cc e), λ e. absurd (cc e))
is_task_iff StepType.condition = (λ e. absurd (cc e), λ e. absurd (cc e))
is_task_iff StepType.fork = (λ e. absurd (cc e), λ e. absurd (cc e))
is_task_iff StepType.join = (λ e. absurd (cc e), λ e. absurd (cc e))
is_task_iff StepType.save_point = (λ e. absurd (cc e), λ e. absurd (cc e))
is_task_iff StepType.human = (λ e. absurd (cc e), λ e. absurd (cc e))
is_task_iff (StepType.other s) = (λ e. absurd (cc e), λ e. absurd (cc e))

wait_for_iff :
    (steps : Steps) (name : String) (def : StepDefinition)
    → ((if is_join_step def.type
          then all_known_or_virtual steps (unknown_wait_for name) def.wait_for
          else none)
        ≡ none)
      ↔ (def.type ≡ StepType.join → IsKnownOrVirtual steps def.wait_for)
wait_for_iff steps name def =
    let known = all_known_or_virtual_iff steps (unknown_wait_for name) def.wait_for in
    let join_lem = is_join_step_iff def.type in
    elim (Bool-cases (is_join_step def.type)) [
      | inl joins ↦ rw joins (λ e j. known.0 e, λ all. known.1 (all (join_lem.0 joins)))
      | inr else_type ↦ rw else_type (λ e j. absurd (cc (join_lem.1 j, else_type)), λ all. refl)
    ]

handler_iff :
    (name : String) (def : StepDefinition)
    → ((if is_task def.type && def.handler == "" then some (no_handler name) else none) ≡ none)
      ↔ (def.type ≡ StepType.task → def.handler ≢ "")
handler_iff name def = ground (arith, is_task_iff def.type, str_iff def.handler "")

validate_step_iff :
    (steps : Steps) (name : String) (def : StepDefinition)
    → (validate_step steps name def ≡ none) ↔ IsWellFormed steps name def
unfolding validate_step
validate_step_iff steps name def = (
  λ e.
      let (n, e1) = (and_then_iff _ _).0 e in
      let (x, e2) = (and_then_iff _ _).0 e1 in
      let (c, e3) = (and_then_iff _ _).0 e2 in
      let (l, e4) = (and_then_iff _ _).0 e3 in
      let (p, e5) = (and_then_iff _ _).0 e4 in
      let (w, h) = (and_then_iff _ _).0 e5 in
      let (n0, n1, n2) = (validate_step_name_iff name).0 n in
      record {
        name_set = n0;
        not_root = n1;
        not_virtual = n2;
        next_known = (all_known_iff steps (unknown_step name) def.next).0 x;
        compensation_known =
            (known_if_set_iff steps (unknown_compensation name) def.on_failure).0 c;
        else_known = (known_if_set_iff steps (unknown_else name) def.else_branch).0 l;
        parallel_known = (all_known_or_virtual_iff steps (unknown_parallel name) def.parallel).0 p;
        wait_for_known = (wait_for_iff steps name def).0 w;
        handler_set = (handler_iff name def).0 h;
      },
  λ good. (and_then_iff _ _).1 (
    (validate_step_name_iff name).1 (good.name_set, good.not_root, good.not_virtual),
    (and_then_iff _ _).1 (
      (all_known_iff steps (unknown_step name) def.next).1 good.next_known,
      (and_then_iff _ _).1 (
        (known_if_set_iff steps (unknown_compensation name) def.on_failure).1
            good.compensation_known,
        (and_then_iff _ _).1 (
          (known_if_set_iff steps (unknown_else name) def.else_branch).1 good.else_known,
          (and_then_iff _ _).1 (
            (all_known_or_virtual_iff steps (unknown_parallel name) def.parallel).1
                good.parallel_known,
            (and_then_iff _ _).1 (
              (wait_for_iff steps name def).1 good.wait_for_known,
              (handler_iff name def).1 good.handler_set,
            ),
          ),
        ),
      ),
    ),
  ),
)

abbrev pub AllWellFormed : Steps → Steps → Type 0
AllWellFormed steps = All (λ entry. IsWellFormed steps entry.0 entry.1)

validate_steps_iff :
    (steps rest : Steps) → (validate_steps steps rest ≡ none) ↔ AllWellFormed steps rest
unfolding validate_steps
validate_steps_iff steps [] = (λ _. tt, λ _. refl)
validate_steps_iff steps ((name, def) ∷ rest) = (
  λ e.
      let (here, e1) = (and_then_iff _ _).0 e in
      ((validate_step_iff steps name def).0 here, (validate_steps_iff steps rest).0 e1),
  λ all.
      (and_then_iff _ _).1
        ((validate_step_iff steps name def).1 all.0, (validate_steps_iff steps rest).1 all.1),
)

-- The validation passes exactly the definitions whose steps are all well formed, each under its name,
-- and from whose start no path of links is infinite. A step is well formed when its name is not empty,
-- reserved or virtual, when the steps that it names as next, as compensation, as the else branch, as
-- parallel or, for a join, as waited for exist (the last two may also be virtual), and when a task has
-- a handler.
pub validate_workflow_definition_iff :
    (def : WorkflowDefinition)
    → (validate_workflow_definition def ≡ none) ↔ (
        AllWellFormed def.definition.steps def.definition.steps
        × IsAcyclic def.definition.steps def.definition.start)
unfolding validate_workflow_definition
validate_workflow_definition_iff def =
    let steps = def.definition.steps in
    (
      λ e.
          let (here, ended) = (and_then_iff _ _).0 e in
          (
            (validate_steps_iff steps steps).0 here,
            detect_cycles-IsAcyclic steps (suc (length steps)) def.definition.start ended,
          ),
      λ p.
          (and_then_iff _ _).1
            ((validate_steps_iff steps steps).1 p.0, IsAcyclic-detect_cycles steps _ p.1),
    )
