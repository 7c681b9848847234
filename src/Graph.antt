-- ===== src/Graph.antt =====
-- builder.go: ValidateWorkflowDefinition, validateStepName, isVirtualStep and detectCycles.
pub mod Valid
pub mod Cycles
use Prim.Native.String.{len}
use text.Mathlib.Text.{starts_with}
use floxy_pro.Prelude.{
  Bool, List, Option, String, [], contains, false, if◌then◌else◌, is_set, length, ltb, nat_eq, none,
  not, some, string_eq, suc, true, zero, ℕ, ◌&&◌, ◌++◌, ◌==◌, ◌||◌, ◌∷◌,
}
use floxy_pro.Model.{StepDefinition, StepType, WorkflowDefinition}
use floxy_pro.Prelude.Maps.{Map, lookup}

abbrev pub root_step_name : String
root_step_name = "_root_"

-- `len(stepName) > 5 && stepName[:5] == "cond#"`
unfoldable pub is_virtual_step : String → Bool
is_virtual_step name = ltb 5 (len name) && starts_with name "cond#"

-- The errors of the validation, each with the names that its text holds.
pub data GraphError : Type 0 where
  name_required : GraphError
  name_is_root : GraphError
  name_is_virtual : GraphError
  unknown_step : String → String → GraphError
  unknown_compensation : String → String → GraphError
  unknown_else : String → String → GraphError
  unknown_parallel : String → String → GraphError
  unknown_wait_for : String → String → GraphError
  no_handler : String → GraphError
  cycle : String → String → GraphError
  out_of_fuel : GraphError

-- `error`: none is nil.
abbrev pub Check : Type 0
Check = Option GraphError

-- `if err := first; err != nil { return err }`, and then the rest.
infixr 20 ◌&then◌
abbrev pub ◌&then◌ : Check → Check → Check
none &then rest = rest
some e &then rest = some e

unfoldable pub validate_step_name : String → Check
unfolding is_virtual_step
validate_step_name name =
    if name == ""
    then some name_required
    else if name == root_step_name
    then some name_is_root
    else if is_virtual_step name
    then some name_is_virtual
    else none

abbrev pub Steps : Type 0
Steps = Map String StepDefinition

abbrev pub has : Steps → String → Bool
has steps name = is_set (lookup name steps)

-- A loop that ends with an error at the first name that is not known.
unfoldable pub all_known : Steps → (String → GraphError) → List String → Check
all_known steps error [] = none
all_known steps error (x ∷ xs) =
    let rest = all_known steps error xs in if has steps x then rest else some (error x)

-- The same, where virtual steps are skipped.
unfoldable pub all_known_or_virtual : Steps → (String → GraphError) → List String → Check
all_known_or_virtual steps error [] = none
all_known_or_virtual steps error (x ∷ xs) =
    let rest = all_known_or_virtual steps error xs in
    if is_virtual_step x || has steps x then rest else some (error x)

-- A reference that may be empty.
abbrev pub known_if_set : Steps → (String → GraphError) → String → Check
known_if_set steps error name = if name == "" || has steps name then none else some (error name)

abbrev pub is_task : StepType → Bool
is_task StepType.task = true
is_task _ = false

abbrev pub is_join_step : StepType → Bool
is_join_step StepType.join = true
is_join_step _ = false

-- The body of the loop over the steps.
unfoldable pub validate_step : Steps → String → StepDefinition → Check
unfolding all_known all_known_or_virtual validate_step_name
validate_step steps name def =
    validate_step_name name
    &then all_known steps (unknown_step name) def.next
    &then known_if_set steps (unknown_compensation name) def.on_failure
    &then known_if_set steps (unknown_else name) def.else_branch
    &then all_known_or_virtual steps (unknown_parallel name) def.parallel
    &then (if is_join_step def.type
        then all_known_or_virtual steps (unknown_wait_for name) def.wait_for
        else none)
    &then (if is_task def.type && def.handler == "" then some (no_handler name) else none)

unfoldable pub validate_steps : Steps → Steps → Check
validate_steps steps [] = none
validate_steps steps ((name, def) ∷ rest) =
    validate_step steps name def &then validate_steps steps rest

-- All outgoing targets of a step.
abbrev pub if_set : String → List String
if_set name = if name == "" then [] else name ∷ []

unfoldable pub outs : StepDefinition → List String
outs def =
    def.next
    ++ (if_set def.on_failure ++ (if_set def.else_branch ++ (def.parallel ++ def.wait_for)))

-- What the recursion returns: the error, and the names that `visited` holds as true. `recStack` is an
-- argument: a call that returns without an error has unset the one entry that it had set.
pub record Search : Type 0 where
  pub result : Check
  pub visited : List String

-- `next == "" || isVirtualStep(next)`, or no step of that name.
abbrev pub is_skipped : Steps → String → Bool
is_skipped steps next = next == "" || is_virtual_step next || not (has steps next)

-- The body of the loop over the targets of `current`, where `call` is the recursive call.
unfoldable pub probe :
    Steps → (List String → String → Search) → List String → String → List String → String → Search
probe steps call stack current visited next =
    if is_skipped steps next
    then record { result = none; visited = visited }
    else if contains visited next
    then record {
      result = if contains stack next then some (cycle current next) else none;
      visited = visited;
    }
    else call visited next

unfoldable pub probe_all : (List String → String → Search) → List String → List String → Search
probe_all body visited [] = record { result = none; visited = visited }
probe_all body visited (next ∷ rest) =
    let here = body visited next in
    elim here.result [ some e ↦ here | none ↦ probe_all body here.visited rest ]

-- The fuel bounds the depth of the calls.
unfoldable pub detect_cycles : ℕ → Steps → List String → List String → String → Search
detect_cycles zero steps visited stack current = record {
  result = some out_of_fuel;
  visited = visited;
}
detect_cycles (suc fuel) steps visited stack current =
    let inner =
      λ (v : List String) (next : String). detect_cycles fuel steps v (current ∷ stack) next in
    elim (lookup current steps) [
      | none ↦ record { result = none; visited = current ∷ visited }
      | some def ↦
          probe_all (probe steps inner (current ∷ stack) current) (current ∷ visited) (outs def)
    ]

-- One call more than there are steps.
unfoldable pub validate_workflow_definition : WorkflowDefinition → Check
unfolding validate_steps
validate_workflow_definition def =
    let steps = def.definition.steps in
    validate_steps steps steps
    &then (detect_cycles (suc (length steps)) steps [] [] def.definition.start).result
