-- ===== src/Engine/Walks.antt =====
-- engine.go: the searches that follow the Prev links of a definition.
-- `for !ends(current) { if visited[current] { break }; visited[current] = true; … }`: a step of the
-- loop finds an answer or names the step that follows. The fuel bounds the rounds.
pub mod Rounds
use floxy_pro.Prelude.{
  Bool, List, Option, String, [], any, contains, false, if◌then◌else◌, inl, inr, is_set, length,
  nat_eq, none, not, some, string_eq, suc, true, zero, ℕ, ◌&&◌, ◌==◌, ◌||◌, ◌∷◌, ◌⊎◌,
}
use floxy_pro.Graph.{Steps, root_step_name}
use floxy_pro.Model.{StepDefinition, StepType}
use floxy_pro.Prelude.Maps.{lookup}
use floxy_pro.Store.Queue.{visit}

-- How a loop ends; the last is a loop that has not ended within its fuel.
pub data Walked {ℓ} (A : Type ℓ) : Type ℓ where
  answered : A → Walked A
  left_off : Walked A
  out_of_rounds : Walked A

unfoldable pub walk {ℓ} :
    {A : Type ℓ}
    → ℕ
    → Steps
    → (String → Bool)
    → (String → StepDefinition → A ⊎ String)
    → List String
    → String
    → Walked A
walk zero steps ends visit visited current = out_of_rounds
walk (suc fuel) steps ends visit visited current = elim (ends current || contains visited current) [
  | true ↦ left_off
  | false ↦ elim (lookup current steps) [
    | none ↦ left_off
    | some def ↦ elim (visit current def) [
      | inl a ↦ answered a
      | inr next ↦ walk fuel steps ends visit (current ∷ visited) next
    ]
  ]
]

-- What the code after a loop sees of it.
abbrev pub answer_of {ℓ} : {A : Type ℓ} → Walked A → Option A
answer_of (answered a) = some a
answer_of left_off = none
answer_of out_of_rounds = none

abbrev pub is_unset : String → Bool
is_unset name = name == ""

-- `current != "" && current != rootStepName`
abbrev pub is_unset_or_root : String → Bool
is_unset_or_root name = name == "" || name == root_step_name

-- Enough rounds for every step of the definition.
abbrev pub rounds : Steps → ℕ
rounds steps = suc (length steps)

abbrev pub or_empty : Option String → String
or_empty none = ""
or_empty (some name) = name

abbrev pub is_condition : StepType → Bool
is_condition StepType.condition = true
is_condition _ = false

abbrev pub is_fork : StepType → Bool
is_fork StepType.fork = true
is_fork _ = false

abbrev pub is_parallel : StepType → Bool
is_parallel StepType.parallel = true
is_parallel _ = false

abbrev pub is_save_point : StepType → Bool
is_save_point StepType.save_point = true
is_save_point _ = false

abbrev pub visit_condition : String → StepDefinition → String ⊎ String
visit_condition name def = if is_condition def.type then inl name else inr def.prev

unfoldable pub find_condition_step_in_branch : StepDefinition → Steps → String
unfolding walk
find_condition_step_in_branch def steps =
    or_empty (answer_of (walk (rounds steps) steps is_unset_or_root visit_condition [] def.prev))

abbrev pub visit_ancestor : String → String → StepDefinition → Bool ⊎ String
visit_ancestor ancestor name def = if name == ancestor then inl true else inr def.prev

unfoldable pub is_step_descendant_of : String → String → Steps → Bool
unfolding walk
is_step_descendant_of name ancestor steps =
    is_set (answer_of (walk (rounds steps) steps is_unset (visit_ancestor ancestor) [] name))

unfoldable pub is_step_in_parallel_branch : String → StepDefinition → Steps → Bool
is_step_in_parallel_branch name fork steps =
    contains fork.parallel name || any (λ p. is_step_descendant_of name p steps) fork.parallel

-- The first definition, in the order of the map, that has a predecessor.
unfoldable pub with_prev : Steps → StepDefinition → StepDefinition
with_prev [] def = def
with_prev ((name, other) ∷ rest) def =
    let found_later = with_prev rest def in if other.prev == "" then found_later else other

abbrev pub visit_save_point : Steps → String → StepDefinition → String ⊎ String
visit_save_point steps name def =
    let seen = if def.prev == "" then with_prev steps def else def in
    if is_save_point seen.type then inl name else inr seen.prev

abbrev pub or_root : Option String → String
or_root none = root_step_name
or_root (some name) = name

unfoldable pub find_nearest_save_point : String → Steps → String
unfolding walk with_prev
find_nearest_save_point name steps =
    or_root (answer_of (walk (rounds steps) steps is_unset (visit_save_point steps) [] name))

-- The forks that have the name among their parallel steps: the first in the order of the map.
unfoldable pub fork_of_parallel : Steps → String → String
fork_of_parallel [] name = ""
fork_of_parallel ((fork_name, def) ∷ rest) name =
    let later = fork_of_parallel rest name in
    if is_fork def.type && contains def.parallel name then fork_name else later

abbrev pub visit_fork : Steps → String → StepDefinition → String ⊎ String
visit_fork steps name def =
    let fork = fork_of_parallel steps name in
    if is_fork def.type then inl name else if not (fork == "") then inl fork else inr def.prev
