-- ===== src/Engine/Forks.antt =====
-- engine.go: which fork, which join and which branch a step belongs to.
-- The definition of an instance in the store, for the methods that load it and give up without it.
use floxy_pro.Prelude.{
  Bool, List, Option, String, [], any, contains, false, if◌then◌else◌, is_set, leb, length, nat_eq,
  none, not, some, string_eq, true, ℕ, ◌&&◌, ◌==◌, ◌||◌, ◌∷◌,
}
use floxy_pro.Engine.Walks.{
  answer_of, fork_of_parallel, is_fork, is_step_in_parallel_branch, is_unset_or_root, or_empty,
  rounds, visit_fork, walk,
}
use floxy_pro.Graph.{Steps}
use floxy_pro.Model.{StepDefinition, StepStatus, WorkflowDefinition, WorkflowStep}
use floxy_pro.Prelude.Maps.{Map, insert, lookup}
use floxy_pro.Store.DeadLetters.{is_join}
use floxy_pro.Store.Defs.{MemoryStore}

abbrev pub definition_of_instance : ℕ → MemoryStore → Option WorkflowDefinition
definition_of_instance id s = elim (lookup id s.instances) [
  | none ↦ none
  | some i ↦ lookup i.workflow_id s.definitions
]

abbrev pub fork_in : Option WorkflowDefinition → String → String
fork_in none name = ""
fork_in (some def) name = fork_of_parallel def.definition.steps name

unfoldable pub find_fork_step_for_parallel_step : ℕ → String → MemoryStore → String
unfolding fork_of_parallel
find_fork_step_for_parallel_step id name s = fork_in (definition_of_instance id s) name

unfoldable pub is_step_in_fork_branch : ℕ → String → MemoryStore → Bool
is_step_in_fork_branch id name s = not (find_fork_step_for_parallel_step id name s == "")

-- The fork whose branch holds a step, by its predecessors.
abbrev pub fork_behind : Steps → String → Option String
fork_behind steps prev =
    answer_of (walk (rounds steps) steps is_unset_or_root (visit_fork steps) [] prev)

abbrev pub terminal_in : ℕ → String → Steps → MemoryStore → Option StepDefinition → Bool
terminal_in id name steps s none = false
terminal_in id name steps s (some def) =
    not (is_join def.type)
    && leb (length def.next) 0
    && (is_step_in_fork_branch id name s || is_set (fork_behind steps def.prev))

unfoldable pub is_terminal_step_in_fork_branch : ℕ → String → Steps → MemoryStore → Bool
unfolding is_step_in_fork_branch find_fork_step_for_parallel_step fork_of_parallel
is_terminal_step_in_fork_branch id name steps s = terminal_in id name steps s (lookup name steps)

-- The first join among the steps that follow the fork.
unfoldable pub first_join : Steps → List String → String
first_join steps [] = ""
first_join steps (name ∷ names) =
    let later = first_join steps names in
    elim (lookup name steps) [ none ↦ later | some def ↦ if is_join def.type then name else later ]

abbrev pub join_after : Steps → String → String
join_after steps fork = elim (lookup fork steps) [
  | none ↦ ""
  | some def ↦ first_join steps def.next
]

abbrev pub fork_behind_step : Steps → String → String
fork_behind_step steps name = elim (lookup name steps) [
  | none ↦ ""
  | some def ↦ or_empty (fork_behind steps def.prev)
]

unfoldable pub find_join_step_for_fork_branch : ℕ → String → Steps → MemoryStore → String
unfolding find_fork_step_for_parallel_step fork_of_parallel first_join
find_join_step_for_fork_branch id name steps s =
    let direct = find_fork_step_for_parallel_step id name s in
    let fork = if direct == "" then fork_behind_step steps name else direct in
    if fork == "" then "" else join_after steps fork

-- The fork of the first waited-for step that is there and has one.
unfoldable pub fork_of_waited : ℕ → List WorkflowStep → MemoryStore → List String → String
unfolding find_fork_step_for_parallel_step
fork_of_waited id rows s [] = ""
fork_of_waited id rows s (name ∷ names) =
    let later = fork_of_waited id rows s names in
    let fork = find_fork_step_for_parallel_step id name s in
    if any (λ (row : WorkflowStep). row.step_name == name) rows && not (fork == "")
    then fork
    else later

abbrev pub is_pending_or_running : StepStatus → Bool
is_pending_or_running StepStatus.pending = true
is_pending_or_running StepStatus.running = true
is_pending_or_running _ = false

-- A step of a branch of the fork that is not done and that the join does not wait for by name.
abbrev pub holds_up : StepDefinition → StepDefinition → Steps → WorkflowStep → Bool
holds_up fork join steps row =
    is_pending_or_running row.status
    && is_step_in_parallel_branch row.step_name fork steps
    && not (contains join.wait_for row.step_name)

abbrev pub pending_under : StepDefinition → Steps → List WorkflowStep → Option StepDefinition → Bool
pending_under join steps rows none = false
pending_under join steps rows (some fork) = is_fork fork.type && any (holds_up fork join steps) rows

abbrev pub pending_in :
    StepDefinition → List WorkflowStep → String → Option WorkflowDefinition → Bool
pending_in join rows fork none = false
pending_in join rows fork (some def) =
    pending_under join def.definition.steps rows (lookup fork def.definition.steps)

unfoldable pub has_pending_steps_in_parallel_branches :
    ℕ → StepDefinition → List WorkflowStep → MemoryStore → Bool
unfolding fork_of_waited is_step_in_parallel_branch
has_pending_steps_in_parallel_branches id join rows s =
    let fork = fork_of_waited id rows s join.wait_for in
    not (fork == "") && pending_in join rows fork (definition_of_instance id s)

-- `stepMap[step.StepName] = &step` for the rows in their order: the last row of a name stays.
abbrev pub StepMap : Type 0
StepMap = Map String WorkflowStep

unfoldable pub step_map : List WorkflowStep → StepMap → StepMap
step_map [] m = m
step_map (row ∷ rows) m = step_map rows (insert row.step_name row m)

abbrev pub has_run : StepStatus → Bool
has_run StepStatus.completed = true
has_run StepStatus.failed = true
has_run StepStatus.compensation = true
has_run _ = false

abbrev pub ran : StepMap → String → Bool
ran rows name = elim (lookup name rows) [ none ↦ false | some row ↦ has_run row.status ]

pub data Branch : Type 0 where
  next_branch else_branch no_branch : Branch

unfoldable pub determine_executed_branch : StepDefinition → StepMap → Branch
determine_executed_branch def rows =
    if any (ran rows) def.next
    then next_branch
    else if not (def.else_branch == "") && ran rows def.else_branch
    then else_branch
    else no_branch
