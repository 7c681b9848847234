-- ===== src/Store/Joins.antt =====
-- memory_store.go: CreateJoinState, UpdateJoinState, GetJoinState, AddToJoinWaitFor,
-- ReplaceInJoinWaitFor and checkJoinReady, with the mutex: AddToJoinWaitFor and
-- ReplaceInJoinWaitFor call CreateJoinState while they hold it. A join state has a list of its own:
-- the slice that the code's CreateJoinState shares with its caller is not modelled as shared.
pub mod Names
pub mod Reports
pub mod Ready
pub mod Outcome
pub mod Mutex
use floxy_pro.Prelude.{
  Bool, List, Option, String, [], contains, false, find?, if◌then◌else◌, leb, length, ltb, nat_eq,
  none, pair_eq, some, string_eq, true, ℕ, ◌++◌, ◌+◌, ◌==◌, ◌||◌, ◌∷◌,
}
use floxy_pro.Model.{JoinState, JoinStrategy, StepStatus, Time, WorkflowStep}
use floxy_pro.Prelude.Maps.{insert, lookup}
use floxy_pro.Store.Defs.{JoinKey, MemoryStore, Op, Result, entity_not_found, err, found, ok}
use floxy_pro.Store.Steps.{steps_of}

unfoldable pub join_state_key : ℕ → String → JoinKey
join_state_key instance_id join_step_name = (instance_id, join_step_name)

-- A call that takes the mutex, which is not reentrant: `deadlock` is a call that never returns.
pub data Locked (A : Type 0) : Type 0 where
  returns : Result A → MemoryStore → Locked A
  deadlock : Locked A

-- `s.mu.Lock(); defer s.mu.Unlock()` round a body, called by a goroutine that holds the mutex or not.
abbrev pub with_lock : {A : Type 0} → Bool → (MemoryStore → Locked A) → MemoryStore → Locked A
with_lock true body s = deadlock
with_lock false body s = body s

-- `state, exists := s.joinStates[key]`, with what is done with the state, or without one.
abbrev pub if_joined : {A : Type 0} → Option JoinState → (JoinState → A) → A → A
if_joined none with_state missing = missing
if_joined (some state) with_state missing = with_state state

unfoldable pub check_join_ready : List String → List String → List String → JoinStrategy → Bool
check_join_ready waiting_for completed failed JoinStrategy.any =
    ltb 0 (length completed) || ltb 0 (length failed)
check_join_ready waiting_for completed failed _ =
    leb (length waiting_for) (length completed + length failed)

abbrev pub or_all : JoinStrategy → JoinStrategy
or_all JoinStrategy.unset = JoinStrategy.all
or_all JoinStrategy.all = JoinStrategy.all
or_all JoinStrategy.any = JoinStrategy.any
or_all (JoinStrategy.other text) = JoinStrategy.other text

abbrev pub new_join_state : ℕ → String → List String → JoinStrategy → Time → JoinState
new_join_state instance_id name waiting_for strategy now = record {
  instance_id = instance_id;
  join_step_name = name;
  waiting_for = waiting_for;
  completed = [];
  failed = [];
  join_strategy = or_all strategy;
  is_ready = false;
  created_at = now;
  updated_at = now;
}

unfoldable pub create_join_state :
    Bool → ℕ → String → List String → JoinStrategy → Time → MemoryStore → Locked Unit
unfolding join_state_key
create_join_state held instance_id name waiting_for strategy now = with_lock held λ s.
    let key = join_state_key instance_id name in
    let state = new_join_state instance_id name waiting_for strategy now in
    if_joined (lookup key s.join_states) (λ _. returns (ok tt) s)
      (returns (ok tt) (record s { join_states = insert key state s.join_states }))

-- `append` unless a loop finds the name.
abbrev pub add_name : String → List String → List String
add_name x xs = if contains xs x then xs else xs ++ x ∷ []

-- The first occurrence taken out of the slice.
unfoldable pub remove_name : String → List String → List String
remove_name x [] = []
remove_name x (y ∷ ys) = if y == x then ys else y ∷ remove_name x ys

abbrev pub settle : JoinState → JoinState
settle state = record state {
  is_ready = check_join_ready state.waiting_for state.completed state.failed state.join_strategy;
}

-- The body of UpdateJoinState: a step is moved into one list and out of the other.
unfoldable pub record_result : String → Bool → Time → JoinState → JoinState
unfolding remove_name
record_result step true now state = settle (record state {
  completed = add_name step state.completed;
  failed = remove_name step state.failed;
  updated_at = now;
})
record_result step false now state = settle (record state {
  failed = add_name step state.failed;
  completed = remove_name step state.completed;
  updated_at = now;
})

unfoldable pub update_join_state : ℕ → String → String → Bool → Time → Op Bool
unfolding record_result join_state_key
update_join_state instance_id name step success now s =
    let key = join_state_key instance_id name in
    if_joined (lookup key s.join_states)
      (λ state.
        let updated = record_result step success now state in
        (ok updated.is_ready, record s { join_states = insert key updated s.join_states }))
      (err entity_not_found, s)

unfoldable pub get_join_state : ℕ → String → Op JoinState
unfolding join_state_key
get_join_state instance_id name s =
    (found (lookup (join_state_key instance_id name) s.join_states), s)

abbrev pub wait_also : String → Time → JoinState → JoinState
wait_also step now state =
    settle (record state { waiting_for = state.waiting_for ++ step ∷ []; updated_at = now })

unfoldable pub add_to_join_wait_for : Bool → ℕ → String → String → Time → MemoryStore → Locked Unit
unfolding create_join_state
add_to_join_wait_for held instance_id name step now = with_lock held λ s.
    let key = join_state_key instance_id name in
    if_joined (lookup key s.join_states)
      (λ state.
        if contains state.waiting_for step
        then returns (ok tt) s
        else returns (ok tt)
            (record s { join_states = insert key (wait_also step now state) s.join_states }))
      (create_join_state true instance_id name (step ∷ []) JoinStrategy.all now s)

-- The first occurrence of `old` replaced, or `new` appended.
unfoldable pub replace_name : String → String → List String → List String
replace_name old new [] = new ∷ []
replace_name old new (x ∷ xs) = if x == old then new ∷ xs else x ∷ replace_name old new xs

-- What a step that has run already adds to the two lists.
abbrev pub catch_up : String → StepStatus → JoinState → JoinState
catch_up step StepStatus.completed state = record state { completed = state.completed ++ step ∷ [] }
catch_up step StepStatus.failed state = record state { failed = state.failed ++ step ∷ [] }
catch_up step StepStatus.rolled_back state = record state { failed = state.failed ++ step ∷ [] }
catch_up step _ state = state

abbrev pub catch_up_with : String → Option WorkflowStep → JoinState → JoinState
catch_up_with step none state = state
catch_up_with step (some row) state =
    if contains state.completed step || contains state.failed step
    then state
    else catch_up step row.status state

abbrev pub wait_instead : String → String → Option WorkflowStep → Time → JoinState → JoinState
wait_instead old new row now state =
    settle
      (record (catch_up_with new row
        (record state { waiting_for = replace_name old new state.waiting_for })) {
          updated_at = now;
        })

unfoldable pub replace_in_join_wait_for :
    Bool → ℕ → String → String → String → Time → MemoryStore → Locked Unit
unfolding create_join_state replace_name
replace_in_join_wait_for held instance_id name old new now = with_lock held λ s.
    let key = join_state_key instance_id name in
    let row = find? (λ step. step.step_name == new) (steps_of instance_id s) in
    if_joined (lookup key s.join_states)
      (λ state.
        returns (ok tt) (record s {
          join_states = insert key (wait_instead old new row now state) s.join_states;
        }))
      (create_join_state true instance_id name (new ∷ []) JoinStrategy.all now s)
