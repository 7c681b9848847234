-- ===== src/Engine/Leaves.antt =====
-- Actions that do not block and leave the instances of the store as they are.
pub mod Rollback
use floxy_pro.Prelude.{
  Bool, List, Option, String, [], false, inl, inr, nat_eq, none, refl, some, string_eq, subst, suc,
  sym, true, ℕ, ◌∙◌, ◌∷◌, ◌≡◌, ◌⊎◌,
}
use floxy_pro.Engine.Env.{Env, Payload, log}
use floxy_pro.Engine.Env.Logged.{log_lem}
use floxy_pro.Engine.Monad.{
  Action, Fault, Run, after_run, attempt, blocked, call, choose, failed, failed_within, fold_each,
  for_each, for_each_from, from_result, ignore, inside, on_either, on_option, on_result, or_raise,
  pure, raise, reads, recover, returned, settled, store_error, when, within, ◌>>=◌,
}
use floxy_pro.Model.{DeadLetterRecord, Duration, Priority, RawMessage, StepStatus, Time}
use floxy_pro.Prelude.Maps.{lookup}
use floxy_pro.Store.DeadLetters.{create_dead_letter_record}
use floxy_pro.Store.Definitions.{get_workflow_definition}
use floxy_pro.Store.Defs.{Error, MemoryStore, Op, Result, err, if_found-keeps, ok}
use floxy_pro.Store.Instances.{get_instance}
use floxy_pro.Store.Queue.{enqueue_step}
use floxy_pro.Store.Steps.{
  get_steps_by_instance, present, update_step, update_step_compensation_retry,
}

abbrev pub LeavesRun : {A : Type 0} → MemoryStore → Run A → Type 0
LeavesRun s (returned a t) = t.instances ≡ s.instances
LeavesRun s (failed e t) = t.instances ≡ s.instances
LeavesRun s blocked = ⊥

pub record Leaves {A : Type 0} (m : Action A) : Type 0 where
  pub run : (s : MemoryStore) → LeavesRun s (m s)

-- The same of a call of the store.
pub record LeavesOp {A : Type 0} (op : Op A) : Type 0 where
  pub run : (s : MemoryStore) → (op s).1.instances ≡ s.instances

pub pure-Leaves : {A : Type 0} (a : A) → Leaves (pure a)
unfolding pure
pure-Leaves a = record { run = λ s. refl }

pub bind-Leaves :
    {A B : Type 0} (m : Action A) (f : A → Action B)
    → Leaves m
    → ((a : A) → Leaves (f a))
    → Leaves (m >>= f)
unfolding ◌>>=◌
bind-Leaves {A} {B} m f first rest = record { run = λ s. go s (m s) (first.run s) }
  where
    after :
        (s t : MemoryStore) (r : Run B) → t.instances ≡ s.instances → LeavesRun t r → LeavesRun s r
    after s t (returned b u) e h = h ∙ e
    after s t (failed x u) e h = h ∙ e
    after s t blocked e h = absurd h

    go : (s : MemoryStore) (r : Run A) → LeavesRun s r → LeavesRun s (after_run r f)
    go s (returned a t) e = after s t (f a t) e ((rest a).run t)
    go s (failed x t) e = e
    go s blocked h = absurd h

pub call-Leaves :
    {A : Type 0} (context : String) (op : Op A) → LeavesOp op → Leaves (call context op)
unfolding call
call-Leaves {A} context op leaves = record { run = λ s. go s (op s) (leaves.run s) }
  where
    go :
        (s : MemoryStore) (r : Result A × MemoryStore)
        → r.1.instances ≡ s.instances
        → LeavesRun s (from_result (λ e. within context (store_error e)) r)
    go s (ok a, t) e = e
    go s (err x, t) e = e

pub attempt-Leaves : {A : Type 0} (op : Op A) → LeavesOp op → Leaves (attempt op)
unfolding attempt
attempt-Leaves op leaves = record { run = λ s. leaves.run s }

pub ignore-Leaves : {A : Type 0} (op : Op A) → LeavesOp op → Leaves (ignore op)
unfolding ignore
ignore-Leaves op leaves = record { run = λ s. leaves.run s }

pub when-Leaves : (c : Bool) (m : Action Unit) → Leaves m → Leaves (when c m)
unfolding when
when-Leaves true m leaves = leaves
when-Leaves false m leaves = pure-Leaves tt

pub for_each-Leaves :
    {A : Type 0} (xs : List A) (body : A → Action Unit)
    → ((a : A) → Leaves (body a))
    → Leaves (for_each xs body)
unfolding for_each
for_each-Leaves [] body each = pure-Leaves tt
for_each-Leaves (x ∷ xs) body each =
    bind-Leaves (body x) _ (each x) (λ _. for_each-Leaves xs body each)

pub for_each_from-Leaves :
    {A : Type 0} (i : ℕ) (xs : List A) (body : ℕ → A → Action Unit)
    → ((k : ℕ) (a : A) → Leaves (body k a))
    → Leaves (for_each_from i xs body)
unfolding for_each_from
for_each_from-Leaves i [] body each = pure-Leaves tt
for_each_from-Leaves i (x ∷ xs) body each =
    bind-Leaves (body i x) _ (each i x) (λ _. for_each_from-Leaves (suc i) xs body each)

pub on_result-Leaves :
    {A B : Type 0} (r : Result A) (failure : Error → Action B) (success : A → Action B)
    → ((e : Error) → Leaves (failure e))
    → ((a : A) → Leaves (success a))
    → Leaves (on_result r failure success)
unfolding on_result
on_result-Leaves (ok a) failure success f g = g a
on_result-Leaves (err e) failure success f g = f e

pub recover-Leaves : {A : Type 0} (m : Action A) → Leaves m → Leaves (recover m)
unfolding recover
recover-Leaves {A} m leaves = record { run = λ s. go s (m s) (leaves.run s) }
  where
    go : (s : MemoryStore) (r : Run A) → LeavesRun s r → LeavesRun s (settled r)
    go s (returned a t) e = e
    go s (failed x t) e = e
    go s blocked e = absurd e

pub raise-Leaves : {A : Type 0} (e : Fault) → Leaves (raise {A = A} e)
unfolding raise
raise-Leaves e = record { run = λ s. refl }

pub reads-Leaves : {A : Type 0} (f : MemoryStore → A) → Leaves (reads f)
unfolding reads
reads-Leaves f = record { run = λ s. refl }

pub inside-Leaves :
    {A : Type 0} (context : String) (m : Action A) → Leaves m → Leaves (inside context m)
unfolding inside
inside-Leaves {A} context m leaves = record { run = λ s. go s (m s) (leaves.run s) }
  where
    go : (s : MemoryStore) (r : Run A) → LeavesRun s r → LeavesRun s (failed_within context r)
    go s (returned a t) e = e
    go s (failed x t) e = e
    go s blocked e = absurd e

pub or_raise-Leaves : {A : Type 0} (o : Option A) (e : Fault) → Leaves (or_raise o e)
unfolding or_raise
or_raise-Leaves none e = raise-Leaves e
or_raise-Leaves (some a) e = pure-Leaves a

pub choose-Leaves :
    {A : Type 0} (c : Bool) (m n : Action A) → Leaves m → Leaves n → Leaves (choose c m n)
unfolding choose
choose-Leaves true m n a b = a
choose-Leaves false m n a b = b

pub fold_each-Leaves :
    {A B : Type 0} (xs : List A) (b : B) (body : B → A → Action B)
    → ((c : B) (a : A) → Leaves (body c a))
    → Leaves (fold_each xs b body)
unfolding fold_each
fold_each-Leaves [] b body each = pure-Leaves b
fold_each-Leaves (x ∷ xs) b body each =
    bind-Leaves (body b x) _ (each b x) (λ c. fold_each-Leaves xs c body each)

pub on_option-Leaves :
    {A B : Type 0} (o : Option A) (missing : Action B) (present : A → Action B)
    → Leaves missing
    → ((a : A) → Leaves (present a))
    → Leaves (on_option o missing present)
unfolding on_option
on_option-Leaves none missing present f g = f
on_option-Leaves (some a) missing present f g = g a

pub on_either-Leaves :
    {E A B : Type 0} (r : E ⊎ A) (failure : E → Action B) (success : A → Action B)
    → ((e : E) → Leaves (failure e))
    → ((a : A) → Leaves (success a))
    → Leaves (on_either r failure success)
unfolding on_either
on_either-Leaves (inl e) failure success f g = f e
on_either-Leaves (inr a) failure success f g = g a

pub log-Leaves :
    (env : Env) (id : ℕ) (step : Option ℕ) (event : String) (payload : Payload)
    → Leaves (log env id step event payload)
log-Leaves env id step event payload = record {
  run = λ s.
      let (u, written) = log_lem env id step event payload s in
      subst (LeavesRun s) (sym written) refl;
}

pub get_steps_by_instance-LeavesOp : (id : ℕ) → LeavesOp (get_steps_by_instance id)
unfolding get_steps_by_instance
get_steps_by_instance-LeavesOp id = record { run = λ s. refl }

pub get_instance-LeavesOp : (id : ℕ) → LeavesOp (get_instance id)
unfolding get_instance
get_instance-LeavesOp id = record { run = λ s. refl }

pub get_workflow_definition-LeavesOp : (id : String) → LeavesOp (get_workflow_definition id)
unfolding get_workflow_definition
get_workflow_definition-LeavesOp id = record { run = λ s. refl }

pub update_step-LeavesOp :
    (id : ℕ) (status : StepStatus) (output : RawMessage) (error : Option String) (now : Time)
    → LeavesOp (update_step id status output error now)
unfolding update_step
update_step-LeavesOp id status output error now = record {
  run = λ s. if_found-keeps (λ t. t.instances ≡ s.instances) (lookup id s.steps) s _ refl refl;
}

pub update_step_compensation_retry-LeavesOp :
    (id retries : ℕ) (status : StepStatus)
    → LeavesOp (update_step_compensation_retry id retries status)
unfolding update_step_compensation_retry
update_step_compensation_retry-LeavesOp id retries status = record {
  run = λ s. if_found-keeps (λ t. t.instances ≡ s.instances) (lookup id s.steps) s _ refl refl;
}

pub enqueue_step-LeavesOp :
    (id : ℕ) (step : Option ℕ) (priority : Priority) (delay : Duration) (now : Time)
    → LeavesOp (enqueue_step id step priority delay now)
unfolding enqueue_step
enqueue_step-LeavesOp id step priority delay now = record { run = λ s. refl }

pub create_dead_letter_record-LeavesOp :
    (letter : DeadLetterRecord) (now : Time) → LeavesOp (create_dead_letter_record letter now)
unfolding create_dead_letter_record
create_dead_letter_record-LeavesOp letter now = record { run = λ s. refl }

pub ruleset leaves_rules = (
  pure-Leaves, bind-Leaves, call-Leaves, attempt-Leaves, ignore-Leaves, when-Leaves,
  for_each-Leaves, for_each_from-Leaves, on_result-Leaves, log-Leaves,
  get_steps_by_instance-LeavesOp, get_instance-LeavesOp, get_workflow_definition-LeavesOp,
  update_step-LeavesOp, update_step_compensation_retry-LeavesOp, enqueue_step-LeavesOp,
  create_dead_letter_record-LeavesOp, recover-Leaves, raise-Leaves, reads-Leaves, inside-Leaves,
  or_raise-Leaves, choose-Leaves, fold_each-Leaves, on_option-Leaves, on_either-Leaves,
)

pub Leaves-returned :
    {A : Type 0} (m : Action A) (s t : MemoryStore) (a : A)
    → Leaves m
    → m s ≡ returned a t
    → t.instances ≡ s.instances
Leaves-returned m s t a leaves e = subst (LeavesRun s) e (leaves.run s)
