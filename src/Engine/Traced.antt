-- ===== src/Engine/Traced.antt =====
-- Every action of the engine is a sequence of operations of the store: the rules of the combinators.
pub mod Ops
pub mod Calls
pub mod Steps
pub mod Joins
pub mod Rollback
pub mod Branches
pub mod Outcome
pub mod Handlers
pub mod Cancel
pub mod Compensation
pub mod Execute
use floxy_pro.Prelude.{
  All, Bool, List, Option, String, [], ap, false, inl, inr, nat_eq, none, refl, some, string_eq,
  suc, true, ℕ, ◌++◌, ◌∙◌, ◌∷◌, ◌≡◌, ◌⊎◌,
}
use floxy_pro.Engine.Monad.{
  Action, Fault, Run, after_run, attempt, blocked, call, call_bare, choose, failed, failed_within,
  fold_each, for_each, for_each_from, from_result, ignore, inside, on_either, on_option, on_result,
  or_raise, pure, raise, reads, recover, returned, settled, store_error, when, within, ◌>>=◌,
}
use floxy_pro.Store.Defs.{Error, MemoryStore, Op, Result, err, ok}
use floxy_pro.Store.Operations.{Operation, perform, perform_all}
use floxy_pro.Store.Steps.{present}

-- From `s` a sequence of operations of the kind `P` leads to `t`.
abbrev pub Trace : (Operation → Bool) → MemoryStore → MemoryStore → Type 0
Trace P s t = (ops : List Operation) × All (λ op. P op ≡ true) ops × (perform_all ops s ≡ t)

abbrev pub TracedRun : {A : Type 0} → (Operation → Bool) → MemoryStore → Run A → Type 0
TracedRun P s (returned a t) = Trace P s t
TracedRun P s (failed e t) = Trace P s t
TracedRun P s blocked = Unit

pub record Traced (P : Operation → Bool) {A : Type 0} (m : Action A) : Type 0 where
  pub run : (s : MemoryStore) → TracedRun P s (m s)

-- The same of a call of the store.
pub record TracedOp (P : Operation → Bool) {A : Type 0} (op : Op A) : Type 0 where
  pub run : (s : MemoryStore) → Trace P s (op s).1

All-append : {A : Type 0} (Q : A → Type 0) (xs ys : List A) → All Q xs → All Q ys → All Q (xs ++ ys)
All-append Q [] ys a b = b
All-append Q (x ∷ xs) ys a b = (a.0, All-append Q xs ys a.1 b)

perform_all-append :
    (xs ys : List Operation) (s : MemoryStore)
    → perform_all (xs ++ ys) s ≡ perform_all ys (perform_all xs s)
unfolding perform_all
perform_all-append [] ys s = refl
perform_all-append (x ∷ xs) ys s = perform_all-append xs ys (perform x s)

pub Trace-refl : (P : Operation → Bool) (s : MemoryStore) → Trace P s s
unfolding perform_all
Trace-refl P s = ([], tt, refl)

pub Trace-trans :
    {P : Operation → Bool} (s t u : MemoryStore) → Trace P s t → Trace P t u → Trace P s u
Trace-trans {P = P} s t u (xs, p, e) (ys, q, f) = (
  xs ++ ys,
  All-append (λ op. P op ≡ true) xs ys p q,
  perform_all-append xs ys s ∙ (ap (perform_all ys) e ∙ f),
)

pub Trace-one :
    (P : Operation → Bool) (op : Operation) (s : MemoryStore)
    → P op ≡ true
    → Trace P s (perform op s)
unfolding perform_all
Trace-one P op s p = (op ∷ [], (p, tt), refl)

after-Trace :
    {A : Type 0} {P : Operation → Bool} (s t : MemoryStore) (r : Run A)
    → Trace P s t
    → TracedRun P t r
    → TracedRun P s r
after-Trace s t (returned a u) first then_rest = Trace-trans s t u first then_rest
after-Trace s t (failed e u) first then_rest = Trace-trans s t u first then_rest
after-Trace s t blocked first then_rest = tt

module _ {P : Operation → Bool} where
  pub pure-Traced : {A : Type 0} (a : A) → Traced P (pure a)
  unfolding pure
  pure-Traced a = record { run = λ s. Trace-refl P s }

  pub reads-Traced : {A : Type 0} (f : MemoryStore → A) → Traced P (reads f)
  unfolding reads
  reads-Traced f = record { run = λ s. Trace-refl P s }

  pub raise-Traced : {A : Type 0} (e : Fault) → Traced P (raise {A = A} e)
  unfolding raise
  raise-Traced e = record { run = λ s. Trace-refl P s }

  pub bind-Traced :
      {A B : Type 0} (m : Action A) (f : A → Action B)
      → Traced P m
      → ((a : A) → Traced P (f a))
      → Traced P (m >>= f)
  unfolding ◌>>=◌
  bind-Traced {A} {B} m f first rest = record { run = λ s. go s (m s) (first.run s) }
    where
      go : (s : MemoryStore) (r : Run A) → TracedRun P s r → TracedRun P s (after_run r f)
      go s (returned a t) trace = after-Trace s t (f a t) trace ((rest a).run t)
      go s (failed e t) trace = trace
      go s blocked trace = tt

  from_result-Traced :
      {A : Type 0} (wrap : Error → Fault) (s : MemoryStore) (r : Result A × MemoryStore)
      → Trace P s r.1
      → TracedRun P s (from_result wrap r)
  from_result-Traced wrap s (ok a, t) trace = trace
  from_result-Traced wrap s (err e, t) trace = trace

  pub call-Traced :
      {A : Type 0} (context : String) (op : Op A) → TracedOp P op → Traced P (call context op)
  unfolding call
  call-Traced context op traced = record {
    run = λ s. from_result-Traced (λ e. within context (store_error e)) s (op s) (traced.run s);
  }

  pub call_bare-Traced : {A : Type 0} (op : Op A) → TracedOp P op → Traced P (call_bare op)
  unfolding call_bare
  call_bare-Traced op traced = record {
    run = λ s. from_result-Traced store_error s (op s) (traced.run s);
  }

  pub attempt-Traced : {A : Type 0} (op : Op A) → TracedOp P op → Traced P (attempt op)
  unfolding attempt
  attempt-Traced op traced = record { run = λ s. traced.run s }

  pub ignore-Traced : {A : Type 0} (op : Op A) → TracedOp P op → Traced P (ignore op)
  unfolding ignore
  ignore-Traced op traced = record { run = λ s. traced.run s }

  pub recover-Traced : {A : Type 0} (m : Action A) → Traced P m → Traced P (recover m)
  unfolding recover
  recover-Traced {A} m traced = record { run = λ s. go s (m s) (traced.run s) }
    where
      go : (s : MemoryStore) (r : Run A) → TracedRun P s r → TracedRun P s (settled r)
      go s (returned a t) trace = trace
      go s (failed e t) trace = trace
      go s blocked trace = tt

  pub inside-Traced :
      {A : Type 0} (context : String) (m : Action A) → Traced P m → Traced P (inside context m)
  unfolding inside
  inside-Traced {A} context m traced = record { run = λ s. go s (m s) (traced.run s) }
    where
      go : (s : MemoryStore) (r : Run A) → TracedRun P s r → TracedRun P s (failed_within context r)
      go s (returned a t) trace = trace
      go s (failed e t) trace = trace
      go s blocked trace = tt

  pub or_raise-Traced : {A : Type 0} (o : Option A) (e : Fault) → Traced P (or_raise o e)
  unfolding or_raise
  or_raise-Traced none e = raise-Traced e
  or_raise-Traced (some a) e = pure-Traced a

  pub when-Traced : (c : Bool) (m : Action Unit) → Traced P m → Traced P (when c m)
  unfolding when
  when-Traced true m traced = traced
  when-Traced false m traced = pure-Traced tt

  pub choose-Traced :
      {A : Type 0} (c : Bool) (m n : Action A) → Traced P m → Traced P n → Traced P (choose c m n)
  unfolding choose
  choose-Traced true m n a b = a
  choose-Traced false m n a b = b

  pub for_each-Traced :
      {A : Type 0} (xs : List A) (body : A → Action Unit)
      → ((a : A) → Traced P (body a))
      → Traced P (for_each xs body)
  unfolding for_each
  for_each-Traced [] body each = pure-Traced tt
  for_each-Traced (x ∷ xs) body each =
      bind-Traced (body x) _ (each x) (λ _. for_each-Traced xs body each)

  pub for_each_from-Traced :
      {A : Type 0} (i : ℕ) (xs : List A) (body : ℕ → A → Action Unit)
      → ((k : ℕ) (a : A) → Traced P (body k a))
      → Traced P (for_each_from i xs body)
  unfolding for_each_from
  for_each_from-Traced i [] body each = pure-Traced tt
  for_each_from-Traced i (x ∷ xs) body each =
      bind-Traced (body i x) _ (each i x) (λ _. for_each_from-Traced (suc i) xs body each)

  pub fold_each-Traced :
      {A B : Type 0} (xs : List A) (b : B) (body : B → A → Action B)
      → ((c : B) (a : A) → Traced P (body c a))
      → Traced P (fold_each xs b body)
  unfolding fold_each
  fold_each-Traced [] b body each = pure-Traced b
  fold_each-Traced (x ∷ xs) b body each =
      bind-Traced (body b x) _ (each b x) (λ c. fold_each-Traced xs c body each)

  pub on_result-Traced :
      {A B : Type 0} (r : Result A) (failure : Error → Action B) (success : A → Action B)
      → ((e : Error) → Traced P (failure e))
      → ((a : A) → Traced P (success a))
      → Traced P (on_result r failure success)
  unfolding on_result
  on_result-Traced (ok a) failure success f g = g a
  on_result-Traced (err e) failure success f g = f e

  pub on_option-Traced :
      {A B : Type 0} (o : Option A) (missing : Action B) (present : A → Action B)
      → Traced P missing
      → ((a : A) → Traced P (present a))
      → Traced P (on_option o missing present)
  unfolding on_option
  on_option-Traced none missing present f g = f
  on_option-Traced (some a) missing present f g = g a

  pub on_either-Traced :
      {E A B : Type 0} (r : E ⊎ A) (failure : E → Action B) (success : A → Action B)
      → ((e : E) → Traced P (failure e))
      → ((a : A) → Traced P (success a))
      → Traced P (on_either r failure success)
  unfolding on_either
  on_either-Traced (inl e) failure success f g = f e
  on_either-Traced (inr a) failure success f g = g a
