-- ===== src/Engine/Monad.antt =====
-- The effects of an engine method: it reads and writes the store, may return an error, and may call a
-- method of the store that never returns. What was written before an error stays written, as
-- MemoryTxManager runs the body of a transaction as it is.
use floxy_pro.Prelude.{
  Bool, List, Option, String, [], false, inl, inr, nat_eq, none, some, string_eq, suc, true, ℕ, ◌∷◌,
  ◌⊎◌,
}
use floxy_pro.Graph.{GraphError}
use floxy_pro.Store.Defs.{Error, MemoryStore, Op, Result, err, ok}
use floxy_pro.Store.Joins.{Locked, deadlock, returns}
use floxy_pro.Store.Steps.{present}

pub data Fault : Type 0 where
  store_error : Error → Fault
  -- `fmt.Errorf` or `errors.New` of a text
  message : String → Fault
  -- `fmt.Errorf("context: %w", err)`
  within : String → Fault → Fault
  -- an error of ValidateWorkflowDefinition
  invalid : GraphError → Fault
  -- a bounded recursion of the model has run out; the theorems show where it never does
  out_of_fuel : Fault

pub data Run (A : Type 0) : Type 0 where
  returned : A → MemoryStore → Run A
  failed : Fault → MemoryStore → Run A
  blocked : Run A

abbrev pub Action : Type 0 → Type 0
Action A = MemoryStore → Run A

abbrev pub after_run : {A B : Type 0} → Run A → (A → Action B) → Run B
after_run (returned a s) f = f a s
after_run (failed e s) f = failed e s
after_run blocked f = blocked

infixl 5 ◌>>=◌ ◌>>◌
unfoldable pub ◌>>=◌ : {A B : Type 0} → Action A → (A → Action B) → Action B
(m >>= f) s = after_run (m s) f

abbrev pub ◌>>◌ : {A B : Type 0} → Action A → Action B → Action B
m >> k = m >>= λ _. k

unfoldable pub pure : {A : Type 0} → A → Action A
pure a s = returned a s

unfoldable pub raise : {A : Type 0} → Fault → Action A
raise e s = failed e s

abbrev pub done : Action Unit
done = pure tt

abbrev pub from_result : {A : Type 0} → (Error → Fault) → Result A × MemoryStore → Run A
from_result wrap (ok a, s) = returned a s
from_result wrap (err e, s) = failed (wrap e) s

-- A call of the store whose error is returned, with the words of `fmt.Errorf` before it.
unfoldable pub call : {A : Type 0} → String → Op A → Action A
call context op s = from_result (λ e. within context (store_error e)) (op s)

-- The same, with the error as it is.
unfoldable pub call_bare : {A : Type 0} → Op A → Action A
call_bare op s = from_result store_error (op s)

-- A call with its error as a value.
unfoldable pub attempt : {A : Type 0} → Op A → Action (Result A)
attempt op s = let (r, t) = op s in returned r t

-- `_ = engine.store.…`
unfoldable pub ignore : {A : Type 0} → Op A → Action Unit
ignore op s = let (r, t) = op s in returned tt t

abbrev pub from_locked : {A : Type 0} → Locked A → Run (Result A)
from_locked (returns r s) = returned r s
from_locked deadlock = blocked

-- A call of a method that takes the mutex while another holds it.
unfoldable pub attempt_locked : {A : Type 0} → (MemoryStore → Locked A) → Action (Result A)
attempt_locked op s = from_locked (op s)

abbrev pub settled : {A : Type 0} → Run A → Run (Fault ⊎ A)
settled (returned a s) = returned (inr a) s
settled (failed e s) = returned (inl e) s
settled blocked = blocked

-- `if err := …; err != nil { … }` where the error is not returned.
unfoldable pub recover : {A : Type 0} → Action A → Action (Fault ⊎ A)
recover m s = settled (m s)

-- An error that is returned with words before it.
abbrev pub failed_within : {A : Type 0} → String → Run A → Run A
failed_within context (returned a s) = returned a s
failed_within context (failed e s) = failed (within context e) s
failed_within context blocked = blocked

unfoldable pub inside : {A : Type 0} → String → Action A → Action A
inside context m s = failed_within context (m s)

unfoldable pub or_raise : {A : Type 0} → Option A → Fault → Action A
or_raise none e = raise e
or_raise (some a) e = pure a

unfoldable pub when : Bool → Action Unit → Action Unit
when true m = m
when false m = done

unfoldable pub for_each : {A : Type 0} → List A → (A → Action Unit) → Action Unit
for_each [] body = done
for_each (x ∷ xs) body = body x >> for_each xs body

unfoldable pub for_each_from : {A : Type 0} → ℕ → List A → (ℕ → A → Action Unit) → Action Unit
for_each_from i [] body = done
for_each_from i (x ∷ xs) body = body i x >> for_each_from (suc i) xs body

-- The cases of a result, of an option, and of a sum.
unfoldable pub on_result :
    {A B : Type 0} → Result A → (Error → Action B) → (A → Action B) → Action B
on_result (ok a) failure success = success a
on_result (err e) failure success = failure e

unfoldable pub on_option : {A B : Type 0} → Option A → Action B → (A → Action B) → Action B
on_option none missing present = missing
on_option (some a) missing present = present a

unfoldable pub on_either : {E A B : Type 0} → E ⊎ A → (E → Action B) → (A → Action B) → Action B
on_either (inl e) failure success = failure e
on_either (inr a) failure success = success a

unfoldable pub choose : {A : Type 0} → Bool → Action A → Action A → Action A
choose true x y = x
choose false x y = y

-- A value read from the store.
unfoldable pub reads : {A : Type 0} → (MemoryStore → A) → Action A
reads f s = returned (f s) s

-- A loop over a value that it changes.
unfoldable pub fold_each : {A B : Type 0} → List A → B → (B → A → Action B) → Action B
fold_each [] b body = pure b
fold_each (x ∷ xs) b body = body b x >>= λ c. fold_each xs c body
