-- ===== src/Engine/Ends.antt =====
-- Actions that do not run out of fuel, with what holds of their results.
use Prim.Native.String.{◌++◌ as str_append}
pub mod Rollback
use floxy_pro.Prelude.{
  Bool, List, Option, String, [], false, nat_eq, none, refl, some, string_eq, true, ◌∷◌, ◌≡◌,
}
use floxy_pro.Engine.Calls.{known_step}
use floxy_pro.Engine.Monad.{
  Action, Fault, Run, after_run, blocked, call, choose, failed, failed_within, fold_each,
  from_result, ignore, inside, invalid, message, on_option, or_raise, out_of_fuel, pure, raise,
  returned, store_error, when, within, ◌>>=◌,
}
use floxy_pro.Graph.{Steps}
use floxy_pro.Model.{StepDefinition}
use floxy_pro.Prelude.Maps.{lookup}
use floxy_pro.Store.Defs.{MemoryStore, Op, Result, err, found, ok}

unfoldable pub is_fuel : Fault → Bool
is_fuel out_of_fuel = true
is_fuel (within context e) = is_fuel e
is_fuel (store_error e) = false
is_fuel (message words) = false
is_fuel (invalid e) = false

abbrev pub EndsRun : {A : Type 0} → (A → Type 0) → Run A → Type 0
EndsRun Q (returned a t) = Q a
EndsRun Q (failed e t) = is_fuel e ≡ false
EndsRun Q blocked = Unit

pub record Ends {A : Type 0} (Q : A → Type 0) (m : Action A) : Type 0 where
  pub run : (s : MemoryStore) → EndsRun Q (m s)

abbrev pub Any : {A : Type 0} → A → Type 0
Any a = Unit

pub pure-Ends : {A : Type 0} (Q : A → Type 0) (a : A) → Q a → Ends Q (pure a)
unfolding pure
pure-Ends Q a q = record { run = λ s. q }

pub raise-Ends : {A : Type 0} (Q : A → Type 0) (e : Fault) → is_fuel e ≡ false → Ends Q (raise e)
unfolding raise
raise-Ends Q e plain = record { run = λ s. plain }

pub bind-Ends :
    {A B : Type 0} (Q : A → Type 0) (R : B → Type 0) (m : Action A) (f : A → Action B)
    → Ends Q m
    → ((a : A) → Q a → Ends R (f a))
    → Ends R (m >>= f)
unfolding ◌>>=◌
bind-Ends {A} {B} Q R m f first rest = record { run = λ s. go s (m s) (first.run s) }
  where
    go : (s : MemoryStore) (r : Run A) → EndsRun Q r → EndsRun R (after_run r f)
    go s (returned a t) q = (rest a q).run t
    go s (failed e t) plain = plain
    go s blocked h = tt

pub Ends-weaken :
    {A : Type 0} (Q R : A → Type 0) (m : Action A) → ((a : A) → Q a → R a) → Ends Q m → Ends R m
Ends-weaken {A} Q R m imp ends = record { run = λ s. go (m s) (ends.run s) }
  where
    go : (r : Run A) → EndsRun Q r → EndsRun R r
    go (returned a t) q = imp a q
    go (failed e t) plain = plain
    go blocked h = tt

pub choose-Ends :
    {A : Type 0} (Q : A → Type 0) (c : Bool) (m n : Action A)
    → (c ≡ true → Ends Q m)
    → (c ≡ false → Ends Q n)
    → Ends Q (choose c m n)
unfolding choose
choose-Ends Q true m n a b = a refl
choose-Ends Q false m n a b = b refl

pub inside-Ends :
    {A : Type 0} (Q : A → Type 0) (context : String) (m : Action A)
    → Ends Q m
    → Ends Q (inside context m)
unfolding inside is_fuel
inside-Ends {A} Q context m ends = record { run = λ s. go (m s) (ends.run s) }
  where
    go : (r : Run A) → EndsRun Q r → EndsRun Q (failed_within context r)
    go (returned a t) q = q
    go (failed e t) plain = plain
    go blocked h = tt

pub fold_each-Ends :
    {A B : Type 0} (Q : B → Type 0) (xs : List A) (b : B) (body : B → A → Action B)
    → ((c : B) (a : A) → Q c → Ends Q (body c a))
    → Q b
    → Ends Q (fold_each xs b body)
unfolding fold_each
fold_each-Ends Q [] b body each q = pure-Ends Q b q
fold_each-Ends Q (x ∷ xs) b body each q =
    bind-Ends Q Q (body b x) _ (each b x q) (λ c r. fold_each-Ends Q xs c body each r)

-- The actions whose results do not matter, for `search`.
pub bind-Any :
    {A B : Type 0} (m : Action A) (f : A → Action B)
    → Ends Any m
    → ((a : A) → Ends Any (f a))
    → Ends Any (m >>= f)
bind-Any m f first rest = bind-Ends Any Any m f first (λ a _. rest a)

pub pure-Any : {A : Type 0} (a : A) → Ends Any (pure a)
pure-Any a = pure-Ends Any a tt

call-run :
    {A : Type 0} (context : String) (r : Result A × MemoryStore)
    → EndsRun Any (from_result (λ e. within context (store_error e)) r)
unfolding is_fuel
call-run context (ok a, t) = tt
call-run context (err e, t) = refl

pub call-Any : {A : Type 0} (context : String) (op : Op A) → Ends Any (call context op)
unfolding call
call-Any context op = record { run = λ s. call-run context (op s) }

pub ignore-Any : {A : Type 0} (op : Op A) → Ends Any (ignore op)
unfolding ignore
ignore-Any op = record { run = λ s. tt }

pub when-Any : (c : Bool) (m : Action Unit) → Ends Any m → Ends Any (when c m)
unfolding when
when-Any true m ends = ends
when-Any false m ends = pure-Any tt

pub choose-Any :
    {A : Type 0} (c : Bool) (m n : Action A) → Ends Any m → Ends Any n → Ends Any (choose c m n)
choose-Any c m n a b = choose-Ends Any c m n (λ _. a) (λ _. b)

pub on_option-Any :
    {A B : Type 0} (o : Option A) (missing : Action B) (found : A → Action B)
    → Ends Any missing
    → ((a : A) → Ends Any (found a))
    → Ends Any (on_option o missing found)
unfolding on_option
on_option-Any none missing found f g = f
on_option-Any (some a) missing found f g = g a

pub known_step-Ends :
    (words name : String) (steps : Steps)
    → Ends (λ def. lookup name steps ≡ some def) (known_step words name steps)
unfolding known_step or_raise is_fuel
known_step-Ends words name steps = go (lookup name steps)
  where
    go :
        (o : Option StepDefinition)
        → Ends (λ def. o ≡ some def) (or_raise o (message (str_append words name)))
    go none = raise-Ends _ _ refl
    go (some def) = pure-Ends _ def refl

pub known_step-Any : (words name : String) (steps : Steps) → Ends Any (known_step words name steps)
known_step-Any words name steps = Ends-weaken _ _ _ (λ a _. tt) (known_step-Ends words name steps)

pub ruleset ends_rules = (
  bind-Any, pure-Any, call-Any, ignore-Any, when-Any, choose-Any, on_option-Any, known_step-Any,
  inside-Ends,
)
