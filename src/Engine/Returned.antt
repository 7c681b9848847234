-- ===== src/Engine/Returned.antt =====
-- What a run that returns says of its parts.
use floxy_pro.Prelude.{
  Bool, Option, String, false, inl, inr, nat_eq, none, refl, some, string_eq, true, ◌∙◌, ◌≡◌, ◌≢◌,
  ◌⊎◌,
}
use floxy_pro.Engine.Monad.{
  Action, Fault, Run, after_run, blocked, call, choose, failed, from_result, raise, returned,
  store_error, within, ◌>>=◌,
}
use floxy_pro.Store.Defs.{MemoryStore, Op, Result, err, found, ok}

pub bind-returned :
    {A B : Type 0} (m : Action A) (f : A → Action B) (s t : MemoryStore) (b : B)
    → (m >>= f) s ≡ returned b t
    → (a : A) × (u : MemoryStore) × (m s ≡ returned a u) × (f a u ≡ returned b t)
unfolding ◌>>=◌
bind-returned {A} {B} m f s t b e = go (m s) refl e
  where
    go :
        (r : Run A)
        → m s ≡ r
        → after_run r f ≡ returned b t
        → (a : A) × (u : MemoryStore) × (m s ≡ returned a u) × (f a u ≡ returned b t)
    go (returned a u) first e = (a, u, first, e)
    go (failed x u) first e = absurd (cc)
    go blocked first e = absurd (cc)

pub call-returned :
    {A : Type 0} (context : String) (op : Op A) (s t : MemoryStore) (a : A)
    → call context op s ≡ returned a t
    → op s ≡ (ok a, t)
unfolding call
call-returned {A} context op s t a e = go (op s) refl e
  where
    go :
        (r : Result A × MemoryStore)
        → op s ≡ r
        → from_result (λ e. within context (store_error e)) r ≡ returned a t
        → op s ≡ (ok a, t)
    go (ok b, u) first e = first ∙ cc
    go (err x, u) first e = absurd (cc)

pub choose-returned :
    {A : Type 0} (c : Bool) (m n : Action A) (s t : MemoryStore) (a : A)
    → choose c m n s ≡ returned a t
    → ((c ≡ true) × (m s ≡ returned a t)) ⊎ ((c ≡ false) × (n s ≡ returned a t))
unfolding choose
choose-returned true m n s t a e = inl (refl, e)
choose-returned false m n s t a e = inr (refl, e)

pub raise-returned :
    {A : Type 0} (e : Fault) (s t : MemoryStore) (a : A) → raise {A = A} e s ≢ returned a t
unfolding raise
raise-returned e s t a path = absurd (cc)

pub found-ok : {A : Type 0} (o : Option A) (a : A) → found o ≡ ok a → o ≡ some a
found-ok none a e = absurd (cc)
found-ok (some b) a e = cc
