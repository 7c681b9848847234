-- ===== src/Engine/Contexts/Registered.antt =====
-- The table of contexts while steps register and unregister.
use native.Mathlib.Decide.{ℕ_discrete}
use floxy_pro.Prelude.{
  Option, [], ap, arith, if◌then◌else◌, nat_eq, none, refl, some, ℕ, ◌==◌, ◌∷◌, ◌≡◌, ◌≢◌,
}
use floxy_pro.Engine.Contexts.{
  CancelContexts, keep_steps, register_instance_context, steps_or_empty,
  unregister_instance_context,
}
use floxy_pro.Prelude.Maps.{Map, delete, insert, lookup, lookup-delete, lookup-insert}

module _ {ℓ} {C : Type ℓ} where
  delete-insert : (k : ℕ) (v : C) (m : Map ℕ C) → lookup k m ≡ none → delete k (insert k v m) ≡ m
  unfolding delete insert lookup
  delete-insert k v [] absent = ground (arith, nat_eq.beq_iff k k)
  delete-insert k v ((j, w) ∷ m) absent =
      ground (arith, delete-insert k v m, nat_eq.beq_iff j k, nat_eq.beq_iff k k)

  -- The entry for the steps: none where there is no step.
  entry_of : Map ℕ C → Option (Map ℕ C)
  entry_of [] = none
  entry_of (step ∷ steps) = some (step ∷ steps)

  entry-kept : (held : Option (Map ℕ C)) → held ≢ some [] → entry_of (steps_or_empty held) ≡ held
  unfolding entry_of
  entry-kept none full = refl
  entry-kept (some []) full = absurd (full refl)
  entry-kept (some (step ∷ steps)) full = refl

  keep_steps-lookup :
      (i k : ℕ) (steps : Map ℕ C) (contexts : CancelContexts C)
      → lookup k (keep_steps i steps contexts)
        ≡ (if i == k then entry_of steps else lookup k contexts)
  unfolding entry_of
  keep_steps-lookup i k [] contexts = lookup-delete i k contexts
  keep_steps-lookup i k (step ∷ steps) contexts = lookup-insert i k (step ∷ steps) contexts

  -- Where no instance has an empty entry, a step that was not registered registers and unregisters
  -- without a change: every instance has the steps it had, and no empty entry is left.
  pub unregister-register :
      (i step : ℕ) (cancel : C) (contexts : CancelContexts C)
      → ((j : ℕ) → lookup j contexts ≢ some [])
      → lookup step (steps_or_empty (lookup i contexts)) ≡ none
      → (k : ℕ)
      → lookup k
          (unregister_instance_context i step (register_instance_context i step cancel contexts))
        ≡ lookup k contexts
  unfolding unregister_instance_context register_instance_context
  unregister-register i step cancel contexts full fresh k =
      let before = steps_or_empty (lookup i contexts) in
      let during = insert i (insert step cancel before) contexts in
      let there : lookup i during ≡ some (insert step cancel before) =
        ground
          (arith, lookup-insert i i (insert step cancel before) contexts, nat_eq.beq_iff i i) in
      rw (there, delete-insert step cancel before fresh)
        (elim (ℕ_discrete i k) [
          | yes same ↦ ground (
            arith,
            keep_steps-lookup i k before during,
            entry-kept (lookup i contexts) (full i),
            ap (λ j. lookup j contexts) same,
            nat_eq.beq_iff i k,
          )
          | no other ↦ ground (
            arith,
            keep_steps-lookup i k before during,
            lookup-insert i k (insert step cancel before) contexts,
            nat_eq.beq_iff i k,
          )
        ])
