-- ===== src/Engine/Walks/Rounds.antt =====
-- The loops that follow the Prev links: a round for each step of the definition and one more is enough.
use floxy_pro.Prelude.{
  Bool, Bool-cases, List, Option-cases, String, Sum-cases, [], ap, arith, contains, inl, inr,
  is_set, nat_eq, string_eq, suc, zero, ℕ, ◌<◌, ◌||◌, ◌∷◌, ◌≢◌, ◌⊎◌,
}
use floxy_pro.Engine.Walks.{out_of_rounds, rounds, walk}
use floxy_pro.Graph.{Steps}
use floxy_pro.Graph.Cycles.Fuel.{room, room-le_length, room-mark_new}
use floxy_pro.Model.{StepDefinition}
use floxy_pro.Prelude.Maps.{lookup}

module _ {A : Type 0} (steps : Steps) (ends : String → Bool)
    (visit : String → StepDefinition → A ⊎ String) where
  walk-room :
      (fuel : ℕ) (visited : List String) (current : String)
      → room steps visited < fuel
      → walk fuel steps ends visit visited current ≢ out_of_rounds
  unfolding walk
  walk-room zero visited current enough = absurd (omega arith)
  walk-room (suc fuel) visited current enough =
      elim (Bool-cases (ends current || contains visited current)) [
        | inl stop ↦ rw (walk, stop) (λ e. absurd (cc))
        | inr go ↦ elim (Option-cases (lookup current steps)) [
          | inl absent ↦ rw (walk, go, absent) (λ e. absurd (cc))
          | inr (def, there) ↦ elim (Sum-cases (visit current def)) [
            | inl (a, answer) ↦ rw (walk, go, there, answer) (λ e. absurd (cc))
            | inr (next, follows) ↦
                let less =
                  room-mark_new steps visited current (ap is_set there) (ground (arith, go)) in
                rw (walk, go, there, follows)
                  (walk-room fuel (current ∷ visited) next (omega (arith, less)))
          ]
        ]
      ]

  -- A loop of the engine over the Prev links of a definition, cyclic or not, ends within as many
  -- rounds as the definition has steps and one more: with an answer, or where it breaks off.
  pub walk-rounds :
      (current : String) → walk (rounds steps) steps ends visit [] current ≢ out_of_rounds
  walk-rounds current = walk-room (rounds steps) [] current (omega (arith, room-le_length steps []))
