-- ===== src/Graph/Cycles.antt =====
-- detectCycles decides whether a cycle can be reached from a step.
pub mod Sound
pub mod Fuel
pub mod Decided
use floxy_pro.Prelude.{
  Bool-cases, List, Option-cases, String, [], ap, arith, contains, false, inl, inr, nat_eq, none,
  refl, some, str_iff, string_eq, subst, suc, sym, true, zero, ℕ, ◌==◌, ◌∙◌, ◌∷◌, ◌≡◌,
}
use floxy_pro.Graph.{GraphError, Search, Steps, detect_cycles, is_skipped, outs, probe, probe_all}
use floxy_pro.Model.{StepDefinition}
use floxy_pro.Prelude.Maps.{lookup}

-- A link that the search follows: a target of a step that is there, with a name that is not skipped.
pub record Edge (steps : Steps) (x y : String) : Type 0 where
  pub def : StepDefinition
  pub source : lookup x steps ≡ some def
  pub target : contains (outs def) y ≡ true
  pub followed : is_skipped steps y ≡ false

pub data Reach (steps : Steps) (x : String) : String → Type 0 where
  start : Reach steps x x
  follow : {y z : String} → Reach steps x y → Edge steps y z → Reach steps x z

-- No path of links from the step is infinite.
pub data IsAcyclic (steps : Steps) : String → Type 0 where
  all_below : {x : String} → ((y : String) → Edge steps x y → IsAcyclic steps y) → IsAcyclic steps x

-- The names that are visited and not on the stack are done with.
abbrev pub IsDone : Steps → List String → List String → Type 0
IsDone steps stack visited =
    (x : String) → contains visited x ≡ true → contains stack x ≡ false → IsAcyclic steps x

-- A search that ends without an error is done with `x`, and with all that it has visited.
abbrev Finishes : Steps → List String → String → Search → Type 0
Finishes steps stack x outcome =
    outcome.result ≡ none → IsAcyclic steps x × IsDone steps stack outcome.visited

module _ (body : List String → String → Search) (visited : List String) (x : String)
    (xs : List String) where
  pub probe_all-next :
      (body visited x).result ≡ none
      → probe_all body visited (x ∷ xs) ≡ probe_all body (body visited x).visited xs
  unfolding probe_all
  probe_all-next fine = rw (probe_all, fine) refl

  pub probe_all-stop :
      {e : GraphError}
      → (body visited x).result ≡ some e
      → (probe_all body visited (x ∷ xs)).result ≡ some e
  unfolding probe_all
  probe_all-stop bad = rw (probe_all, bad) bad

-- The loop over the targets, and what the search is at a step that is there and at one that is not.
abbrev pub search_targets : ℕ → Steps → List String → List String → String → StepDefinition → Search
search_targets fuel steps visited stack x def =
    probe_all (probe steps (λ v y. detect_cycles fuel steps v (x ∷ stack) y) (x ∷ stack) x)
      (x ∷ visited) (outs def)

module _ (fuel : ℕ) (steps : Steps) (visited stack : List String) (x : String) where
  pub detect_cycles-absent :
      lookup x steps ≡ none
      → detect_cycles (suc fuel) steps visited stack x
        ≡ record { result = none; visited = x ∷ visited }
  unfolding detect_cycles
  detect_cycles-absent absent = rw (detect_cycles, absent) refl

  pub detect_cycles-there :
      (def : StepDefinition)
      → lookup x steps ≡ some def
      → detect_cycles (suc fuel) steps visited stack x
        ≡ search_targets fuel steps visited stack x def
  unfolding detect_cycles
  detect_cycles-there def there = rw (detect_cycles, there) refl

module _ (steps : Steps) (call : List String → String → Search) (stack : List String)
    (current : String)
    (calls : (v : List String) (x : String)
      → IsDone steps stack v
      → Finishes steps stack x (call v x)) where
  probe-IsDone :
      (visited : List String) (x : String)
      → IsDone steps stack visited
      → (probe steps call stack current visited x).result ≡ none
      → IsDone steps stack (probe steps call stack current visited x).visited
        × (is_skipped steps x ≡ false → IsAcyclic steps x)
  unfolding probe
  probe-IsDone visited x done ended = elim (Bool-cases (is_skipped steps x)) [
    | inl skip ↦ rw skip (done, λ e. cc)
    | inr keep ↦ elim (Bool-cases (contains visited x)) [
      | inl seen ↦ rw (keep, seen) (done, λ _. done x seen (ground arith))
      | inr fresh ↦
          let outcome = calls visited x done (rw (keep, fresh) at ended) in
          rw (keep, fresh) (outcome.1, λ _. outcome.0)
    ]
  ]

  probe_all-IsDone :
      (xs visited : List String)
      → IsDone steps stack visited
      → (probe_all (probe steps call stack current) visited xs).result ≡ none
      → IsDone steps stack (probe_all (probe steps call stack current) visited xs).visited
        × ((x : String) → contains xs x ≡ true → is_skipped steps x ≡ false → IsAcyclic steps x)
  unfolding probe_all
  probe_all-IsDone [] visited done ended = (done, λ x c. cc)
  probe_all-IsDone (x ∷ xs) visited done ended =
      let body = probe steps call stack current in
      elim (Option-cases (body visited x).result) [
        | inl fine ↦
            let next = probe_all-next body visited x xs fine in
            let (done', below) = probe-IsDone visited x done fine in
            let (done'', rest) =
              probe_all-IsDone xs (body visited x).visited done'
                (sym (ap (λ s. s.result) next) ∙ ended) in
            (
              subst (λ s. IsDone steps stack s.visited) (sym next) done'',
              λ y c keep. elim (Bool-cases (x == y)) [
                | inl same ↦
                    let e : x ≡ y = (str_iff x y).0 same in
                    subst (IsAcyclic steps) e (below (rw e keep))
                | inr other ↦ rest y (rw other at c) keep
              ],
            )
        | inr bad ↦ absurd (cc (probe_all-stop body visited x xs bad.1, ended))
      ]

IsDone-mark :
    (steps : Steps) (stack visited : List String) (x : String)
    → IsDone steps stack visited
    → IsAcyclic steps x
    → IsDone steps stack (x ∷ visited)
IsDone-mark steps stack visited x done acyclic y seen out = elim (Bool-cases (x == y)) [
  | inl same ↦ subst (IsAcyclic steps) ((str_iff x y).0 same) acyclic
  | inr other ↦ done y (rw other at seen) out
]

IsDone-push :
    (steps : Steps) (stack visited : List String) (x : String)
    → IsDone steps stack visited
    → IsDone steps (x ∷ stack) (x ∷ visited)
IsDone-push steps stack visited x done y seen out = elim (Bool-cases (x == y)) [
  | inl same ↦ absurd (cc (rw same at out))
  | inr other ↦ done y (rw other at seen) (rw other at out)
]

IsDone-pop :
    (steps : Steps) (stack visited : List String) (x : String)
    → IsDone steps (x ∷ stack) visited
    → IsAcyclic steps x
    → IsDone steps stack visited
IsDone-pop steps stack visited x done acyclic y seen out = elim (Bool-cases (x == y)) [
  | inl same ↦ subst (IsAcyclic steps) ((str_iff x y).0 same) acyclic
  | inr other ↦ done y seen (rw other out)
]

detect_cycles-Finishes :
    (steps : Steps) (fuel : ℕ) (visited stack : List String) (x : String)
    → IsDone steps stack visited
    → Finishes steps stack x (detect_cycles fuel steps visited stack x)
unfolding detect_cycles
detect_cycles-Finishes steps zero visited stack x done ended = absurd (cc)
detect_cycles-Finishes steps (suc fuel) visited stack x done ended =
    elim (Option-cases (lookup x steps)) [
      | inl absent ↦
          let e = detect_cycles-absent fuel steps visited stack x absent in
          let acyclic : IsAcyclic steps x =
            all_below (λ y edge. absurd (cc (absent, edge.source))) in
          (
            acyclic,
            subst (λ s. IsDone steps stack s.visited) (sym e)
                (IsDone-mark steps stack visited x done acyclic),
          )
      | inr there ↦
          let e = detect_cycles-there fuel steps visited stack x there.0 there.1 in
          let (done', below) =
            probe_all-IsDone steps (λ v y. detect_cycles fuel steps v (x ∷ stack) y) (x ∷ stack) x
              (λ v y d. detect_cycles-Finishes steps fuel v (x ∷ stack) y d) (outs there.0)
              (x ∷ visited) (IsDone-push steps stack visited x done)
              (sym (ap (λ s. s.result) e) ∙ ended) in
          let acyclic : IsAcyclic steps x = all_below (λ y edge.
            below y
              (subst (λ d. contains (outs d) y ≡ true) (cc (there.1, edge.source)) edge.target)
              edge.followed) in
          (
            acyclic,
            subst (λ s. IsDone steps stack s.visited) (sym e)
                (IsDone-pop steps stack _ x done' acyclic),
          )
    ]

-- A search with nothing visited that ends without an error, whatever its fuel, is from a step from
-- which no path of links is infinite: no cycle can be reached.
pub detect_cycles-IsAcyclic :
    (steps : Steps) (fuel : ℕ) (x : String)
    → (detect_cycles fuel steps [] [] x).result ≡ none
    → IsAcyclic steps x
detect_cycles-IsAcyclic steps fuel x ended =
    (detect_cycles-Finishes steps fuel [] [] x (λ y seen _. cc) ended).0
