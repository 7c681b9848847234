-- ===== src/Graph/Cycles/Sound.antt =====
-- detectCycles: a cycle that it reports is one that the start reaches.
use floxy_pro.Prelude.{
  Bool-cases, List, Option-cases, String, [], ap, arith, contains, false, inl, inr, nat_eq, some,
  str_iff, string_eq, subst, suc, sym, true, zero, ℕ, ◌==◌, ◌∙◌, ◌∷◌, ◌≡◌, ◌⊎◌,
}
use floxy_pro.Graph.{
  GraphError, Search, Steps, cycle, detect_cycles, is_skipped, out_of_fuel, outs, probe, probe_all,
}
use floxy_pro.Graph.Cycles.{
  Edge, Reach, detect_cycles-absent, detect_cycles-there, follow, probe_all-next, probe_all-stop,
  start,
}
use floxy_pro.Prelude.Maps.{lookup}

module _ (body : List String → String → Search) {e : GraphError} where
  -- The error of the loop is the error of one of its targets.
  probe_all-origin :
      (xs visited : List String)
      → (probe_all body visited xs).result ≡ some e
      → (v : List String) × (y : String) × (contains xs y ≡ true) × ((body v y).result ≡ some e)
  unfolding probe_all
  probe_all-origin [] visited failed = absurd (cc)
  probe_all-origin (x ∷ xs) visited failed = elim (Option-cases (body visited x).result) [
    | inl fine ↦
        let next = probe_all-next body visited x xs fine in
        let (v, y, c, bad) =
          probe_all-origin xs (body visited x).visited (sym (ap (λ s. s.result) next) ∙ failed) in
        (v, y, ground (arith, c), bad)
    | inr bad ↦ (
      visited,
      x,
      ground (arith, str_iff x x),
      sym (probe_all-stop body visited x xs bad.1 ∙ sym bad.1) ∙ failed,
    )
  ]

-- The report names a link that closes a cycle, on a path from the root.
abbrev pub IsCycle : Steps → String → String → String → Type 0
IsCycle steps root a b = Reach steps root a × Edge steps a b × Reach steps b a

-- What an error of the search may say.
abbrev pub IsExplained : Steps → String → GraphError → Type 0
IsExplained steps root e =
    (e ≡ out_of_fuel) ⊎ ((a : String) × (b : String) × (e ≡ cycle a b) × IsCycle steps root a b)

module _ (steps : Steps) (root : String) (e : GraphError) (call : List String → String → Search)
    (stack : List String) (x : String)
    (calls : (v : List String) (y : String)
      → Reach steps root y
      → ((z : String) → contains (x ∷ stack) z ≡ true → Reach steps z y)
      → (call v y).result ≡ some e
      → IsExplained steps root e)
    (path : Reach steps root x)
    (above : (y : String) → contains stack y ≡ true → Reach steps y x) where
  stack-Reach : (y : String) → contains (x ∷ stack) y ≡ true → Reach steps y x
  stack-Reach y c = elim (Bool-cases (x == y)) [
    | inl same ↦ subst (λ z. Reach steps z x) ((str_iff x y).0 same) start
    | inr other ↦ above y (rw other at c)
  ]

  probe-IsExplained :
      (v : List String) (y : String)
      → (is_skipped steps y ≡ false → Edge steps x y)
      → (probe steps call (x ∷ stack) x v y).result ≡ some e
      → IsExplained steps root e
  unfolding probe
  probe-IsExplained v y edge failed = elim (Bool-cases (is_skipped steps y)) [
    | inl skip ↦ absurd (cc (rw skip at failed))
    | inr keep ↦ elim (Bool-cases (contains v y)) [
      | inl seen ↦ elim (Bool-cases (contains (x ∷ stack) y)) [
        | inl open_call ↦
            let same : some (cycle x y) ≡ some e = rw (keep, seen, open_call) at failed in
            inr (x, y, cc same, (path, edge keep, stack-Reach y open_call))
        | inr closed ↦ absurd (cc (rw (keep, seen, closed) at failed))
      ]
      | inr fresh ↦
          calls v y (follow path (edge keep)) (λ z c. follow (stack-Reach z c) (edge keep))
            (rw (keep, fresh) at failed)
    ]
  ]

pub detect_cycles-IsExplained :
    (steps : Steps) (root : String) (error : GraphError) (fuel : ℕ) (visited stack : List String)
    (x : String)
    → Reach steps root x
    → ((y : String) → contains stack y ≡ true → Reach steps y x)
    → (detect_cycles fuel steps visited stack x).result ≡ some error
    → IsExplained steps root error
unfolding detect_cycles
detect_cycles-IsExplained steps root error zero visited stack x path above failed = inl (cc failed)
detect_cycles-IsExplained steps root error (suc fuel) visited stack x path above failed =
    elim (Option-cases (lookup x steps)) [
      | inl absent ↦
          let e = detect_cycles-absent fuel steps visited stack x absent in
          absurd (cc (ap (λ s. s.result) e, failed))
      | inr there ↦
          let e = detect_cycles-there fuel steps visited stack x there.0 there.1 in
          let (v, y, c, bad) =
            probe_all-origin _ (outs there.0) (x ∷ visited) (sym (ap (λ s. s.result) e) ∙ failed) in
          probe-IsExplained steps root error (λ v y. detect_cycles fuel steps v (x ∷ stack) y) stack
            x (λ v y p q. detect_cycles-IsExplained steps root error fuel v (x ∷ stack) y p q) path
            above v y
            (λ keep. record { def = there.0; source = there.1; target = c; followed = keep }) bad
    ]
