-- ===== src/Graph/Cycles/Decided.antt =====
-- detectCycles, called as ValidateWorkflowDefinition calls it: it decides whether the start reaches a
-- cycle.
use floxy_pro.Prelude.{
  Option-cases, String, [], ap, inl, inr, length, nat_eq, none, refl, some, string_eq, subst, suc,
  sym, ◌∙◌, ◌≡◌, ◌⊎◌,
}
use floxy_pro.Graph.{Steps, cycle, detect_cycles}
use floxy_pro.Graph.Cycles.{
  Edge, IsAcyclic, Reach, all_below, detect_cycles-IsAcyclic, follow, start,
}
use floxy_pro.Graph.Cycles.Fuel.{detect_cycles-enough}
use floxy_pro.Graph.Cycles.Sound.{IsCycle, detect_cycles-IsExplained}

-- detectCycles, called with nothing visited and with one call more than there are steps, ends: either
-- without an error, and then no path of links from the start is infinite, or with the report of a link
-- from a to b where the start reaches a and b reaches a again. A link leads from a step to one of its
-- targets that is not virtual and that is a step of the workflow.
pub detect_cycles_lem :
    (steps : Steps) (start_step : String)
    → (((detect_cycles (suc (length steps)) steps [] [] start_step).result ≡ none)
        × IsAcyclic steps start_step)
      ⊎ ((a : String) × (b : String) × ((detect_cycles
              (suc (length steps))
              steps
              []
              []
              start_step).result
            ≡ some (cycle a b))
          × IsCycle steps start_step a b)
detect_cycles_lem steps x =
    let run = detect_cycles (suc (length steps)) steps [] [] x in
    elim (Option-cases run.result) [
      | inl fine ↦ inl (fine, detect_cycles-IsAcyclic steps (suc (length steps)) x fine)
      | inr bad ↦
          elim (detect_cycles-IsExplained steps x bad.0 (suc (length steps)) [] [] x start
            (λ y c. absurd (cc)) bad.1) [
              | inl out ↦ absurd (detect_cycles-enough steps x (bad.1 ∙ ap some out))
              | inr report ↦ let (a, b, e, loop) = report in inr (a, b, bad.1 ∙ ap some e, loop)
            ]
    ]

-- A step that no infinite path starts from is on no cycle.
IsAcyclic-link :
    {steps : Steps} {x y : String} → IsAcyclic steps x → Edge steps x y → IsAcyclic steps y
IsAcyclic-link (all_below below) edge = below _ edge

IsAcyclic-Reach :
    {steps : Steps} {x y : String} → IsAcyclic steps x → Reach steps x y → IsAcyclic steps y
IsAcyclic-Reach acyclic start = acyclic
IsAcyclic-Reach acyclic (follow path edge) = IsAcyclic-link (IsAcyclic-Reach acyclic path) edge

Reach-split :
    {steps : Steps} {x y : String}
    → Reach steps x y
    → (x ≡ y) ⊎ ((z : String) × Edge steps x z × Reach steps z y)
Reach-split start = inl refl
Reach-split {steps = steps} (follow {z = z} path edge) = elim (Reach-split path) [
  | inl same ↦ inr (z, subst (λ w. Edge steps w z) (sym same) edge, start)
  | inr first ↦ let (z, link, rest) = first in inr (z, link, follow rest edge)
]

IsAcyclic-loop :
    {steps : Steps} {a : String}
    → IsAcyclic steps a
    → (b : String) → Edge steps a b
    → Reach steps b a
    → ⊥
IsAcyclic-loop {steps = steps} (all_below below) b edge back =
    let next = IsAcyclic-loop (below b edge) in
    elim (Reach-split back) [
      | inl same ↦ next b (subst (λ w. Edge steps w b) (sym same) edge) start
      | inr first ↦ let (c, link, rest) = first in next c link (follow rest edge)
    ]

pub IsAcyclic-detect_cycles :
    (steps : Steps) (x : String)
    → IsAcyclic steps x
    → (detect_cycles (suc (length steps)) steps [] [] x).result ≡ none
IsAcyclic-detect_cycles steps x acyclic = elim (detect_cycles_lem steps x) [
  | inl fine ↦ fine.0
  | inr report ↦
      let (a, b, e, loop) = report in
      let (path, edge, back) = loop in
      absurd (IsAcyclic-loop (IsAcyclic-Reach acyclic path) b edge back)
]
