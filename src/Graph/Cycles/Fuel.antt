-- ===== src/Graph/Cycles/Fuel.antt =====
-- detectCycles: a depth of one call more than there are steps is enough.
-- The steps that are not visited yet.
use floxy_pro.Prelude.{
  Bool-cases, List, Option-cases, String, [], ap, arith, contains, false, if◌then◌else◌, inl, inr,
  length, nat_eq, refl, some, str_iff, string_eq, subst, suc, sym, true, zero, ℕ, ◌<◌, ◌==◌, ◌∙◌,
  ◌∷◌, ◌≡◌, ◌≢◌, ◌≤◌,
}
use floxy_pro.Graph.{
  Search, Steps, detect_cycles, has, is_skipped, out_of_fuel, outs, probe, probe_all,
}
use floxy_pro.Graph.Cycles.{
  detect_cycles-absent, detect_cycles-there, probe_all-next, probe_all-stop,
}
use floxy_pro.Prelude.Maps.{lookup}

unfoldable pub room : Steps → List String → ℕ
room [] visited = 0
room ((k, def) ∷ m) visited =
    let rest = room m visited in if contains visited k then rest else suc rest

pub room-le_length : (m : Steps) (visited : List String) → room m visited ≤ length m
unfolding room
room-le_length [] visited = omega arith
room-le_length ((k, def) ∷ m) visited = ground (arith, room-le_length m visited)

pub room-mark :
    (m : Steps) (visited : List String) (x : String) → room m (x ∷ visited) ≤ room m visited
unfolding room
room-mark [] visited x = omega arith
room-mark ((k, def) ∷ m) visited x = ground (arith, room-mark m visited x)

pub room-mark_new :
    (m : Steps) (visited : List String) (x : String)
    → has m x ≡ true
    → contains visited x ≡ false
    → room m (x ∷ visited) < room m visited
unfolding room lookup
room-mark_new [] visited x known fresh = absurd (cc)
room-mark_new ((k, def) ∷ m) visited x known fresh = elim (Bool-cases (k == x)) [
  | inl same ↦
      let e : k ≡ x = (str_iff k x).0 same in
      ground (arith, e, str_iff x k, room-mark m visited x, fresh)
  | inr other ↦ ground (arith, room-mark_new m visited x (rw other at known) fresh)
]

module _ (steps : Steps) (call : List String → String → Search) (stack : List String) (x : String)
    (calls : (v : List String) (y : String) → room steps (call v y).visited ≤ room steps v) where
  probe-room :
      (v : List String) (y : String)
      → room steps (probe steps call stack x v y).visited ≤ room steps v
  unfolding probe
  probe-room v y = ground (arith, calls v y)

  probe_all-room :
      (xs v : List String)
      → room steps (probe_all (probe steps call stack x) v xs).visited ≤ room steps v
  unfolding probe_all
  probe_all-room [] v = omega arith
  probe_all-room (y ∷ ys) v =
      let body = probe steps call stack x in
      ground (arith, probe-room v y, probe_all-room ys (body v y).visited)

  module _ (fuel : ℕ)
      (ends : (v : List String) (y : String)
        → has steps y ≡ true
        → contains v y ≡ false
        → room steps v ≤ fuel
        → (call v y).result ≢ some out_of_fuel) where
    probe-ends :
        (v : List String) (y : String)
        → room steps v ≤ fuel
        → (probe steps call stack x v y).result ≢ some out_of_fuel
    unfolding probe
    probe-ends v y small failed = elim (Bool-cases (is_skipped steps y)) [
      | inl skip ↦ absurd (cc (rw skip at failed))
      | inr keep ↦ elim (Bool-cases (contains v y)) [
        | inl seen ↦ elim (Bool-cases (contains stack y)) [
          | inl open_call ↦ absurd (cc (rw (keep, seen, open_call) at failed))
          | inr closed ↦ absurd (cc (rw (keep, seen, closed) at failed))
        ]
        | inr fresh ↦ ends v y (ground (arith, keep)) fresh small (rw (keep, fresh) at failed)
      ]
    ]

    probe_all-ends :
        (xs v : List String)
        → room steps v ≤ fuel
        → (probe_all (probe steps call stack x) v xs).result ≢ some out_of_fuel
    unfolding probe_all
    probe_all-ends [] v small failed = absurd (cc)
    probe_all-ends (y ∷ ys) v small failed =
        elim (Option-cases (probe steps call stack x v y).result) [
          | inl fine ↦
              let next = probe_all-next (probe steps call stack x) v y ys fine in
              probe_all-ends ys (probe steps call stack x v y).visited
                (omega (arith, small, probe-room v y)) (sym (ap (λ s. s.result) next) ∙ failed)
          | inr bad ↦
              let stop = probe_all-stop (probe steps call stack x) v y ys bad.1 in
              probe-ends v y small (bad.1 ∙ (sym stop ∙ failed))
        ]

detect_cycles-room :
    (steps : Steps) (fuel : ℕ) (visited stack : List String) (x : String)
    → room steps (detect_cycles fuel steps visited stack x).visited ≤ room steps visited
unfolding detect_cycles
detect_cycles-room steps zero visited stack x = omega arith
detect_cycles-room steps (suc fuel) visited stack x = elim (Option-cases (lookup x steps)) [
  | inl absent ↦
      subst (λ s. room steps s.visited ≤ room steps visited)
        (sym (detect_cycles-absent fuel steps visited stack x absent)) (room-mark steps visited x)
  | inr there ↦
      let inner =
        probe_all-room steps (λ v y. detect_cycles fuel steps v (x ∷ stack) y) (x ∷ stack) x
          (λ v y. detect_cycles-room steps fuel v (x ∷ stack) y) (outs there.0) (x ∷ visited) in
      subst (λ s. room steps s.visited ≤ room steps visited)
        (sym (detect_cycles-there fuel steps visited stack x there.0 there.1))
        (omega (arith, inner, room-mark steps visited x))
]

detect_cycles-ends :
    (steps : Steps) (fuel : ℕ) (visited stack : List String) (x : String)
    → has steps x ≡ true
    → contains visited x ≡ false
    → room steps visited ≤ fuel
    → (detect_cycles fuel steps visited stack x).result ≢ some out_of_fuel
unfolding detect_cycles
detect_cycles-ends steps zero visited stack x known fresh small failed =
    absurd (omega (arith, small, room-mark_new steps visited x known fresh))
detect_cycles-ends steps (suc fuel) visited stack x known fresh small failed =
    elim (Option-cases (lookup x steps)) [
      | inl absent ↦
          let e = detect_cycles-absent fuel steps visited stack x absent in
          absurd (cc (ap (λ s. s.result) e, failed))
      | inr there ↦
          let e = detect_cycles-there fuel steps visited stack x there.0 there.1 in
          let call = λ (v : List String) (y : String). detect_cycles fuel steps v (x ∷ stack) y in
          probe_all-ends steps call (x ∷ stack) x
            (λ v y. detect_cycles-room steps fuel v (x ∷ stack) y) fuel
            (λ v y k f s. detect_cycles-ends steps fuel v (x ∷ stack) y k f s) (outs there.0)
            (x ∷ visited) (omega (arith, small, room-mark_new steps visited x known fresh))
            (sym (ap (λ s. s.result) e) ∙ failed)
    ]

-- The call that the validation makes never runs out.
pub detect_cycles-enough :
    (steps : Steps) (x : String)
    → (detect_cycles (suc (length steps)) steps [] [] x).result ≢ some out_of_fuel
unfolding detect_cycles
detect_cycles-enough steps x failed = elim (Option-cases (lookup x steps)) [
  | inl absent ↦
      let e = detect_cycles-absent (length steps) steps [] [] x absent in
      absurd (cc (ap (λ s. s.result) e, failed))
  | inr there ↦
      detect_cycles-ends steps (suc (length steps)) [] [] x (rw there.1 refl) refl
        (omega (arith, room-le_length steps [])) failed
]
