-- ===== src/Store/Joins/Ready.antt =====
-- When a join state is ready: the comparison of lengths against the steps that it waits for.
use floxy_pro.Prelude.{
  All, Bool, Bool-cases, List, Option, String, [], arith, contains, contains-append, false, inl,
  inr, length, length-append, nat_eq, none, str_iff, string_eq, true, ◌++◌, ◌+◌, ◌==◌, ◌↔◌, ◌∷◌,
  ◌≡◌, ◌≢◌, ◌≤◌, ◌⊎◌,
}
use floxy_pro.Model.{JoinState}
use floxy_pro.Store.Joins.Names.{
  Once, Within-of_contains, append-Once, contains_of_full, length-le_of_Within,
}
use floxy_pro.Store.Joins.Reports.{Reflects, last_report}

-- Some report on the step.
abbrev pub IsReported : List (String × Bool) → String → Type 0
IsReported reports step = last_report step none reports ≢ none

module _ (waiting : List String) where
  pub reported_waiting :
      (reports : List (String × Bool)) (seen : Option Bool) (step : String)
      → All (λ report. contains waiting report.0 ≡ true) reports
      → last_report step seen reports ≢ none
      → (contains waiting step ≡ true) ⊎ (seen ≢ none)
  reported_waiting [] seen step known some_report = inr some_report
  reported_waiting ((name, success) ∷ reports) seen step known some_report =
      elim (Bool-cases (name == step)) [
        | inl here ↦ inl (ground (arith, str_iff name step, known.0))
        | inr other ↦ reported_waiting reports seen step known.1 (rw other at some_report)
      ]

  module _ (state : JoinState) (seen : String → Option Bool) (h : Reflects state seen) where
    disjoint : (x : String) → contains state.completed x ≡ true → contains state.failed x ≡ false
    disjoint x c = ground (arith, h.completed x, h.failed x)

    processed-Once : Once (state.completed ++ state.failed)
    processed-Once =
        append-Once state.completed state.failed h.once_completed h.once_failed disjoint

    processed :
        (x : String) → (contains (state.completed ++ state.failed) x ≡ true) ↔ (seen x ≢ none)
    processed x = (
      λ c gone.
          ground (arith, contains-append state.completed state.failed x, h.completed x, h.failed x),
      λ there.
          ground (arith, contains-append state.completed state.failed x, h.completed x, h.failed x),
    )

    -- The count of what is processed reaches the count of what is waited for exactly when each step
    -- that is waited for is processed.
    pub full_iff :
        Once waiting
        → ((x : String) → seen x ≢ none → contains waiting x ≡ true)
        → (length waiting ≤ length state.completed + length state.failed)
          ↔ ((x : String) → contains waiting x ≡ true → seen x ≢ none)
    full_iff once known =
        let sum = length-append state.completed state.failed in
        let within =
          Within-of_contains (state.completed ++ state.failed) waiting
            (λ x c. known x ((processed x).0 c)) in
        (
          λ enough x c. (processed x).0 (
              contains_of_full (state.completed ++ state.failed) waiting x processed-Once once
                within (omega (arith, sum)) c),
          λ all_seen. omega (
            arith,
            sum,
            length-le_of_Within waiting (state.completed ++ state.failed) once processed-Once (
                Within-of_contains waiting (state.completed ++ state.failed)
                  (λ x c. (processed x).1 (all_seen x c))),
          ),
        )
