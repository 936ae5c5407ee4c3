-- ===== src/Specification/Gate.antt =====
-- Compiling a specification, validating the module and the gate of the worker together: when the task
-- `validate_and_verify` may succeed.
use pi_development_agent.Base.{
  ℕ, suc, ◌<◌, codes, String, string_Eq, nat_Eq, list_Eq, option_Eq, ==_refl, ltb, elem, true,
  false, ◌&&◌, List, [], ◌∷◌, ◌++◌, filter, any, all, All, all-In, In, here, there, In-filter, some,
  ◌≡◌, ◌↔◌, arith, refl, sym, ap, ◌∙◌, Bool-cases, inl, inr,
}
use pi_development_agent.Repair.Acceptance.{
  AcceptanceCheck, required_acceptance_failures, required_acceptance_failures-none, is_required_of,
  has_passed, no_rows,
}
use pi_development_agent.Specification.Model.{CheckRow, CheckSpec, Python}
use pi_development_agent.Specification.Persist.{check_row, check_rows}
use pi_development_agent.Specification.Evaluate.{ValidationReport, PackagedModule, evaluate_checks}
use pi_development_agent.Specification.Bounds.{IsCompiled}
use pi_development_agent.Specification.Complete.{is_scenario}
use pi_development_agent.Specification.Settled.{
  checks_of, settled, settled_keeps, settled_good, settled_bad,
}

abbrev verified_in : String → List AcceptanceCheck → List AcceptanceCheck
verified_in run_id = filter (is_required_of run_id "validate_and_verify")

-- a scenario check of the run that has not passed
pub record IsAwaited (run_id : String) (row : CheckRow) : Type 0 where
  pub kind : row.check.kind ≡ codes "business_scenario"
  pub needed : is_required_of run_id "validate_and_verify" row.check ≡ true
  pub pending : has_passed row.check ≡ false

module _ (now : ℕ) (packed : PackagedModule) (report : ValidationReport) (run_id : String) where
  evaluated_good :
      (rows : List CheckRow)
      → (report.runtime_ok && ltb 0 report.test_count) ≡ true
      → all has_passed
          (verified_in run_id (checks_of (evaluate_checks now packed report run_id rows)))
        ≡ true
  unfolding evaluate_checks
  evaluated_good [] good = refl
  evaluated_good (row ∷ rows) good =
      let check = (settled now packed report run_id row).check in
      elim (Bool-cases (is_required_of run_id "validate_and_verify" check)) [
        | inl needed ↦
            let kept =
              sym (settled_keeps now packed report run_id "validate_and_verify" row) ∙ needed in
            rw (needed, settled_good now packed report run_id row good kept)
              (evaluated_good rows good)
        | inr other ↦ rw other (evaluated_good rows good)
      ]

  In-evaluated :
      (row : CheckRow) (rows : List CheckRow)
      → In row rows
      → In
          (settled now packed report run_id row).check
          (checks_of (evaluate_checks now packed report run_id rows))
  unfolding evaluate_checks
  In-evaluated row [] m = elim m [ ]
  In-evaluated row (x ∷ rows) (here e) =
      here (ap (λ (t : CheckRow). (settled now packed report run_id t).check) e)
  In-evaluated row (x ∷ rows) (there m) = there (In-evaluated row rows m)

  evaluated_bad :
      (row : CheckRow) (rows : List CheckRow)
      → In row rows
      → IsAwaited run_id row
      → (report.runtime_ok && ltb 0 report.test_count) ≡ false
      → all has_passed
          (verified_in run_id (checks_of (evaluate_checks now packed report run_id rows)))
        ≡ false
  evaluated_bad row rows m a bad =
      let listed = verified_in run_id (checks_of (evaluate_checks now packed report run_id rows)) in
      let needed = settled_keeps now packed report run_id "validate_and_verify" row ∙ a.needed in
      let place =
        In-filter (is_required_of run_id "validate_and_verify") _ _ (In-evaluated row rows m)
          needed in
      elim (Bool-cases (all has_passed listed)) [
        | inr shut ↦ shut
        | inl passed ↦ absurd (
            ground (
              arith,
              all-In has_passed _ listed passed place,
              settled_bad now packed report run_id row bad a.kind a.needed a.pending,
            ))
      ]

scenario_row :
    (py : Python) (now : ℕ) (run_id : String) (n : ℕ) (spec : CheckSpec)
    → IsCompiled spec
    → is_scenario spec ≡ true
    → IsAwaited run_id (check_row py now run_id n spec)
unfolding check_row is_required_of
scenario_row py now run_id n spec h it = record {
  kind = ap codes ((string_Eq.same_iff spec.kind "business_scenario").0 (ground arith));
  needed = ground (arith, ==_refl run_id, h.1);
  pending = refl;
}

-- The rows that are written hold an awaited one.
pub IsAwaited-row :
    (py : Python) (now : ℕ) (run_id : String) (n : ℕ) (specs : List CheckSpec)
    → All IsCompiled specs
    → any is_scenario specs ≡ true
    → (row : CheckRow) × In row (check_rows py now run_id n specs) × IsAwaited run_id row
unfolding check_rows
IsAwaited-row py now run_id n [] h scenario = absurd (cc)
IsAwaited-row py now run_id n (spec ∷ specs) h scenario = elim (Bool-cases (is_scenario spec)) [
  | inl it ↦ (check_row py now run_id n spec, here refl, scenario_row py now run_id n spec h.0 it)
  | inr other ↦
      let (row, m, a) = IsAwaited-row py now run_id (suc n) specs h.1 (ground arith) in
      (row, there m, a)
]

pub In-append_right : (row : CheckRow) (xs ys : List CheckRow) → In row ys → In row (xs ++ ys)
In-append_right row [] ys m = m
In-append_right row (x ∷ xs) ys m = there (In-append_right row xs ys m)

In-no_rows : (c : AcceptanceCheck) (cs : List AcceptanceCheck) → In c cs → no_rows cs ≡ false
In-no_rows c [] m = elim m [ ]
In-no_rows c (x ∷ cs) m = refl

-- With an awaited row among the checks, the gate depends on the report alone.
pub gate_opens :
    (now : ℕ) (packed : PackagedModule) (report : ValidationReport) (run_id : String)
    (row : CheckRow) (rows : List CheckRow)
    → In row rows
    → IsAwaited run_id row
    → (required_acceptance_failures
          (checks_of (evaluate_checks now packed report run_id rows))
          run_id
          (some "validate_and_verify")
        ≡ [])
      ↔ ((report.runtime_ok ≡ true) × (0 < report.test_count))
unfolding elem
gate_opens now packed report run_id row rows m a =
    let checks = checks_of (evaluate_checks now packed report run_id rows) in
    let needed = settled_keeps now packed report run_id "validate_and_verify" row ∙ a.needed in
    let place =
      In-filter (is_required_of run_id "validate_and_verify") _ _
        (In-evaluated now packed report run_id row rows m) needed in
    let there_is = In-no_rows _ _ place in
    let open_iff = required_acceptance_failures-none checks run_id "validate_and_verify" in
    elim (Bool-cases (report.runtime_ok && ltb 0 report.test_count)) [
      | inl good ↦
          let passed = evaluated_good now packed report run_id rows good in ground (arith, open_iff)
      | inr bad ↦
          let failed = evaluated_bad now packed report run_id row rows m a bad in
          ground (arith, open_iff)
    ]
