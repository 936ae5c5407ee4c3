-- ===== src/Specification/Verified.antt =====
-- What `compile_specification` promises to the worker's gate and to the page of a run.
use pi_development_agent.Base.{
  ℕ, suc, ◌≤◌, ◌<◌, codes, String, string_Eq, elem, true, false, List, [], ◌∷◌, ◌++◌, map, All, any,
  length, none, some, ◌≡◌, ◌↔◌, arith, refl, ap, Bool-cases, inl, inr,
}
use pi_development_agent.Repair.Acceptance.{required_acceptance_failures}
use pi_development_agent.Specification.Targets.{SourceSymbol}
use pi_development_agent.Specification.Model.{
  valid_check_kinds, CheckSpec, CheckRow, Python, RunSpecification, Db, SpecificationResult,
}
use pi_development_agent.Specification.Persist.{
  Order, all_checks, check_row, check_rows, insert_rows, persist, compile_specification,
  requirement_row, is_specification_of,
}
use pi_development_agent.Specification.Evaluate.{ValidationReport, PackagedModule, evaluate_checks}
use pi_development_agent.Specification.Yields.{some-Yields}
use pi_development_agent.Specification.Bounds.{IsCompiled}
use pi_development_agent.Specification.Totality.{build_requirements-total}
use pi_development_agent.Specification.Gate.{gate_opens, IsAwaited-row, In-append_right}
use pi_development_agent.Specification.Settled.{checks_of}

-- a new check of a run, as the compiler writes it
pub record IsNew (run_id : String) (row : CheckRow) : Type 0 where
  pub of_run : row.run_id ≡ run_id
  pub pending : row.status ≡ "pending"
  pub needed : row.check.is_required ≡ true
  pub valid : (kind : String) × (row.kind ≡ codes kind) × (elem kind valid_check_kinds ≡ true)

-- What the compilation leaves: a specification row that lists the new checks, and those checks
-- behind the old ones.
pub record IsWritten (o : Order) (db : Db) (result : SpecificationResult) (after : Db)
    : Type 0 where
  pub rows : List CheckRow
  pub row : RunSpecification
  pub appended : after.checks ≡ db.checks ++ rows
  pub specified : after.specifications ≡ db.specifications ++ (row ∷ [])
  pub new : All (IsNew o.run_id) rows
  pub few : length rows ≤ 214
  pub of_order : row.run_id ≡ o.run_id
  pub listed : row.acceptance_check_ids ≡ map (λ (c : CheckRow). c.id) rows
  pub returned : result.check_ids ≡ row.acceptance_check_ids
  pub named : result.specification_id ≡ row.id
  pub sealed : result.digest ≡ row.digest
  pub kept : row.requirements ≡ map requirement_row result.requirements

rows-IsNew :
    (py : Python) (now : ℕ) (run_id : String) (n : ℕ) (specs : List CheckSpec)
    → All IsCompiled specs
    → All (IsNew run_id) (check_rows py now run_id n specs)
      × (length (check_rows py now run_id n specs) ≡ length specs)
unfolding check_rows check_row
rows-IsNew py now run_id n [] h = (tt, refl)
rows-IsNew py now run_id n (spec ∷ specs) h =
    let (new, e) = rows-IsNew py now run_id (suc n) specs h.1 in
    (
      (
        record { of_run = refl; pending = refl; needed = h.0.1; valid = (spec.kind, refl, h.0.0) },
        new,
      ),
      ap suc e,
    )

module _ (py : Python) (now new_id : ℕ) (o : Order) (symbols : List SourceSymbol) (db : Db) where
  pub compile_specification-raises :
      (compile_specification py now new_id o symbols db ≡ none)
      ↔ (any (is_specification_of o.run_id) db.specifications ≡ true)
  unfolding compile_specification persist
  compile_specification-raises =
      let (requirements, built, c) =
        some-Yields (build_requirements-total py o.prompt o.module_name o.is_upgrade symbols) in
      elim (Bool-cases (any (is_specification_of o.run_id) db.specifications)) [
        | inl old ↦ (λ h. old, λ h. rw (built, old) refl)
        | inr new ↦ (λ h. absurd (ground (arith, built)), λ h. absurd (ground arith))
      ]

  pub compile_specification-fresh :
      (answer : SpecificationResult × Db)
      → compile_specification py now new_id o symbols db ≡ some answer
      → any (is_specification_of o.run_id) db.specifications ≡ false
  compile_specification-fresh answer h =
      elim (Bool-cases (any (is_specification_of o.run_id) db.specifications)) [
        | inl old ↦ absurd (ground (arith, compile_specification-raises.1 old))
        | inr new ↦ new
      ]

  pub compile_specification-total :
      any (is_specification_of o.run_id) db.specifications ≡ false
      → (result : SpecificationResult) × (after : Db) × (compile_specification py now new_id o
            symbols db
          ≡ some (result, after))
        × IsWritten o db result after
  unfolding compile_specification persist insert_rows
  compile_specification-total fresh =
      let (requirements, built, c) =
        some-Yields (build_requirements-total py o.prompt o.module_name o.is_upgrade symbols) in
      let written = insert_rows py now new_id o symbols requirements db in
      let (new, e) = rows-IsNew py now o.run_id 0 (all_checks requirements) c.bounded.compiled in
      (
        written.0,
        written.1,
        rw (built, fresh) refl,
        record {
          rows = check_rows py now o.run_id 0 (all_checks requirements);
          row = _;
          appended = refl;
          specified = refl;
          new = new;
          few = omega (arith, e, c.bounded.fewer);
          of_order = refl;
          listed = refl;
          returned = refl;
          named = refl;
          sealed = refl;
          kept = refl;
        },
      )

  pub compile_specification-gate :
      (later : ℕ) (packed : PackagedModule) (report : ValidationReport)
      → any (is_specification_of o.run_id) db.specifications ≡ false
      → (result : SpecificationResult) × (after : Db) × (compile_specification py now new_id o
            symbols db
          ≡ some (result, after))
        × ((required_acceptance_failures
                (checks_of (evaluate_checks later packed report o.run_id after.checks))
                o.run_id
                (some "validate_and_verify")
              ≡ [])
            ↔ ((report.runtime_ok ≡ true) × (0 < report.test_count)))
  unfolding compile_specification persist insert_rows
  compile_specification-gate later packed report fresh =
      let (requirements, built, c) =
        some-Yields (build_requirements-total py o.prompt o.module_name o.is_upgrade symbols) in
      let written = insert_rows py now new_id o symbols requirements db in
      let (row, m, a) =
        IsAwaited-row py now o.run_id 0 (all_checks requirements) c.bounded.compiled c.tested in
      (
        written.0,
        written.1,
        rw (built, fresh) refl,
        gate_opens later packed report o.run_id row _ (In-append_right row db.checks _ m) a,
      )
