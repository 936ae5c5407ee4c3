-- ===== src/Specification/Summary.antt =====
-- `get_specification_summary` behind `compile_specification`.
use pi_development_agent.Base.{
  ℕ, suc, Text, String, string_Eq, ==_refl, Bool, true, false, List, [], ◌∷◌, ◌++◌, map, filter,
  find, any, All, In, here, there, length, some, ◌≡◌, ◌↔◌, arith, refl, sym, ◌∙◌, ap, subst,
}
use pi_development_agent.Specification.Targets.{SourceSymbol}
use pi_development_agent.Specification.Model.{Python, CheckRow, Db, SpecificationResult}
use pi_development_agent.Specification.Persist.{
  Order, compile_specification, SpecificationSummary, get_specification_summary, requirement_row,
  is_specification_of, is_check_of,
}
use pi_development_agent.Specification.Verified.{IsNew, compile_specification-total}

module _ {A : Type 0} (p : A → Bool) where
  find-append_none : (xs ys : List A) → any p xs ≡ false → find p (xs ++ ys) ≡ find p ys
  find-append_none [] ys h = refl
  find-append_none (x ∷ xs) ys h = ground (arith, find-append_none xs ys)

  filter-append_none : (xs ys : List A) → any p xs ≡ false → filter p (xs ++ ys) ≡ filter p ys
  filter-append_none [] ys h = refl
  filter-append_none (x ∷ xs) ys h = ground (arith, filter-append_none xs ys)

  filter-All : (xs : List A) → All (λ x. p x ≡ true) xs → filter p xs ≡ xs
  filter-All [] h = refl
  filter-All (x ∷ xs) h = ground (arith, filter-All xs)

abbrev pub check_id : CheckRow → Text
check_id c = c.id

length-ids : (rows : List CheckRow) → length (map check_id rows) ≡ length rows
length-ids [] = refl
length-ids (row ∷ rows) = ap suc (length-ids rows)

In-map :
    (row : CheckRow) (rows : List CheckRow) → In row rows → In (check_id row) (map check_id rows)
In-map row [] m = elim m [ ]
In-map row (r ∷ rows) (here e) = here (ap check_id e)
In-map row (r ∷ rows) (there m) = there (In-map row rows m)

In-map_mono :
    (id : Text) (xs ys : List CheckRow)
    → ((row : CheckRow) → In row xs → In row ys)
    → In id (map check_id xs)
    → In id (map check_id ys)
In-map_mono id [] ys h m = elim m [ ]
In-map_mono id (x ∷ xs) ys h (here e) =
    subst (λ (t : Text). In t (map check_id ys)) (sym e) (In-map x ys (h x (here refl)))
In-map_mono id (x ∷ xs) ys h (there m) = In-map_mono id xs ys (λ row n. h row (there n)) m

new_of_run :
    (run_id : String) (rows : List CheckRow)
    → All (IsNew run_id) rows
    → All (λ c. is_check_of run_id c ≡ true) rows
new_of_run run_id [] h = tt
new_of_run run_id (row ∷ rows) h =
    ((string_Eq.same_iff row.run_id run_id).1 h.0.of_run, new_of_run run_id rows h.1)

-- A reading order gives the rows that there are: as many, and the same.
pub record IsReading (as_read : List CheckRow → List CheckRow) : Type 0 where
  pub same_number : (rows : List CheckRow) → length (as_read rows) ≡ length rows
  pub same_rows : (rows : List CheckRow) (row : CheckRow) → In row (as_read rows) ↔ In row rows

-- For a run without checks and without a specification, whatever the order in which the database
-- gives the rows, the summary behind a compilation has as many checks as the result lists and an
-- identifier is a check's of the summary exactly when the result lists it; the identifiers,
-- requirements and digest of its specification are those of the result.
pub get_specification_summary-compile :
    (py : Python) (now new_id : ℕ) (o : Order) (symbols : List SourceSymbol) (db : Db)
    (as_read : List CheckRow → List CheckRow)
    → IsReading as_read
    → any (is_specification_of o.run_id) db.specifications ≡ false
    → any (is_check_of o.run_id) db.checks ≡ false
    → (result : SpecificationResult) × (after : Db) × (summary : SpecificationSummary)
      × (compile_specification py now new_id o symbols db ≡ some (result, after))
      × (get_specification_summary as_read o.run_id after ≡ some summary)
      × (length summary.acceptance_checks ≡ length result.check_ids)
      × ((id : Text) → (In id (map check_id summary.acceptance_checks) ↔ In id result.check_ids))
      × (summary.specification.acceptance_check_ids ≡ result.check_ids)
      × (summary.specification.requirements ≡ map requirement_row result.requirements)
      × (summary.specification.digest ≡ result.digest)
unfolding get_specification_summary
get_specification_summary-compile py now new_id o symbols db as_read reading none_yet no_checks =
    let (result, after, built, w) =
      compile_specification-total py now new_id o symbols db none_yet in
    let found : find (is_specification_of o.run_id) after.specifications ≡ some w.row =
      rw
        (
          w.specified,
          find-append_none (is_specification_of o.run_id) db.specifications (w.row ∷ []) none_yet,
          w.of_order,
          ==_refl o.run_id,
        )
        refl in
    let checks : filter (is_check_of o.run_id) after.checks ≡ w.rows =
      rw (w.appended, filter-append_none (is_check_of o.run_id) db.checks w.rows no_checks)
        (filter-All (is_check_of o.run_id) w.rows (new_of_run o.run_id w.rows w.new)) in
    let ids : map check_id w.rows ≡ result.check_ids = sym (w.returned ∙ w.listed) in
    (
      result,
      after,
      record { specification = w.row; acceptance_checks = as_read w.rows },
      built,
      rw (found, checks) refl,
      reading.same_number w.rows ∙ sym (length-ids w.rows) ∙ ap length ids,
      λ id.
          subst (λ listed. In id (map check_id (as_read w.rows)) ↔ In id listed) ids
            (
              In-map_mono id (as_read w.rows) w.rows (λ row. (reading.same_rows w.rows row).0),
              In-map_mono id w.rows (as_read w.rows) (λ row. (reading.same_rows w.rows row).1),
            ),
      sym w.returned,
      w.kept,
      sym w.sealed,
    )
