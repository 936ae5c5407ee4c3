-- ===== src/Deployment/Admission.antt =====
-- What an accepted request for a deployment has passed.
use pi_development_agent.Base.{
  ℕ, Text, strip, String, string_Eq, nat_Eq, ◌==◌, elem-In, Bool, true, false, not, ◌&&◌, ◌||◌,
  List, [], ◌∷◌, some, leb, In, here, there, In-filter_inv, In-any, arith, ◌≡◌, ◌≢◌, ◌⊎◌, inl, inr,
  Bool-cases, Option-cases, refl, ap,
}
use pi_development_agent.Deployment.Model.{
  DeploymentStatus, pending_approval, succeeded, Project, Instance, Artifact, ValidationRun,
  Deployment, Tables,
}
use pi_development_agent.Deployment.Request.{
  is_blank, requested, latest, passed_validation, is_staged, may_go_live, has_succeeded,
  new_deployment, request_deployment,
}

latest-In :
    {A : Type 0} (created_at : A → ℕ) (xs : List A) (x : A)
    → latest created_at xs ≡ some x
    → In x xs
unfolding latest
latest-In created_at [] x h = cc
latest-In created_at (y ∷ xs) x h = elim (Option-cases (latest created_at xs)) [
  | inl empty ↦ here (ground arith)
  | inr (z, q) ↦ elim (Bool-cases (leb (created_at z) (created_at y))) [
    | inl le ↦ here (ground arith)
    | inr gt ↦ there (latest-In created_at xs x (ground arith))
  ]
]

succeeded_of : (s : DeploymentStatus) → has_succeeded s ≡ true → s ≡ succeeded
succeeded_of succeeded h = refl
succeeded_of pending_approval h = cc
succeeded_of DeploymentStatus.approved h = cc
succeeded_of DeploymentStatus.rejected h = cc
succeeded_of DeploymentStatus.queued h = cc
succeeded_of DeploymentStatus.executing h = cc
succeeded_of DeploymentStatus.deploying h = cc
succeeded_of DeploymentStatus.failed h = cc
succeeded_of DeploymentStatus.rolled_back h = cc

phase_cases :
    (phase : String)
    → (phase == "uat" || phase == "ready_for_production") ≡ true
    → (phase ≡ "uat") ⊎ (phase ≡ "ready_for_production")
phase_cases phase h = elim (Bool-cases (phase == "uat")) [
  | inl uat ↦ inl ((string_Eq.same_iff phase "uat").0 uat)
  | inr other ↦ inr ((string_Eq.same_iff phase "ready_for_production").0 (ground arith))
]

module _ (id : String) (now : ℕ) (db : Tables) (project : Project) (instance' : Instance)
    (artifact : Artifact) (requested_by_id : ℕ) (rollback_plan : Text) (d : Deployment) where
  accepted :
      request_deployment id now db project instance' artifact requested_by_id rollback_plan
        ≡ requested d
      → (v : ValidationRun) × (passed_validation db.validations artifact ≡ some v)
        × (d ≡ new_deployment id now db project instance' artifact v requested_by_id rollback_plan)
        × ((instance'.project_id == project.id) ≡ true)
        × ((artifact.project_id == project.id) ≡ true)
        × ((instance'.is_active && instance'.configured) ≡ true)
        × ((artifact.status == "validated") ≡ true)
        × ((instance'.environment == "production" && not (may_go_live db project artifact)) ≡ false)
        × ((instance'.environment == "production" && is_blank (strip rollback_plan)) ≡ false)
  unfolding request_deployment
  accepted h = elim (Option-cases (passed_validation db.validations artifact)) [
    | inl missing ↦ absurd (ground arith)
    | inr (v, q) ↦ (
      v,
      q,
      ground arith,
      ground arith,
      ground arith,
      ground arith,
      ground arith,
      ground arith,
      ground arith,
    )
  ]

  -- A requested deployment waits for approval. Its instance and artifact are the project's, the instance is
  -- active and has a bridge, the artifact is validated, and the run that the row names is in the
  -- table, of this artifact and passed.
  pub request_deployment-requested :
      request_deployment id now db project instance' artifact requested_by_id rollback_plan
        ≡ requested d
      → (d.status ≡ pending_approval)
        × (d.artifact_id ≡ artifact.id)
        × (instance'.project_id ≡ project.id)
        × (artifact.project_id ≡ project.id)
        × (instance'.is_active ≡ true)
        × (instance'.configured ≡ true)
        × (artifact.status ≡ "validated")
        × ((v : ValidationRun) × In v db.validations
            × (v.artifact_id ≡ artifact.id)
            × (v.status ≡ "passed")
            × (d.validation_id ≡ v.id))
  unfolding passed_validation new_deployment
  request_deployment-requested h =
      let (v, q, row, home, own, up, valid, proven, planned) = accepted h in
      let passed : ValidationRun → Bool =
        (λ w. w.artifact_id == artifact.id && w.status == "passed") in
      let (m, ok) =
        In-filter_inv passed v db.validations
          (latest-In (λ (w : ValidationRun). w.created_at) _ v q) in
      (
        ap (λ (x : Deployment). x.status) row,
        ap (λ (x : Deployment). x.artifact_id) row,
        (nat_Eq.same_iff instance'.project_id project.id).0 home,
        (nat_Eq.same_iff artifact.project_id project.id).0 own,
        ground arith,
        ground arith,
        (string_Eq.same_iff artifact.status "validated").0 valid,
        (
          v,
          m,
          (string_Eq.same_iff v.artifact_id artifact.id).0 (ground arith),
          (string_Eq.same_iff v.status "passed").0 (ground arith),
          ap (λ (x : Deployment). x.validation_id) row,
        ),
      )

  -- A request for production is accepted only if the very artifact has succeeded on staging and has
  -- acceptance evidence, the project is in one of the two phases before release, and the rollback
  -- plan is not blank.
  pub request_deployment-production :
      request_deployment id now db project instance' artifact requested_by_id rollback_plan
        ≡ requested d
      → instance'.environment ≡ "production"
      → ((s : Deployment) × In s db.deployments
          × (s.artifact_id ≡ artifact.id)
          × (s.environment ≡ "staging")
          × (s.status ≡ succeeded))
        × In artifact.id db.uat_evidence
        × ((project.phase ≡ "uat") ⊎ (project.phase ≡ "ready_for_production"))
        × (strip rollback_plan ≢ [])
  unfolding may_go_live is_staged
  request_deployment-production h live =
      let (v, q, row, home, own, up, valid, proven, planned) = accepted h in
      let production : (instance'.environment == "production") ≡ true =
        (string_Eq.same_iff instance'.environment "production").1 live in
      let (s, m, ok) = In-any (is_staged artifact) db.deployments (ground arith) in
      (
        (
          s,
          m,
          (string_Eq.same_iff s.artifact_id artifact.id).0 (ground arith),
          (string_Eq.same_iff s.environment "staging").0 (ground arith),
          succeeded_of s.status (ground arith),
        ),
        elem-In artifact.id db.uat_evidence (ground arith),
        phase_cases project.phase (ground arith),
        λ blank. ground (arith, ap is_blank blank),
      )
