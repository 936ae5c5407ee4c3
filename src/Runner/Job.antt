-- ===== src/Runner/Job.antt =====
-- `verify_job` of bridge_runner/runner.py. A nonce that is missing is an empty one; the check of the
-- signature against `canonical_job` is an argument.
use pi_development_agent.Base.{
  ℕ, leb, Text, nat_Eq, list_Eq, ◌==◌, elem, String, Bool, not, ◌||◌, List, [], ◌∷◌, Option, none,
  some, if◌then◌else◌,
}

pub record Job : Type 0 where
  pub job_uuid : String
  pub nonce : Text
  pub operation : Option String
  pub module_name : Text
  pub artifact_digest : Text
  pub expires_at : ℕ

-- The nonces seen from now on, or none where a `RunnerError` is raised.
unfoldable pub verify_job : (Job → Bool) → ℕ → Job → List Text → Option (List Text)
verify_job signed now job seen_nonces =
    if job.nonce == [] || elem job.nonce seen_nonces
    then none
    else if not (signed job)
    then none
    else if leb job.expires_at now
    then none
    else some (job.nonce ∷ seen_nonces)
