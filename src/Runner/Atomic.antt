-- ===== src/Runner/Atomic.antt =====
-- A deployment as its users see it: the addons path and the database change together or not at all.
use pi_development_agent.Base.{
  Text, string_Eq, lookup, true, Option, none, some, ◌≡◌, ◌≢◌, refl, sym, subst,
}
use pi_development_agent.Runner.Job.{Job}
use pi_development_agent.Runner.Command.{run_odoo_module_command}
use pi_development_agent.Runner.Deploy.{
  Terminal, succeeded, failed, rolled_back, Machine, Outside, run_deploy,
}
use pi_development_agent.Runner.Rollback.{IsClean, IsFaithful, run_deploy-rolled_back}
use pi_development_agent.Runner.Success.{run_deploy-succeeded, run_deploy-IsCommanded}
use pi_development_agent.Runner.Others.{IsTidy, run_deploy-others}

-- what is served: the module's directory, the rest of the addons path and the database
pub record Server (A D : Type 0) : Type 0 where
  pub files : Option A
  pub others : A
  pub data_base : D

module _ {A D X : Type 0} where
  abbrev pub server_of : Machine A D X → Server A D
  server_of m = record { files = m.addon; others = m.others; data_base = m.database }

  -- The deployment as one step: nothing has changed, or the module's files are those of the signed
  -- archive in place of the old ones, the other modules are as they were, and the database is what
  -- the module command, which has returned, has made of it.
  pub data Atomic (o : Outside A D X) (job : Job) (s : Server A D) : Server A D → Type 0 where
    unchanged : Atomic o job s s
    replaced :
        (artifact : Text)
        → o.verify_digest artifact job.artifact_digest ≡ true
        → (run_odoo_module_command o.execute o.command job.operation job.module_name s.data_base).1
          ≡ true
        → Atomic o job s (record {
          files = (o.unpacks artifact none).0;
          others = s.others;
          data_base =
              (run_odoo_module_command o.execute o.command job.operation job.module_name
                s.data_base).0;
        })

  -- A deployment that does not report a failure is atomic: either the module's directory, the rest of
  -- the addons path and the database are as they were, or the directory is what the archive with the
  -- signed digest gives, the rest is as it was and the database is what the module command has made
  -- of it without an error. The backup command leaves no file when it fails, a dump can be restored,
  -- no backup of this job is there from before, and the archive has nothing outside the module's
  -- directory.
  pub run_deploy-Atomic :
      (o : Outside A D X) (job : Job) (m : Machine A D X) (state : Terminal)
      → IsClean o
      → IsFaithful o
      → IsTidy o job
      → m.backup ≡ none
      → lookup job.job_uuid (run_deploy o job m).reports ≡ some state
      → state ≢ failed
      → Atomic o job (server_of m) (server_of (run_deploy o job m))
  run_deploy-Atomic o job m failed c f t b h n = absurd (n refl)
  run_deploy-Atomic o job m rolled_back c f t b h n =
      let (files, d) = run_deploy-rolled_back o job m c f b h in
      let rest = run_deploy-others o job m t in
      subst (λ s. Atomic o job (server_of m) s)
        (λ i. record { files = sym files i; others = sym rest i; data_base = sym d i }) unchanged
  run_deploy-Atomic o job m succeeded c f t b h n =
      let (_, (artifact, digest, files), _, _) = run_deploy-succeeded o job m h in
      let (made, ran) = run_deploy-IsCommanded o job m h in
      let rest = run_deploy-others o job m t in
      subst (λ s. Atomic o job (server_of m) s)
        (λ i. record { files = sym files i; others = sym rest i; data_base = sym made i })
        (replaced artifact digest ran)
