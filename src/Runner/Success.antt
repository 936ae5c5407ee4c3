-- ===== src/Runner/Success.antt =====
-- What stands behind a deployment that is reported as succeeded.
use pi_development_agent.Base.{
  ℕ, Text, String, string_Eq, lookup, lookup-insert_self, Bool, true, false, ◌&&◌, List, Option,
  none, some, if◌then◌else◌, ◌≡◌, ◌≢◌, refl, subst, arith, Option-cases,
}
use pi_development_agent.Runner.Job.{Job, verify_job}
use pi_development_agent.Runner.Command.{run_odoo_module_command, flag_of, is_module_name}
use pi_development_agent.Runner.Deploy.{
  Terminal, succeeded, failed, rolled_back, Machine, Outside, save_terminal_status, restore,
  roll_back, recover, install, set_aside, unpack, replace_addon, fetch, use_nonce, deploy_fetched,
  deploy_verified, run_deploy,
}

run_odoo_module_command-flag :
    {D : Type 0} (o : List Text → String → Text → D → D × Option ℕ) (command : List Text)
    (operation : Option String) (name : Text) (d : D)
    → (run_odoo_module_command o command operation name d).1 ≡ true
    → (flag_of operation ≢ none) × (is_module_name name ≡ true)
unfolding run_odoo_module_command
run_odoo_module_command-flag o command operation name d h =
    let flag = Option-cases (flag_of operation) in (ground (arith, flag), ground (arith, flag))

module _ {A D X : Type 0} where
  -- The database is what the module command has made of another one, without an error.
  abbrev pub IsCommanded : Outside A D X → Job → D → Machine A D X → Type 0
  IsCommanded o job d v =
      let ran = run_odoo_module_command o.execute o.command job.operation job.module_name d in
      (v.database ≡ ran.0) × (ran.1 ≡ true)

  reported : Job → Machine A D X → Option Terminal
  reported job m = lookup job.job_uuid m.reports

  saved-not :
      (job : Job) (state : Terminal) (m : Machine A D X)
      → state ≢ succeeded
      → reported job (save_terminal_status job.job_uuid state m) ≢ some succeeded
  unfolding reported save_terminal_status
  saved-not job state m n h =
      let kept = lookup-insert_self job.job_uuid state m.reports in ground arith

  module _ (o : Outside A D X) (job : Job) where
    restore-not :
        (dump : Option X) (m : Machine A D X) → reported job (restore o job dump m) ≢ some succeeded
    unfolding restore
    restore-not none m = saved-not job failed m (λ e. absurd (ground arith))
    restore-not (some x) m =
        let answer = o.restores x m.database in
        saved-not job (if answer.1 && o.restarts_again then rolled_back else failed)
          (record m { database = answer.0 }) (λ e. absurd (ground arith))

    recover-not :
        (dump : Option X) (m : Machine A D X) → reported job (recover o job dump m) ≢ some succeeded
    unfolding recover roll_back
    recover-not none m = saved-not job failed m (λ e. absurd (ground arith))
    recover-not (some x) m = restore-not m.dump (record m { addon = m.backup; backup = none })

    -- the module is installed from these files over this database
    IsInstalled : Option A → D → Machine A D X → Type 0
    IsInstalled files d v =
        (v.addon ≡ files)
        × (flag_of job.operation ≢ none)
        × (is_module_name job.module_name ≡ true)
        × IsCommanded o job d v

    if-IsInstalled :
        (files : Option A) (d : D) (b : Bool) (v w : Machine A D X)
        → (b ≡ true → reported job v ≡ some succeeded → IsInstalled files d v)
        → reported job w ≢ some succeeded
        → reported job (if b then v else w) ≡ some succeeded
        → IsInstalled files d (if b then v else w)
    if-IsInstalled files d true v w f n h = f refl h
    if-IsInstalled files d false v w f n h = absurd (n h)

    install-IsInstalled :
        (m : Machine A D X)
        → reported job (install o job m) ≡ some succeeded
        → IsInstalled m.addon m.database (install o job m)
    unfolding install roll_back IsInstalled save_terminal_status
    install-IsInstalled m h =
        let ran =
          run_odoo_module_command o.execute o.command job.operation job.module_name m.database in
        let tried : Machine A D X = record m { database = ran.0 } in
        if-IsInstalled m.addon m.database (ran.1 && o.restarts)
          (save_terminal_status job.job_uuid succeeded tried) (roll_back o job tried)
          (λ e _.
            let (flag, name) =
              run_odoo_module_command-flag o.execute o.command job.operation job.module_name
                m.database (ground arith) in
            (refl, flag, name, (refl, ground arith)))
          (restore-not m.dump _) h

    -- The directory is empty when the archive is unpacked.
    set_aside-addon : (m : Machine A D X) → (set_aside m).addon ≡ none
    unfolding set_aside
    set_aside-addon m = elim (m.addon) as (λ a. (set_aside (record m { addon = a })).addon ≡ none) [
      | none ↦ refl
      | some files ↦ refl
    ]

    set_aside-database : (m : Machine A D X) → (set_aside m).database ≡ m.database
    unfolding set_aside
    set_aside-database m =
        elim (m.addon) as (λ a. (set_aside (record m { addon = a })).database ≡ m.database) [
          | none ↦ refl
          | some files ↦ refl
        ]

    unpack-IsInstalled :
        (artifact : Text) (m : Machine A D X)
        → reported job (unpack o job artifact m) ≡ some succeeded
        → IsInstalled (o.unpacks artifact none).0 m.database (unpack o job artifact m)
    unfolding unpack
    unpack-IsInstalled artifact m h =
        let aside = set_aside m in
        let out = o.unpacks artifact aside.addon in
        let unpacked : Machine A D X = record aside {
          addon = out.0;
          others = o.spills artifact aside.others;
        } in
        subst (λ d. IsInstalled (o.unpacks artifact none).0 d (unpack o job artifact m))
          (set_aside-database m)
          (subst
            (λ a. IsInstalled (o.unpacks artifact a).0 aside.database (unpack o job artifact m))
            (set_aside-addon m)
            (if-IsInstalled out.0 aside.database out.1 (install o job unpacked)
              (recover o job unpacked.dump unpacked) (λ e. install-IsInstalled unpacked)
              (recover-not unpacked.dump unpacked) h))

    replace_addon-IsInstalled :
        (artifact : Text) (m : Machine A D X)
        → reported job (replace_addon o job artifact m) ≡ some succeeded
        → IsInstalled (o.unpacks artifact none).0 m.database (replace_addon o job artifact m)
    unfolding replace_addon
    replace_addon-IsInstalled artifact m h =
        let out = o.dumps m.database m.dump in
        let dumped : Machine A D X = record m { dump = out.0 } in
        if-IsInstalled (o.unpacks artifact none).0 m.database out.1 (unpack o job artifact dumped)
          (recover o job dumped.dump dumped) (λ e. unpack-IsInstalled artifact dumped)
          (recover-not dumped.dump dumped) h

    pub fetch-digest :
        (artifact : Text)
        → fetch o job ≡ some artifact
        → o.verify_digest artifact job.artifact_digest ≡ true
    unfolding fetch
    fetch-digest artifact h = ground (arith, Option-cases o.artifact)

    fetched-IsInstalled :
        (found : Option Text) (m : Machine A D X)
        → fetch o job ≡ found
        → reported job (deploy_fetched o job found m) ≡ some succeeded
        → (artifact : Text) × (o.verify_digest artifact job.artifact_digest ≡ true)
          × IsInstalled (o.unpacks artifact none).0 m.database (deploy_fetched o job found m)
    unfolding deploy_fetched
    fetched-IsInstalled none m e h = absurd (saved-not job failed m (λ q. absurd (ground arith)) h)
    fetched-IsInstalled (some artifact) m e h =
        (artifact, fetch-digest artifact e, replace_addon-IsInstalled artifact m h)

    verified-IsInstalled :
        (seen : Option (List Text)) (m : Machine A D X)
        → reported job (deploy_verified o job seen m) ≡ some succeeded
        → (seen ≢ none)
          × ((artifact : Text) × (o.verify_digest artifact job.artifact_digest ≡ true)
              × IsInstalled (o.unpacks artifact none).0 m.database (deploy_verified o job seen m))
    unfolding deploy_verified
    verified-IsInstalled none m h = absurd (saved-not job failed m (λ q. absurd (ground arith)) h)
    verified-IsInstalled (some seen) m h = (
      λ e. absurd (ground arith),
      fetched-IsInstalled (fetch o job) (use_nonce job seen m) refl h,
    )

    -- A deployment that is reported as succeeded was accepted by its signature, nonce and time; the
    -- addon's directory holds what its archive, whose digest is the signed one, gives in an empty
    -- directory; and its operation is an installation or an upgrade of a module with a valid name.
    pub run_deploy-succeeded :
        (m : Machine A D X)
        → lookup job.job_uuid (run_deploy o job m).reports ≡ some succeeded
        → (verify_job o.signed o.now job m.seen_nonces ≢ none)
          × ((artifact : Text) × (o.verify_digest artifact job.artifact_digest ≡ true)
              × ((run_deploy o job m).addon ≡ (o.unpacks artifact none).0))
          × (flag_of job.operation ≢ none)
          × (is_module_name job.module_name ≡ true)
    unfolding run_deploy reported IsInstalled
    run_deploy-succeeded m h =
        let (seen, (artifact, digest, (files, flag, name, _))) =
          verified-IsInstalled (verify_job o.signed o.now job m.seen_nonces) m h in
        (seen, (artifact, digest, files), flag, name)

    -- Its database is what the module command has made of the one before.
    pub run_deploy-IsCommanded :
        (m : Machine A D X)
        → lookup job.job_uuid (run_deploy o job m).reports ≡ some succeeded
        → IsCommanded o job m.database (run_deploy o job m)
    unfolding run_deploy reported IsInstalled
    run_deploy-IsCommanded m h =
        let (seen, (artifact, digest, (files, flag, name, commanded))) =
          verified-IsInstalled (verify_job o.signed o.now job m.seen_nonces) m h in
        commanded
