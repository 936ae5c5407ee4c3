-- ===== src/Runner/Rollback.antt =====
-- What a deployment leaves on the server, by the state that it reports.
use pi_development_agent.Base.{
  Text, string_Eq, lookup, lookup-insert_self, Bool, true, false, ◌&&◌, List, Option, none, some,
  if◌then◌else◌, ◌≡◌, ◌≢◌, inl, inr, refl, arith, Bool-cases,
}
use pi_development_agent.Runner.Job.{Job, verify_job}
use pi_development_agent.Runner.Command.{run_odoo_module_command}
use pi_development_agent.Runner.Deploy.{
  Terminal, succeeded, failed, rolled_back, Machine, Outside, save_terminal_status, restore,
  roll_back, recover, install, set_aside, unpack, replace_addon, fetch, use_nonce, deploy_fetched,
  deploy_verified, run_deploy,
}

module _ {A D X : Type 0} where
  -- A backup command that fails leaves no file behind.
  abbrev pub IsClean : Outside A D X → Type 0
  IsClean o = (d : D) (old : Option X) → (o.dumps d old).1 ≡ false → (o.dumps d old).0 ≡ none

  -- A dump that was made, restored without an error over any database, gives the database it is of.
  abbrev pub IsFaithful : Outside A D X → Type 0
  IsFaithful o =
      (d e : D) (old : Option X) (x : X)
      → (o.dumps d old).0 ≡ some x
      → (o.restores x e).1 ≡ true
      → (o.restores x e).0 ≡ d

  reported_state : Job → Machine A D X → Option Terminal
  reported_state job m = lookup job.job_uuid m.reports

  saved :
      (job : Job) (state : Terminal) (m : Machine A D X)
      → reported_state job (save_terminal_status job.job_uuid state m) ≡ some state
  unfolding reported_state save_terminal_status
  saved job state m = lookup-insert_self job.job_uuid state m.reports

  module _ (o : Outside A D X) (job : Job) where
    saved-absurd :
        (state : Terminal) (m : Machine A D X)
        → reported_state job (save_terminal_status job.job_uuid state m) ≡ some rolled_back
        → state ≡ rolled_back
    saved-absurd state m h = let kept = saved job state m in ground arith

    -- the machine as it was, under a dump of its database and with its addon in the backup
    IsHeld : Option A → D → Machine A D X → Type 0
    IsHeld files d m =
        (m.backup ≡ files)
        × ((x : X) (e : D) → m.dump ≡ some x → (o.restores x e).1 ≡ true → (o.restores x e).0 ≡ d)

    IsSame : Option A → D → Machine A D X → Type 0
    IsSame files d m = (m.addon ≡ files) × (m.database ≡ d)

    restore-IsSame :
        (files : Option A) (d : D) (dump : Option X) (m : Machine A D X)
        → m.addon ≡ files
        → ((x : X) (e : D) → dump ≡ some x → (o.restores x e).1 ≡ true → (o.restores x e).0 ≡ d)
        → reported_state job (restore o job dump m) ≡ some rolled_back
        → IsSame files d (restore o job dump m)
    unfolding restore IsSame save_terminal_status
    restore-IsSame files d none m a f h = absurd (ground (arith, saved-absurd failed m h))
    restore-IsSame files d (some x) m a f h =
        let answer = o.restores x m.database in
        let state = if answer.1 && o.restarts_again then rolled_back else failed in
        let told : state ≡ rolled_back = saved-absurd state (record m { database = answer.0 }) h in
        elim (Bool-cases answer.1) [
          | inl good ↦ (a, f x m.database refl good)
          | inr bad ↦ absurd (ground (arith, told))
        ]

    roll_back-IsSame :
        (files : Option A) (d : D) (m : Machine A D X)
        → IsHeld files d m
        → reported_state job (roll_back o job m) ≡ some rolled_back
        → IsSame files d (roll_back o job m)
    unfolding roll_back IsHeld
    roll_back-IsSame files d m (b, f) h =
        restore-IsSame files d m.dump (record m { addon = m.backup; backup = none }) b f h

    recover-IsSame :
        (files : Option A) (d : D) (dump : Option X) (m : Machine A D X)
        → IsHeld files d m
        → reported_state job (recover o job dump m) ≡ some rolled_back
        → IsSame files d (recover o job dump m)
    unfolding recover
    recover-IsSame files d none m k h = absurd (ground (arith, saved-absurd failed m h))
    recover-IsSame files d (some x) m k h = roll_back-IsSame files d m k h

    if-IsSame :
        (files : Option A) (d : D) (b : Bool) (m n : Machine A D X)
        → (reported_state job m ≡ some rolled_back → IsSame files d m)
        → (b ≡ false → reported_state job n ≡ some rolled_back → IsSame files d n)
        → reported_state job (if b then m else n) ≡ some rolled_back
        → IsSame files d (if b then m else n)
    if-IsSame files d true m n f g h = f h
    if-IsSame files d false m n f g h = g refl h

    install-IsSame :
        (files : Option A) (d : D) (m : Machine A D X)
        → IsHeld files d m
        → reported_state job (install o job m) ≡ some rolled_back
        → IsSame files d (install o job m)
    unfolding install IsHeld
    install-IsSame files d m k h =
        let ran =
          run_odoo_module_command o.execute o.command job.operation job.module_name m.database in
        let tried : Machine A D X = record m { database = ran.0 } in
        if-IsSame files d (ran.1 && o.restarts) (save_terminal_status job.job_uuid succeeded tried)
          (roll_back o job tried) (λ e. absurd (ground (arith, saved-absurd succeeded tried e)))
          (λ e. roll_back-IsSame files d tried k) h

    unpack-IsSame :
        (files : Option A) (d : D) (artifact : Text) (m : Machine A D X)
        → IsHeld files d (set_aside m)
        → reported_state job (unpack o job artifact m) ≡ some rolled_back
        → IsSame files d (unpack o job artifact m)
    unfolding unpack IsHeld
    unpack-IsSame files d artifact m k h =
        let aside = set_aside m in
        let out = o.unpacks artifact aside.addon in
        let unpacked : Machine A D X = record aside {
          addon = out.0;
          others = o.spills artifact aside.others;
        } in
        if-IsSame files d out.1 (install o job unpacked) (recover o job unpacked.dump unpacked)
          (install-IsSame files d unpacked k) (λ e. recover-IsSame files d unpacked.dump unpacked k)
          h

    -- With no backup from before, the addon is in the backup, or there was none.
    set_aside-IsHeld :
        (d : D) (m : Machine A D X)
        → m.backup ≡ none
        → ((x : X) (e : D) → m.dump ≡ some x → (o.restores x e).1 ≡ true → (o.restores x e).0 ≡ d)
        → IsHeld m.addon d (set_aside m)
    unfolding set_aside IsHeld
    set_aside-IsHeld d m b f =
        elim (m.addon) as (λ a. IsHeld a d (set_aside (record m { addon = a }))) [
          | none ↦ (b, f)
          | some files ↦ (refl, f)
        ]

    recover_not :
        (dump : Option X) (m : Machine A D X)
        → dump ≡ none
        → reported_state job (recover o job dump m) ≢ some rolled_back
    unfolding recover
    recover_not none m e h = ground (arith, saved-absurd failed m h)
    recover_not (some x) m e h = cc

    replace_addon-IsSame :
        (artifact : Text) (m : Machine A D X)
        → IsClean o
        → IsFaithful o
        → m.backup ≡ none
        → reported_state job (replace_addon o job artifact m) ≡ some rolled_back
        → IsSame m.addon m.database (replace_addon o job artifact m)
    unfolding replace_addon
    replace_addon-IsSame artifact m c f b h =
        let out = o.dumps m.database m.dump in
        let dumped : Machine A D X = record m { dump = out.0 } in
        if-IsSame m.addon m.database out.1 (unpack o job artifact dumped)
          (recover o job dumped.dump dumped)
          (unpack-IsSame m.addon m.database artifact dumped
            (set_aside-IsHeld m.database dumped b (λ x e. f m.database e m.dump x)))
          (λ e r. absurd (recover_not dumped.dump dumped (c m.database m.dump e) r)) h

    fetched-IsSame :
        (artifact : Option Text) (m : Machine A D X)
        → IsClean o
        → IsFaithful o
        → m.backup ≡ none
        → reported_state job (deploy_fetched o job artifact m) ≡ some rolled_back
        → IsSame m.addon m.database (deploy_fetched o job artifact m)
    unfolding deploy_fetched
    fetched-IsSame none m c f b h = absurd (ground (arith, saved-absurd failed m h))
    fetched-IsSame (some artifact) m c f b h = replace_addon-IsSame artifact m c f b h

    verified-IsSame :
        (seen : Option (List Text)) (m : Machine A D X)
        → IsClean o
        → IsFaithful o
        → m.backup ≡ none
        → reported_state job (deploy_verified o job seen m) ≡ some rolled_back
        → IsSame m.addon m.database (deploy_verified o job seen m)
    unfolding deploy_verified
    verified-IsSame none m c f b h = absurd (ground (arith, saved-absurd failed m h))
    verified-IsSame (some seen) m c f b h =
        fetched-IsSame (fetch o job) (use_nonce job seen m) c f b h

    -- A deployment that reports that it was rolled back has left the addon's directory and the
    -- database as they were. The backup command leaves no file when it fails, a dump can be restored, and no
    -- backup of this job is there from before.
    pub run_deploy-rolled_back :
        (m : Machine A D X)
        → IsClean o
        → IsFaithful o
        → m.backup ≡ none
        → lookup job.job_uuid (run_deploy o job m).reports ≡ some rolled_back
        → ((run_deploy o job m).addon ≡ m.addon) × ((run_deploy o job m).database ≡ m.database)
    unfolding run_deploy reported_state IsSame
    run_deploy-rolled_back m c f b h =
        verified-IsSame (verify_job o.signed o.now job m.seen_nonces) m c f b h
