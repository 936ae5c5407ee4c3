-- ===== src/Runner/Others.antt =====
-- What a deployment does to the rest of the addons path.
use pi_development_agent.Base.{
  Text, string_Eq, Bool, true, false, List, Option, none, some, if◌then◌else◌, ◌≡◌, refl, ap, ◌∙◌,
}
use pi_development_agent.Runner.Job.{Job, verify_job}
use pi_development_agent.Runner.Deploy.{
  Machine, Outside, save_terminal_status, restore, roll_back, recover, install, set_aside, unpack,
  replace_addon, fetch, use_nonce, deploy_fetched, deploy_verified, run_deploy,
}
use pi_development_agent.Runner.Success.{fetch-digest}

module _ {A D X : Type 0} where
  -- The archive that the job's digest is of has nothing outside the module's directory.
  abbrev pub IsTidy : Outside A D X → Job → Type 0
  IsTidy o job =
      (artifact : Text) (others : A)
      → o.verify_digest artifact job.artifact_digest ≡ true
      → o.spills artifact others ≡ others

  if-others :
      (b : Bool) (v w : Machine A D X) (others : A)
      → v.others ≡ others
      → w.others ≡ others
      → (if b then v else w).others ≡ others
  if-others true v w others h k = h
  if-others false v w others h k = k

  set_aside-others : (m : Machine A D X) → (set_aside m).others ≡ m.others
  unfolding set_aside
  set_aside-others m =
      elim (m.addon) as (λ a. (set_aside (record m { addon = a })).others ≡ m.others) [
        | none ↦ refl
        | some files ↦ refl
      ]

  module _ (o : Outside A D X) (job : Job) where
    restore-others :
        (dump : Option X) (m : Machine A D X) → (restore o job dump m).others ≡ m.others
    unfolding restore save_terminal_status
    restore-others none m = refl
    restore-others (some x) m = refl

    recover-others :
        (dump : Option X) (m : Machine A D X) → (recover o job dump m).others ≡ m.others
    unfolding recover roll_back save_terminal_status
    recover-others none m = refl
    recover-others (some x) m = restore-others m.dump _

    install-others : (m : Machine A D X) → (install o job m).others ≡ m.others
    unfolding install roll_back save_terminal_status
    install-others m = if-others _ _ _ m.others refl (restore-others m.dump _)

    unpack-others :
        (artifact : Text) (m : Machine A D X)
        → (unpack o job artifact m).others ≡ o.spills artifact (set_aside m).others
    unfolding unpack
    unpack-others artifact m =
        let aside = set_aside m in
        let out = o.unpacks artifact aside.addon in
        let unpacked : Machine A D X = record aside {
          addon = out.0;
          others = o.spills artifact aside.others;
        } in
        if-others out.1 (install o job unpacked) (recover o job unpacked.dump unpacked)
          unpacked.others (install-others unpacked) (recover-others unpacked.dump unpacked)

    replace_addon-others :
        (artifact : Text) (m : Machine A D X)
        → o.spills artifact m.others ≡ m.others
        → (replace_addon o job artifact m).others ≡ m.others
    unfolding replace_addon
    replace_addon-others artifact m tidy =
        let out = o.dumps m.database m.dump in
        let dumped : Machine A D X = record m { dump = out.0 } in
        if-others out.1 (unpack o job artifact dumped) (recover o job dumped.dump dumped) m.others
          (unpack-others artifact dumped
            ∙ (ap (o.spills artifact) (set_aside-others dumped) ∙ tidy))
          (recover-others dumped.dump dumped)

    fetched-others :
        (found : Option Text) (m : Machine A D X)
        → IsTidy o job
        → fetch o job ≡ found
        → (deploy_fetched o job found m).others ≡ m.others
    unfolding deploy_fetched save_terminal_status
    fetched-others none m tidy e = refl
    fetched-others (some artifact) m tidy e =
        replace_addon-others artifact m (tidy artifact m.others (fetch-digest o job artifact e))

    verified-others :
        (seen : Option (List Text)) (m : Machine A D X)
        → IsTidy o job
        → (deploy_verified o job seen m).others ≡ m.others
    unfolding deploy_verified save_terminal_status
    verified-others none m tidy = refl
    verified-others (some seen) m tidy =
        fetched-others (fetch o job) (use_nonce job seen m) tidy refl

    -- A tidy archive leaves it as it was.
    pub run_deploy-others :
        (m : Machine A D X) → IsTidy o job → (run_deploy o job m).others ≡ m.others
    unfolding run_deploy
    run_deploy-others m tidy = verified-others (verify_job o.signed o.now job m.seen_nonces) m tidy
