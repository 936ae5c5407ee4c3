-- ===== src/Runner/Loss.antt =====
-- What a backup command that breaks off costs.
use pi_development_agent.Base.{
  Text, string_Eq, Bool, false, List, Option, none, some, if◌then◌else◌, ◌≡◌, refl, ap, ◌∙◌,
}
use pi_development_agent.Runner.Job.{Job, verify_job}
use pi_development_agent.Runner.Deploy.{
  Machine, Outside, save_terminal_status, restore, roll_back, recover, unpack, replace_addon, fetch,
  use_nonce, deploy_fetched, deploy_verified, run_deploy,
}

module _ {A D X : Type 0} where
  module _ (o : Outside A D X) (job : Job) where
    restore-addon : (dump : Option X) (m : Machine A D X) → (restore o job dump m).addon ≡ m.addon
    unfolding restore save_terminal_status
    restore-addon none m = refl
    restore-addon (some x) m = refl

    -- Where the backup command of an accepted job fails and leaves a file behind, the rollback deletes
    -- the addon's directory, of which no backup has been made.
    pub run_deploy-loses_addon :
        (m : Machine A D X) (seen : List Text) (artifact : Text) (x : X)
        → verify_job o.signed o.now job m.seen_nonces ≡ some seen
        → fetch o job ≡ some artifact
        → m.backup ≡ none
        → o.dumps m.database m.dump ≡ (some x, false)
        → (run_deploy o job m).addon ≡ none
    unfolding run_deploy deploy_verified deploy_fetched replace_addon recover roll_back
    run_deploy-loses_addon m seen artifact x e f b d =
        let used = use_nonce job seen m in
        let dumped : Option X → Machine A D X = λ file. record used { dump = file } in
        ap (λ answer. (deploy_verified o job answer m).addon) e
        ∙ ap (λ found. (deploy_fetched o job found used).addon) f
        ∙ ap
            (λ (out : Option X × Bool).
              (if out.1
                then unpack o job artifact (dumped out.0)
                else recover o job out.0 (dumped out.0)).addon)
            d
        ∙ restore-addon (some x) (record (dumped (some x)) { addon = m.backup; backup = none })
        ∙ b
