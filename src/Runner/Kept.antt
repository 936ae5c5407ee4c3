-- ===== src/Runner/Kept.antt =====
-- The steps of a deployment behind the check of its job leave the nonces as they are.
use pi_development_agent.Base.{
  Text, nat_Eq, list_Eq, Bool, true, false, Option, none, some, if◌then◌else◌, ◌≡◌, refl, ◌∙◌,
}
use pi_development_agent.Runner.Job.{Job}
use pi_development_agent.Runner.Deploy.{
  Machine, Outside, save_terminal_status, restore, roll_back, recover, install, set_aside, unpack,
  replace_addon, deploy_fetched,
}

module _ {A D X : Type 0} where
  -- the nonces are those of another machine
  unfoldable pub IsKept : Machine A D X → Machine A D X → Type 0
  IsKept m v = (v.seen_nonces ≡ m.seen_nonces) × (v.ledger ≡ m.ledger)

  pub if-IsKept :
      (m v w : Machine A D X) (b : Bool) → IsKept m v → IsKept m w → IsKept m (if b then v else w)
  if-IsKept m v w true k l = k
  if-IsKept m v w false k l = l

  module _ (o : Outside A D X) (job : Job) where
    pub restore-IsKept : (dump : Option X) (m : Machine A D X) → IsKept m (restore o job dump m)
    unfolding restore save_terminal_status IsKept
    restore-IsKept none m = (refl, refl)
    restore-IsKept (some dump) m = (refl, refl)

    pub recover-IsKept : (dump : Option X) (m : Machine A D X) → IsKept m (recover o job dump m)
    unfolding recover roll_back save_terminal_status IsKept
    recover-IsKept none m = (refl, refl)
    recover-IsKept (some dump) m =
        restore-IsKept m.dump (record m { addon = m.backup; backup = none })

    pub install-IsKept : (m : Machine A D X) → IsKept m (install o job m)
    unfolding install roll_back save_terminal_status IsKept
    install-IsKept m = if-IsKept m _ _ _ (refl, refl) (restore-IsKept m.dump _)

    pub set_aside-IsKept : (m : Machine A D X) → IsKept m (set_aside m)
    unfolding set_aside IsKept
    set_aside-IsKept m = elim (m.addon) as (λ a. IsKept m (set_aside (record m { addon = a }))) [
      | none ↦ (refl, refl)
      | some files ↦ (refl, refl)
    ]

    pub IsKept-trans : (m v w : Machine A D X) → IsKept m v → IsKept v w → IsKept m w
    unfolding IsKept
    IsKept-trans m v w (s, l) (s', l') = (s' ∙ s, l' ∙ l)

    pub unpack-IsKept : (artifact : Text) (m : Machine A D X) → IsKept m (unpack o job artifact m)
    unfolding unpack IsKept
    unpack-IsKept artifact m =
        let aside = set_aside m in
        let out = o.unpacks artifact aside.addon in
        let unpacked : Machine A D X = record aside {
          addon = out.0;
          others = o.spills artifact aside.others;
        } in
        IsKept-trans m aside (unpack o job artifact m) (set_aside-IsKept m) (
          if-IsKept aside (install o job unpacked) (recover o job unpacked.dump unpacked) out.1
            (install-IsKept unpacked) (recover-IsKept unpacked.dump unpacked))

    pub replace_addon-IsKept :
        (artifact : Text) (m : Machine A D X) → IsKept m (replace_addon o job artifact m)
    unfolding replace_addon IsKept
    replace_addon-IsKept artifact m =
        let out = o.dumps m.database m.dump in
        let dumped : Machine A D X = record m { dump = out.0 } in
        if-IsKept m (unpack o job artifact dumped) (recover o job dumped.dump dumped) out.1
          (unpack-IsKept artifact dumped) (recover-IsKept dumped.dump dumped)

    pub fetched-IsKept :
        (artifact : Option Text) (m : Machine A D X) → IsKept m (deploy_fetched o job artifact m)
    unfolding deploy_fetched save_terminal_status IsKept
    fetched-IsKept none m = (refl, refl)
    fetched-IsKept (some artifact) m = replace_addon-IsKept artifact m
