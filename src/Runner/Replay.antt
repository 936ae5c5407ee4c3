-- ===== src/Runner/Replay.antt =====
-- No nonce is used twice, whatever happens in between.
use pi_development_agent.Base.{
  ℕ, Text, nat_Eq, list_Eq, ==_refl, elem, String, Bool, true, List, [], ◌∷◌, ◌++◌, All, Option,
  none, some, ◌≡◌, refl, ap, sym, ◌∙◌, subst, arith,
}
use pi_development_agent.Runner.Job.{Job, verify_job}
use pi_development_agent.Runner.Ledger.{
  IsPlain, read_ledger, write_nonce, lines_text, read-lines, write-lines,
}
use pi_development_agent.Runner.Deploy.{
  Terminal, failed, Machine, Outside, save_terminal_status, fetch, use_nonce, deploy_verified,
  run_deploy, flush_pending_results,
}
use pi_development_agent.Runner.Kept.{IsKept, fetched-IsKept}

elem_last : (nonce : Text) (nonces : List Text) → elem nonce (nonces ++ nonce ∷ []) ≡ true
unfolding elem
elem_last nonce [] = ground (arith, ==_refl nonce)
elem_last nonce (n ∷ nonces) = ground (arith, elem_last nonce nonces)

elem_more :
    (nonce other : Text) (nonces : List Text)
    → elem nonce nonces ≡ true
    → elem nonce (nonces ++ other ∷ []) ≡ true
unfolding elem
elem_more nonce other [] h = absurd (ground arith)
elem_more nonce other (n ∷ nonces) h = ground (arith, elem_more nonce other nonces)

elem_push :
    (nonce other : Text) (nonces : List Text)
    → elem nonce nonces ≡ true
    → elem nonce (other ∷ nonces) ≡ true
unfolding elem
elem_push nonce other nonces h = ground arith

elem_self : (nonce : Text) (nonces : List Text) → elem nonce (nonce ∷ nonces) ≡ true
unfolding elem
elem_self nonce nonces = ground (arith, ==_refl nonce)

All-last :
    (n : Text) (nonces : List Text)
    → All IsPlain nonces
    → IsPlain n
    → All IsPlain (nonces ++ n ∷ [])
All-last n [] p q = (q, tt)
All-last n (m ∷ nonces) p q = (p.0, All-last n nonces p.1 q)

verify_job-seen :
    (signed : Job → Bool) (now : ℕ) (job : Job) (seen new : List Text)
    → verify_job signed now job seen ≡ some new
    → new ≡ job.nonce ∷ seen
unfolding verify_job
verify_job-seen signed now job seen new h = ground arith

verify_job-used :
    (signed : Job → Bool) (now : ℕ) (job : Job) (seen : List Text)
    → elem job.nonce seen ≡ true
    → verify_job signed now job seen ≡ none
unfolding verify_job
verify_job-used signed now job seen h = ground arith

module _ {A D X : Type 0} where
  flushed-IsKept :
      (takes : String → Terminal → Bool) (m : Machine A D X)
      → IsKept m (record m { reports = flush_pending_results takes m.reports })
  unfolding IsKept
  flushed-IsKept takes m = (refl, refl)

  -- The nonce is refused by this machine, and by the one that starts again from its ledger.
  IsUsed : Text → Machine A D X → Type 0
  IsUsed nonce m =
      (elem nonce m.seen_nonces ≡ true)
      × ((nonces : List Text) × (m.ledger ≡ lines_text nonces)
          × All IsPlain nonces
          × (elem nonce nonces ≡ true))

  -- The ledger holds the lines of nonces.
  abbrev pub IsLedger : Machine A D X → Type 0
  IsLedger m = (nonces : List Text) × (m.ledger ≡ lines_text nonces) × All IsPlain nonces

  kept-IsUsed : (nonce : Text) (m v : Machine A D X) → IsKept m v → IsUsed nonce m → IsUsed nonce v
  unfolding IsUsed IsKept
  kept-IsUsed nonce m v (s, l) (e, (nonces, same, plain, e')) =
      (ap (elem nonce) s ∙ e, (nonces, l ∙ same, plain, e'))

  -- A job that is accepted uses its nonce.
  use_nonce-IsUsed_own :
      (o : Outside A D X) (job : Job) (m : Machine A D X) (seen : List Text)
      → IsPlain job.nonce
      → IsLedger m
      → elem job.nonce seen ≡ true
      → IsUsed job.nonce (use_nonce job seen m)
  unfolding IsUsed
  use_nonce-IsUsed_own o job m seen p (nonces, same, plain) e = (
    e,
    (
      nonces ++ job.nonce ∷ [],
      ap (write_nonce job.nonce) same ∙ write-lines nonces job.nonce,
      All-last job.nonce nonces plain p,
      elem_last job.nonce nonces,
    ),
  )

  -- the nonce stays used while another job is accepted
  use_nonce-IsUsed :
      (nonce : Text) (job : Job) (m : Machine A D X) (seen : List Text)
      → IsPlain job.nonce
      → IsUsed nonce m
      → elem nonce seen ≡ true
      → IsUsed nonce (use_nonce job seen m)
  unfolding IsUsed
  use_nonce-IsUsed nonce job m seen p (e, (nonces, same, plain, e')) more = (
    more,
    (
      nonces ++ job.nonce ∷ [],
      ap (write_nonce job.nonce) same ∙ write-lines nonces job.nonce,
      All-last job.nonce nonces plain p,
      elem_more nonce job.nonce nonces e',
    ),
  )

  restarted-IsUsed :
      (nonce : Text) (m : Machine A D X)
      → IsUsed nonce m
      → IsUsed nonce (record m { seen_nonces = read_ledger m.ledger })
  unfolding IsUsed
  restarted-IsUsed nonce m (e, (nonces, same, plain, e')) = (
    ap (elem nonce) (ap read_ledger same ∙ read-lines nonces plain) ∙ e',
    (nonces, same, plain, e'),
  )

  verified-IsUsed :
      (nonce : Text) (o : Outside A D X) (job : Job) (m : Machine A D X) (seen : Option (List Text))
      → verify_job o.signed o.now job m.seen_nonces ≡ seen
      → IsPlain job.nonce
      → IsUsed nonce m
      → IsUsed nonce (deploy_verified o job seen m)
  unfolding deploy_verified save_terminal_status IsUsed
  verified-IsUsed nonce o job m none e p u = u
  verified-IsUsed nonce o job m (some seen) e p u =
      kept-IsUsed nonce (use_nonce job seen m) _
        (fetched-IsKept o job (fetch o job) (use_nonce job seen m))
        (use_nonce-IsUsed nonce job m seen p u (
          ap (elem nonce) (verify_job-seen o.signed o.now job m.seen_nonces seen e)
          ∙ elem_push nonce job.nonce m.seen_nonces u.0))

  deployed-IsUsed :
      (nonce : Text) (o : Outside A D X) (job : Job) (m : Machine A D X)
      → IsPlain job.nonce
      → IsUsed nonce m
      → IsUsed nonce (run_deploy o job m)
  unfolding run_deploy
  deployed-IsUsed nonce o job m p u =
      verified-IsUsed nonce o job m (verify_job o.signed o.now job m.seen_nonces) refl p u

  -- What happens to a runner: a job, a new start, or reports that are delivered.
  pub data Move (m : Machine A D X) : Machine A D X → Type 0 where
    deploys : (o : Outside A D X) (job : Job) → IsPlain job.nonce → Move m (run_deploy o job m)
    restarts : Move m (record m { seen_nonces = read_ledger m.ledger })
    flushes :
        (takes : String → Terminal → Bool)
        → Move m (record m { reports = flush_pending_results takes m.reports })

  pub data Life (m : Machine A D X) : Machine A D X → Type 0 where
    done : Life m m
    more : {v w : Machine A D X} → Life m v → Move v w → Life m w

  Move-IsUsed : (nonce : Text) (m v : Machine A D X) → Move m v → IsUsed nonce m → IsUsed nonce v
  Move-IsUsed nonce m _ (deploys o job p) u = deployed-IsUsed nonce o job m p u
  Move-IsUsed nonce m _ restarts u = restarted-IsUsed nonce m u
  Move-IsUsed nonce m _ (flushes takes) u = kept-IsUsed nonce m _ (flushed-IsKept takes m) u

  Life-IsUsed : (nonce : Text) (m v : Machine A D X) → Life m v → IsUsed nonce m → IsUsed nonce v
  Life-IsUsed nonce m _ done u = u
  Life-IsUsed nonce m w (more {v} life move) u =
      Move-IsUsed nonce v w move (Life-IsUsed nonce m v life u)

  accepted-IsUsed :
      (o : Outside A D X) (job : Job) (m : Machine A D X) (seen : List Text)
      → verify_job o.signed o.now job m.seen_nonces ≡ some seen
      → IsPlain job.nonce
      → IsLedger m
      → IsUsed job.nonce (run_deploy o job m)
  unfolding run_deploy deploy_verified
  accepted-IsUsed o job m seen e p l =
      subst (λ answer. IsUsed job.nonce (deploy_verified o job answer m)) (sym e)
        (kept-IsUsed job.nonce (use_nonce job seen m) _
          (fetched-IsKept o job (fetch o job) (use_nonce job seen m))
          (use_nonce-IsUsed_own o job m seen p l (
            ap (elem job.nonce) (verify_job-seen o.signed o.now job m.seen_nonces seen e)
            ∙ elem_self job.nonce m.seen_nonces)))

  -- Once a job is accepted, every job with the same nonce is refused from then on, through any jobs,
  -- deliveries of reports and new starts of the runner: it leaves the addon's directory, the backup,
  -- the dump and the database alone and is reported as failed. Nonces have no line break in them,
  -- and the ledger is one that a runner has written.
  pub run_deploy-replay :
      (o again : Outside A D X) (job other : Job) (m v : Machine A D X) (seen : List Text)
      → verify_job o.signed o.now job m.seen_nonces ≡ some seen
      → IsPlain job.nonce
      → IsLedger m
      → Life (run_deploy o job m) v
      → other.nonce ≡ job.nonce
      → run_deploy again other v ≡ save_terminal_status other.job_uuid failed v
  unfolding run_deploy deploy_verified IsUsed
  run_deploy-replay o again job other m v seen e p l life same =
      let used =
        Life-IsUsed job.nonce (run_deploy o job m) v life (accepted-IsUsed o job m seen e p l) in
      let refused : verify_job again.signed again.now other v.seen_nonces ≡ none =
        verify_job-used again.signed again.now other v.seen_nonces
          (ap (λ n. elem n v.seen_nonces) same ∙ used.0) in
      ap (λ answer. deploy_verified again other answer v) refused
