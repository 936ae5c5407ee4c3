-- ===== src/Outbox/Apart.antt =====
-- Two claims in a row.
use pi_development_agent.Base.{
  ℕ, String, string_Eq, nat_Eq, elem, List, true, some, arith, ◌≡◌, ap, subst, ◌≢◌, ==_refl,
}
use pi_development_agent.Outbox.Model.{
  OutboxEvent, Outbox, is_active, active_aggregates, update, claim, next_claim, claim_outbox,
  commit_claim,
}
use pi_development_agent.Outbox.Claims.{
  next_claim_first, next_claim-claim_outbox, claim_outbox-some,
}
use pi_development_agent.Outbox.Counts.{active_aggregates-In, update-changed}

-- Of two claims, the second begun directly behind the commit of the first, the second takes an event of another
-- aggregate, whatever rows other claims have locked at the time of each.
pub claim_outbox_apart :
    (now later : ℕ) (locked locked' : List ℕ) (box : Outbox) (e f : OutboxEvent)
    → (claim_outbox now locked box).0 ≡ some e
    → (claim_outbox later locked' (claim_outbox now locked box).1).0 ≡ some f
    → ◌≢◌ {A = String} e.aggregate_id f.aggregate_id
unfolding is_active commit_claim
claim_outbox_apart now later locked locked' box e f h g same =
    let first = next_claim-claim_outbox now locked box e h in
    let (m, unfinished, free, due, alone, _) = next_claim_first now locked box.events e first in
    let after = update e.id (claim now) box.events in
    let second : next_claim later locked' after ≡ some f =
      subst (λ b. next_claim later locked' b.events ≡ some f)
        (ap (λ r. r.1) (claim_outbox-some now locked box e first))
        (next_claim-claim_outbox later locked' (claim_outbox now locked box).1 f g) in
    let (m', unfinished', free', due', alone', _) = next_claim_first later locked' after f second in
    let held =
      active_aggregates-In (claim now e) after
        (update-changed e.id (claim now) e box.events m (==_refl e.id)) (ground arith) in
    ground (arith, alone', subst (λ a. elem a (active_aggregates after) ≡ true) same held)
