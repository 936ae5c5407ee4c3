-- ===== src/Outbox/Claims.antt =====
-- Which event `claim_outbox` takes.
use pi_development_agent.Base.{
  ℕ, ◌≤◌, String, string_Eq, elem, nat_Eq, filter, not, true, false, List, [], ◌∷◌, none, some, In,
  here, there, In-filter, In-filter_inv, leb, arith, ◌≡◌, refl, ap, subst, Option-cases, Bool-cases,
  inl, inr,
}
use pi_development_agent.Outbox.Model.{
  OutboxEvent, Outbox, active_aggregates, is_claimable, least_id, next_claim, claim_outbox,
  commit_claim,
}

least-In : (es : List OutboxEvent) (e : OutboxEvent) → least_id es ≡ some e → In e es
unfolding least_id
least-In [] e h = cc
least-In (x ∷ es) e h = elim (Option-cases (least_id es)) [
  | inl empty ↦ here (ground arith)
  | inr (f, q) ↦ elim (Bool-cases (leb x.id f.id)) [
    | inl le ↦ here (ground arith)
    | inr gt ↦ there (least-In es e (ground arith))
  ]
]

least-none : (es : List OutboxEvent) → least_id es ≡ none → es ≡ []
unfolding least_id
least-none [] h = refl
least-none (x ∷ es) h = ground arith

least-le :
    (es : List OutboxEvent) (e f : OutboxEvent) → least_id es ≡ some e → In f es → e.id ≤ f.id
unfolding least_id
least-le [] e f h m = elim m [ ]
least-le (x ∷ es) e f h (here q) =
    let same : f.id ≡ x.id = ap (λ (y : OutboxEvent). y.id) q in
    elim (Option-cases (least_id es)) [ inl empty ↦ ground arith | inr (g, p) ↦ ground arith ]
least-le (x ∷ es) e f h (there m) = elim (Option-cases (least_id es)) [
  | inl empty ↦ elim (subst (λ l. In f l) (least-none es empty) m) [ ]
  | inr (g, p) ↦ ground (arith, least-le es g f p m)
]

claimable_facts :
    (now : ℕ) (active : List String) (e : OutboxEvent)
    → is_claimable now active e ≡ true
    → (e.completed_at ≡ none)
      × (e.claimed_at ≡ none)
      × (e.available_at ≤ now)
      × (elem e.aggregate_id active ≡ false)
unfolding is_claimable
claimable_facts now active e h = ground arith

-- The claimed event is in the table, it is due, neither claimed nor completed nor locked, and no event
-- of its aggregate is being worked on.
pub next_claim_first :
    (now : ℕ) (locked : List ℕ) (events : List OutboxEvent) (e : OutboxEvent)
    → next_claim now locked events ≡ some e
    → In e events
      × (e.completed_at ≡ none)
      × (e.claimed_at ≡ none)
      × (e.available_at ≤ now)
      × (elem e.aggregate_id (active_aggregates events) ≡ false)
      × (elem e.id locked ≡ false)
unfolding next_claim
next_claim_first now locked events e h =
    let p = is_claimable now (active_aggregates events) in
    let (n, open') =
      In-filter_inv (λ (f : OutboxEvent). not (elem f.id locked)) e (filter p events)
        (least-In _ e h) in
    let (m, ok) = In-filter_inv p e events n in
    let (unfinished, free, due, alone) = claimable_facts now (active_aggregates events) e ok in
    (m, unfinished, free, due, alone, ground arith)

-- No event that could be claimed at that time has a smaller id than the one that is claimed.
pub next_claim_least :
    (now : ℕ) (locked : List ℕ) (events : List OutboxEvent) (e f : OutboxEvent)
    → next_claim now locked events ≡ some e
    → In f events
    → is_claimable now (active_aggregates events) f ≡ true
    → elem f.id locked ≡ false
    → e.id ≤ f.id
unfolding next_claim
next_claim_least now locked events e f h m claimable open' =
    let p = is_claimable now (active_aggregates events) in
    least-le _ e f h (
      In-filter (λ (g : OutboxEvent). not (elem g.id locked)) f (filter p events)
        (In-filter p f events m claimable) (ground arith))

pub claim_outbox-some :
    (now : ℕ) (locked : List ℕ) (box : Outbox) (e : OutboxEvent)
    → next_claim now locked box.events ≡ some e
    → claim_outbox now locked box ≡ (some e, commit_claim now e.id box)
unfolding claim_outbox
claim_outbox-some now locked box e h = ground arith

pub next_claim-claim_outbox :
    (now : ℕ) (locked : List ℕ) (box : Outbox) (e : OutboxEvent)
    → (claim_outbox now locked box).0 ≡ some e
    → next_claim now locked box.events ≡ some e
unfolding claim_outbox
next_claim-claim_outbox now locked box e h = ground arith
