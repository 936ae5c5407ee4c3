-- ===== src/Outbox/Examples.antt =====
-- The outbox at concrete tables.
use pi_development_agent.Base.{
  ℕ, String, string_Eq, nat_Eq, elem, [], ◌∷◌, none, some, ◌≡◌, ◌≢◌, refl,
}
use pi_development_agent.Outbox.Model.{
  OutboxEvent, Outbox, enqueue, next_claim, commit_claim, claim_outbox, active_aggregates,
  is_claimable, is_active, least_id, update,
}
use pi_development_agent.Outbox.Shared.{
  Shared, unlock, enqueues, begins, commits, Reach, start, step, IsSound,
}
use pi_development_agent.Outbox.Exclusion.{Reach-IsSound}
use pi_development_agent.Outbox.Apart.{claim_outbox_apart}

abbrev empty : Outbox
empty = record { next_id = 1; events = [] }

-- one run is started and resumed, another is started
abbrev queue : Outbox
queue =
    enqueue 12 "run.start" "run-2" none
      (enqueue 11 "run.resume" "run-1" none (enqueue 10 "run.start" "run-1" none empty))

abbrev row : ℕ → String → String → ℕ → OutboxEvent
row id event_type aggregate_id at = record {
  id = id;
  event_type = event_type;
  aggregate_id = aggregate_id;
  payload = none;
  available_at = at;
  claimed_at = none;
  completed_at = none;
  attempts = 0;
  last_error = none;
}

-- The second claim begins while the first is open: it takes the other event of the first one's run.
overlapping : next_claim 21 (1 ∷ []) queue.events ≡ some (row 2 "run.resume" "run-1" 11)
unfolding next_claim enqueue active_aggregates is_claimable is_active least_id elem
overlapping = refl

-- behind the commit of the first it takes an event of the other run
after_commit :
    next_claim 21 [] (commit_claim 20 1 queue).events ≡ some (row 3 "run.start" "run-2" 12)
unfolding next_claim enqueue active_aggregates is_claimable is_active least_id elem commit_claim
    update
after_commit = refl

first : next_claim 20 [] queue.events ≡ some (row 1 "run.start" "run-1" 10)
unfolding next_claim enqueue active_aggregates is_claimable is_active least_id elem
first = refl

queued : Reach (record { box = queue; locked = [] })
queued =
    step
      (step (step start (enqueues _ 10 "run.start" "run-1" none))
        (enqueues _ 11 "run.resume" "run-1" none))
      (enqueues _ 12 "run.start" "run-2" none)

-- Two claims overlap, and both are committed: two events of one run are in work.
abbrev both : Shared
both = record {
  box = commit_claim 22 2 (commit_claim 22 1 queue);
  locked = unlock 2 (unlock 1 (2 ∷ (1 ∷ [])));
}

both-Reach : Reach both
unfolding elem unlock
both-Reach =
    step
      (step (step (step queued (begins _ 20 _ first)) (begins _ 21 _ overlapping))
        (commits _ 22 1 refl))
      (commits _ 22 2 refl)

two_of_one_run : active_aggregates both.box.events ≡ "run-1" ∷ ("run-1" ∷ [])
unfolding enqueue active_aggregates is_active commit_claim update
two_of_one_run = refl

Reach-IsSound_example : IsSound both
Reach-IsSound_example = Reach-IsSound both both-Reach

claim_outbox_apart_example : ◌≢◌ {A = String} "run-1" "run-2"
unfolding claim_outbox next_claim enqueue active_aggregates is_claimable is_active least_id elem
    commit_claim update
claim_outbox_apart_example =
    claim_outbox_apart 20 21 [] [] queue (row 1 "run.start" "run-1" 10)
      (row 3 "run.start" "run-2" 12) refl refl
