-- ===== src/Outbox/Shared.antt =====
-- The workers that share the outbox. A claim of `worker_loop` is two steps, its query, which locks a
-- row, and its commit, so that claims overlap; `handle_event` finishes, the watchdog releases, and the
-- handlers and the API enqueue, in any order.
use pi_development_agent.Base.{
  ℕ, ◌+◌, ◌≤◌, ◌<◌, String, nat_Eq, ◌==◌, elem, not, true, false, List, [], ◌∷◌, Option, some,
  count, filter, In, ◌≡◌,
}
use pi_development_agent.Outbox.Model.{
  OutboxEvent, Outbox, ResumePayload, Outcome, enqueue, next_claim, commit_claim, finish,
  release_stale,
}
use pi_development_agent.Outbox.Counts.{has_id, in_work}

-- the committed table, and the ids of the rows that open claims have locked
pub record Shared : Type 0 where
  pub box : Outbox
  pub locked : List ℕ

unfoldable pub unlock : ℕ → List ℕ → List ℕ
unlock id locked = filter (λ i. not (i == id)) locked

-- One transaction on the outbox, or the begin or the end of a claim. A write to a row that a claim
-- has locked waits for the end of the claim; the release of stale claims finds no such row, since a
-- locked row is not claimed in the table.
pub data Step : Shared → Shared → Type 0 where
  enqueues :
      (s : Shared) (now : ℕ) (event_type aggregate_id : String) (payload : Option ResumePayload)
      → Step s (record s { box = enqueue now event_type aggregate_id payload s.box })
  begins :
      (s : Shared) (now : ℕ) (e : OutboxEvent)
      → next_claim now s.locked s.box.events ≡ some e
      → Step s (record s { locked = e.id ∷ s.locked })
  commits :
      (s : Shared) (now id : ℕ)
      → elem id s.locked ≡ true
      → Step s (record { box = commit_claim now id s.box; locked = unlock id s.locked })
  aborts : (s : Shared) (id : ℕ) → Step s (record s { locked = unlock id s.locked })
  finishes :
      (s : Shared) (now : ℕ) (outcome : Outcome) (id : ℕ)
      → elem id s.locked ≡ false
      → Step s (record s { box = finish now outcome id s.box })
  releases : (s : Shared) (cutoff : ℕ) → Step s (record s { box = release_stale cutoff s.box })

-- The states that an empty table reaches.
pub data Reach : Shared → Type 0 where
  start : Reach (record { box = record { next_id = 1; events = [] }; locked = [] })
  step : {s s' : Shared} → Reach s → Step s s' → Reach s'

-- how often an event is claimed: in the table, and by claims that are open
abbrev pub holders : ℕ → Shared → ℕ
holders i s = count (in_work i) s.box.events + count (λ j. j == i) s.locked

-- No id is given twice, or will be, and no event is claimed twice.
unfoldable pub IsSound : Shared → Type 0
IsSound s =
    ((e : OutboxEvent) → In e s.box.events → e.id < s.box.next_id)
    × ((i : ℕ) → count (has_id i) s.box.events ≤ 1)
    × ((i : ℕ) → holders i s ≤ 1)
