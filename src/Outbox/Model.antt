-- ===== src/Outbox/Model.antt =====
-- The outbox table and the operations on it. `next_id` is the table's sequence; times are
-- microseconds.
use pi_development_agent.Base.{
  ℕ, suc, ◌+◌, String, string_Eq, elem, Bool, true, false, not, ◌&&◌, List, [], ◌∷◌, Option, none,
  some, filter, map, leb, ltb, if◌then◌else◌, ◌==◌, nat_Eq,
}
use pi_development_agent.States.{ResumeDecision}

-- the payload of an `action.resume` event
pub record ResumePayload : Type 0 where
  pub action_id : String
  pub decision : ResumeDecision
  pub cancel_after : Bool
  pub auto_approve_task : Bool

pub record OutboxEvent : Type 0 where
  pub id : ℕ
  pub event_type : String
  pub aggregate_id : String
  pub payload : Option ResumePayload
  pub available_at : ℕ
  pub claimed_at : Option ℕ
  pub completed_at : Option ℕ
  pub attempts : ℕ
  pub last_error : Option String

pub record Outbox : Type 0 where
  pub next_id : ℕ
  pub events : List OutboxEvent

abbrev pub is_null : Option ℕ → Bool
is_null none = true
is_null (some n) = false

-- `enqueue`: the columns that it does not name take their defaults.
unfoldable pub enqueue : ℕ → String → String → Option ResumePayload → Outbox → Outbox
enqueue now event_type aggregate_id payload box = record {
  next_id = suc box.next_id;
  events =
      record {
        id = box.next_id;
        event_type = event_type;
        aggregate_id = aggregate_id;
        payload = payload;
        available_at = now;
        claimed_at = none;
        completed_at = none;
        attempts = 0;
        last_error = none;
      }
      ∷ box.events;
}

-- claimed and not completed
unfoldable pub is_active : OutboxEvent → Bool
is_active e = is_null e.completed_at && not (is_null e.claimed_at)

-- the sub-select of `claim_outbox`
unfoldable pub active_aggregates : List OutboxEvent → List String
active_aggregates events = map (λ e. e.aggregate_id) (filter is_active events)

-- its `where` clause
unfoldable pub is_claimable : ℕ → List String → OutboxEvent → Bool
is_claimable now active e =
    is_null e.completed_at
    && is_null e.claimed_at
    && leb e.available_at now
    && not (elem e.aggregate_id active)

-- `order_by(id)` and `limit(1)`
unfoldable pub least_id : List OutboxEvent → Option OutboxEvent
least_id [] = none
least_id (e ∷ es) = elim (least_id es) [
  | none ↦ some e
  | some f ↦ if leb e.id f.id then some e else some f
]

-- a write to the row with this id
unfoldable pub update : ℕ → (OutboxEvent → OutboxEvent) → List OutboxEvent → List OutboxEvent
update id change [] = []
update id change (e ∷ es) = (if e.id == id then change e else e) ∷ update id change es

abbrev pub claim : ℕ → OutboxEvent → OutboxEvent
claim now e = record e { claimed_at = some now; attempts = e.attempts + 1 }

-- `locked` has the ids of the rows that claims hold which are not committed yet: they are skipped.
unfoldable pub next_claim : ℕ → List ℕ → List OutboxEvent → Option OutboxEvent
next_claim now locked events = least_id (
    filter (λ e. not (elem e.id locked))
      (filter (is_claimable now (active_aggregates events)) events))

-- the write and the commit of a claim
unfoldable pub commit_claim : ℕ → ℕ → Outbox → Outbox
commit_claim now id box = record box { events = update id (claim now) box.events }

-- a claim whose commit follows its query at once
unfoldable pub claim_outbox : ℕ → List ℕ → Outbox → Option OutboxEvent × Outbox
claim_outbox now locked box = elim (next_claim now locked box.events) [
  | none ↦ (none, box)
  | some e ↦ (some e, commit_claim now e.id box)
]

-- how the handler of an event ended
pub data Outcome : Type 0 where
  returned busy : Outcome
  raised : String → Outcome

-- `handle_event` where the handler returned
abbrev pub complete : ℕ → OutboxEvent → OutboxEvent
complete now e = record e { completed_at = some now }

-- where it raised `ProjectBusy`: the event is free again, two seconds later
abbrev pub back_off : ℕ → OutboxEvent → OutboxEvent
back_off now e = record e { claimed_at = none; available_at = now + 2_000_000; last_error = none }

-- where it raised anything else
abbrev pub fail : ℕ → String → OutboxEvent → OutboxEvent
fail now message e = record e { last_error = some message; completed_at = some now }

unfoldable pub settle : ℕ → Outcome → OutboxEvent → OutboxEvent
settle now returned e = complete now e
settle now busy e = back_off now e
settle now (raised message) e = fail now message e

unfoldable pub finish : ℕ → Outcome → ℕ → Outbox → Outbox
finish now outcome id box = record box { events = update id (settle now outcome) box.events }

-- part 5 of `recover_stale_work`: claims older than the cutoff are given up
abbrev pub is_stale : ℕ → OutboxEvent → Bool
is_stale cutoff e =
    is_null e.completed_at && elim e.claimed_at [ none ↦ false | some t ↦ ltb t cutoff ]

unfoldable pub release : ℕ → List OutboxEvent → List OutboxEvent
release cutoff [] = []
release cutoff (e ∷ es) =
    (if is_stale cutoff e then record e { claimed_at = none } else e) ∷ release cutoff es

unfoldable pub release_stale : ℕ → Outbox → Outbox
release_stale cutoff box = record box { events = release cutoff box.events }
