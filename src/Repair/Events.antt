-- ===== src/Repair/Events.antt =====
-- The table `ToolEvent`, the stream of a run that the interface shows: `emit`,
-- `_transition_emitted` and `_emit_task_transition` of backend/worker.py. Of an event's payload only
-- the task id is kept, which is what the code reads back.
use pi_development_agent.Base.{
  ℕ, ◌+◌, ◌≤◌, ◌<◌, String, string_Eq, nat_Eq, option_Eq, ◌==◌, Bool, true, ◌&&◌, List, [], ◌∷◌,
  Option, any, count, leb, if◌then◌else◌, arith, ◌≡◌, refl, ap, Bool-cases, inl, inr, ==_refl,
}

pub record ToolEvent : Type 0 where
  pub run_id : String
  pub sequence : ℕ
  pub event_type : String
  pub task_id : Option String

-- `coalesce(max(sequence), 0)` over the events of the run
unfoldable pub last_sequence : String → List ToolEvent → ℕ
last_sequence run_id [] = 0
last_sequence run_id (e ∷ es) =
    let rest = last_sequence run_id es in
    if e.run_id == run_id then (if leb e.sequence rest then rest else e.sequence) else rest

unfoldable pub emit : String → String → Option String → List ToolEvent → List ToolEvent
emit run_id event_type task_id events =
    record {
      run_id = run_id;
      sequence = last_sequence run_id events + 1;
      event_type = event_type;
      task_id = task_id;
    }
    ∷ events

-- the row of one transition
abbrev pub is_transition : String → String → Option String → ToolEvent → Bool
is_transition run_id event_type task_id e =
    e.run_id == run_id && e.event_type == event_type && e.task_id == task_id

unfoldable pub transition_emitted : String → String → Option String → List ToolEvent → Bool
transition_emitted run_id event_type task_id events =
    any (is_transition run_id event_type task_id) events

unfoldable pub emit_task_transition :
    String → String → Option String → List ToolEvent → List ToolEvent
emit_task_transition run_id event_type task_id events =
    if transition_emitted run_id event_type task_id events
    then events
    else emit run_id event_type task_id events

-- the rows of a run with a given number
abbrev pub is_numbered : String → ℕ → ToolEvent → Bool
is_numbered run_id n e = e.run_id == run_id && e.sequence == n

-- No run has two events of one number, as the table's unique constraint asks.
unfoldable pub IsSequenced : List ToolEvent → Type 0
IsSequenced events = (run_id : String) (n : ℕ) → count (is_numbered run_id n) events ≤ 1

beyond_last :
    (run_id : String) (n : ℕ) (events : List ToolEvent)
    → last_sequence run_id events < n
    → count (is_numbered run_id n) events ≡ 0
unfolding last_sequence
beyond_last run_id n [] h = refl
beyond_last run_id n (e ∷ es) h = elim (Bool-cases (e.run_id == run_id)) [
  | inl own ↦ elim (Bool-cases (e.sequence == n)) [
    | inl here' ↦
        let same : e.sequence ≡ n = (nat_Eq.same_iff e.sequence n).0 here' in
        absurd (ground (arith, same))
    | inr other ↦ ground (arith, beyond_last run_id n es (ground arith))
  ]
  | inr foreign ↦ ground (arith, beyond_last run_id n es (ground arith))
]

-- An event that is emitted has a number that no event of its run has, so the numbers of each run
-- stay distinct.
pub emit-IsSequenced :
    (run_id event_type : String) (task_id : Option String) (events : List ToolEvent)
    → IsSequenced events
    → IsSequenced (emit run_id event_type task_id events)
unfolding IsSequenced emit
emit-IsSequenced run_id event_type task_id events ok other n = elim (Bool-cases (run_id == other)) [
  | inl own ↦ elim (Bool-cases ((last_sequence run_id events + 1) == n)) [
    | inl new ↦
        let same : run_id ≡ other = (string_Eq.same_iff run_id other).0 own in
        let number : last_sequence run_id events + 1 ≡ n =
          (nat_Eq.same_iff (last_sequence run_id events + 1) n).0 new in
        let least = ap (λ r. last_sequence r events) same in
        ground (arith, beyond_last other n events (omega (arith, number, least)))
    | inr old ↦ ground (arith, ok other n)
  ]
  | inr foreign ↦ ground (arith, ok other n)
]

emit-transition :
    (run_id event_type : String) (task_id : Option String) (events : List ToolEvent)
    → transition_emitted run_id event_type task_id (emit run_id event_type task_id events) ≡ true
unfolding transition_emitted emit
emit-transition run_id event_type task_id events =
    ground (arith, ==_refl run_id, ==_refl event_type, ==_refl task_id)

-- A transition is on the stream once it has been emitted, and a second emission of the same kind for the
-- same task of the run adds nothing.
pub emit_task_transition_again :
    (run_id event_type : String) (task_id : Option String) (events : List ToolEvent)
    → (transition_emitted run_id event_type task_id
          (emit_task_transition run_id event_type task_id events)
        ≡ true)
      × (emit_task_transition run_id event_type task_id
            (emit_task_transition run_id event_type task_id events)
          ≡ emit_task_transition run_id event_type task_id events)
unfolding emit_task_transition
emit_task_transition_again run_id event_type task_id events =
    elim (Bool-cases (transition_emitted run_id event_type task_id events)) [
      | inl before ↦ ground (arith, before)
      | inr fresh ↦ ground (arith, fresh, emit-transition run_id event_type task_id events)
    ]
