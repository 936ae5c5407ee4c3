-- ===== src/Runs/Prepare.antt =====
-- `process_run_prepare` of backend/worker.py: the source index, the specification and the task graph of
-- a run before its start. What the index and the compiler of specifications do is an argument.
use pi_development_agent.Base.{
  ℕ, ◌++◌, Text, codes, string_Eq, ◌==◌, Bool, true, false, not, ◌&&◌, [], Option, none, some,
  if◌then◌else◌, ◌≡◌, refl, arith, ◌⊎◌, inl, inr, Option-cases, Bool-cases,
}
use pi_development_agent.States.{RunStatus}
use pi_development_agent.Planner.Graphs.{build_from_specification}
use pi_development_agent.Runs.Model.{World}
use pi_development_agent.Runs.Subtasks.{enqueues, on_run}
use pi_development_agent.Runs.Start.{is_nonempty}
use pi_development_agent.Runs.Accounts.{is_accounted}

-- `SourceSnapshot.status`
pub data SnapshotStatus : Type 0 where
  pending_index indexing indexed failed : SnapshotStatus

-- a specification, by whether it has requirements
pub record Specification : Type 0 where
  pub has_requirements : Bool

-- The run's snapshot and its specification, if it has them, with what the two steps give: an error's text
-- or the result.
pub record Preparation : Type 0 where
  pub snapshot : Option SnapshotStatus
  pub index_error : Option Text
  pub specification : Option Specification
  pub compile_error : Option Text
  pub compiled : Specification

abbrev is_waiting : RunStatus → Bool
is_waiting RunStatus.queued = true
is_waiting RunStatus.running = true
is_waiting _ = false

abbrev is_pending_index : Option SnapshotStatus → Bool
is_pending_index (some pending_index) = true
is_pending_index _ = false

abbrev is_read_only : World → Bool
is_read_only w = w.run.intent == "read_only"

unfoldable pub fail_preparation : ℕ → Text → World → World
fail_preparation now message = on_run (λ r. record r {
  status = RunStatus.failed;
  error_message = some message;
  finished_at = some now;
})

-- 1. `none` goes on.
unfoldable pub index_snapshot : Preparation → Option Text
index_snapshot p =
    if is_pending_index p.snapshot
    then elim p.index_error [ none ↦ none | some text ↦ some (codes "Indexing failed: " ++ text) ]
    else none

-- the snapshot behind it
unfoldable pub snapshot_after : Preparation → Option SnapshotStatus
snapshot_after p =
    if is_pending_index p.snapshot
    then elim p.index_error [ none ↦ some indexed | some text ↦ some failed ]
    else p.snapshot

pub data Compiled : Type 0 where
  compile_fails : Text → Compiled
  specified : Option Specification → Compiled

-- 3. A run that is read-only or has a specification is not compiled.
unfoldable pub specify : Bool → Preparation → Compiled
specify read_only p = if read_only then specified p.specification else elim p.specification [
  | some old ↦ specified (some old)
  | none ↦ elim p.compile_error [
    | some text ↦ compile_fails (codes "Specification compilation failed: " ++ text)
    | none ↦ specified (some p.compiled)
  ]
]

abbrev asks_graph : Bool → Option Specification → World → Bool
asks_graph read_only none w = false
asks_graph read_only (some spec) w =
    not (is_nonempty w.run.task_graph) && not read_only && spec.has_requirements

-- 4 and 5
unfoldable pub build_graph : Option Specification → World → World
build_graph specification w =
    if asks_graph (is_read_only w) specification w
    then on_run (λ r. record r { task_graph = build_from_specification; task_retries = [] }) w
    else w

unfoldable pub process_run_prepare : ℕ → Preparation → World → World
process_run_prepare now p w = if not (is_waiting w.run.status) then w else elim (index_snapshot p) [
  | some message ↦ fail_preparation now message w
  | none ↦ elim (specify (is_read_only w) p) [
    | compile_fails message ↦ fail_preparation now message w
    | specified specification ↦ enqueues now "run.start" none (build_graph specification w)
  ]
]

Compiled-cases :
    (c : Compiled)
    → ((text : Text) × (c ≡ compile_fails text))
      ⊎ ((specification : Option Specification) × (c ≡ specified specification))
Compiled-cases (compile_fails text) = inl (text, refl)
Compiled-cases (specified specification) = inr (specification, refl)

fail_preparation-accounted :
    (now : ℕ) (message : Text) (w : World)
    → is_accounted w.run ≡ true
    → is_accounted (fail_preparation now message w).run ≡ true
unfolding fail_preparation is_accounted
fail_preparation-accounted now message w h = ground arith

build_graph-accounted :
    (specification : Option Specification) (w : World)
    → is_waiting w.run.status ≡ true
    → is_accounted w.run ≡ true
    → is_accounted (build_graph specification w).run ≡ true
unfolding build_graph is_accounted
build_graph-accounted specification w q h = ground (arith, Option-cases specification)

pub process_run_prepare-accounted :
    (now : ℕ) (p : Preparation) (w : World)
    → is_accounted w.run ≡ true
    → is_accounted (process_run_prepare now p w).run ≡ true
unfolding process_run_prepare
process_run_prepare-accounted now p w h = elim (Bool-cases (is_waiting w.run.status)) [
  | inr over ↦ ground arith
  | inl waits ↦ elim (Option-cases (index_snapshot p)) [
    | inr (message, e) ↦ let kept = fail_preparation-accounted now message w h in ground arith
    | inl e ↦ elim (Compiled-cases (specify (is_read_only w) p)) [
      | inl (message, fails) ↦ let kept = fail_preparation-accounted now message w h in ground arith
      | inr (specification, built) ↦
          let kept = build_graph-accounted specification w waits h in ground arith
    ]
  ]
]
