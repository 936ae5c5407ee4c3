-- ===== src/Receipts/Replay.antt =====
-- What the receipts of tool executions promise, and what they do not.
use pi_development_agent.Base.{
  ℕ, Text, string_Eq, nat_Eq, list_Eq, ◌==◌, ==_refl, ltb, Bool, true, false, Option, none, some,
  lookup, insert, lookup-insert, lookup-insert_self, if◌then◌else◌, ◌≡◌, refl, sym, ap, subst, ◌∙◌,
  Bool-cases, inl, inr,
}
use pi_development_agent.Receipts.Envelope.{ToolResult}
use pi_development_agent.Receipts.Model.{
  ToolExecution, Receipts, Invocation, execute, replay, digest_mismatch, args_digest_of,
  heartbeat_age, reset, reclaim, stored_of, replay_or, new_receipt, on_existing, ensured,
  ensure_receipt, completed, complete_found, complete_tool_execution, ensure_tool_execution,
}

module _ {J : Type 0} where
  -- the receipt of a success
  pub record IsDone (id digest : Text) (result : ToolResult J) (receipts : Receipts J)
      : Type 0 where
    pub receipt : ToolExecution J
    pub found : lookup id receipts ≡ some receipt
    pub digested : receipt.args_digest ≡ digest
    pub succeeded : receipt.status ≡ "succeeded"
    pub stored : receipt.structured_result ≡ some result

  insert-IsDone :
      (id digest other : Text) (result : ToolResult J) (e : ToolExecution J) (receipts : Receipts J)
      → (other == id) ≡ false
      → IsDone id digest result receipts
      → IsDone id digest result (insert other e receipts)
  insert-IsDone id digest other result e receipts apart d = record {
    receipt = d.receipt;
    found = lookup-insert other id e receipts ∙ rw apart d.found;
    digested = d.digested;
    succeeded = d.succeeded;
    stored = d.stored;
  }

  -- the replay_or for a success and what it leaves
  on_existing-done :
      (now : ℕ) (id digest asked : Text) (result : ToolResult J) (receipts : Receipts J)
      (d : IsDone id digest result receipts)
      → on_existing now id asked d.receipt receipts
        ≡ (if digest == asked then (replay result, receipts) else (digest_mismatch, receipts))
  unfolding on_existing
  on_existing-done now id digest asked result receipts d = elim (Bool-cases (digest == asked)) [
    | inl same ↦ rw (d.digested, same, d.succeeded, d.stored) refl
    | inr other ↦ rw (d.digested, other) refl
  ]

  ensured-done :
      {A : Type 0} (now : ℕ) (id digest asked : Text) (call : Invocation A) (result : ToolResult J)
      (receipts : Receipts J)
      → IsDone id digest result receipts
      → ensure_receipt now id asked call receipts
        ≡ (if digest == asked then (replay result, receipts) else (digest_mismatch, receipts))
  unfolding ensure_receipt
  ensured-done now id digest asked call result receipts d =
      rw d.found (on_existing-done now id digest asked result receipts d)

  -- An invocation of another operation writes its own receipt only.
  reclaim-IsDone :
      (now : ℕ) (id digest other : Text) (result : ToolResult J) (e : ToolExecution J)
      (receipts : Receipts J)
      → (other == id) ≡ false
      → IsDone id digest result receipts
      → IsDone id digest result (reclaim now other e receipts).1
  unfolding reclaim
  reclaim-IsDone now id digest other result e receipts apart d =
      elim (Bool-cases (e.status == "executing")) [
        | inr idle ↦ rw idle d
        | inl busy ↦ elim (Bool-cases (ltb (heartbeat_age now e.heartbeat_at) 60_000_000)) [
          | inl alive ↦ rw (busy, alive) d
          | inr stale ↦
              rw (busy, stale) (insert-IsDone id digest other result (reset e) receipts apart d)
        ]
      ]

  replay_or-IsDone :
      (now : ℕ) (id digest other : Text) (result : ToolResult J) (e : ToolExecution J)
      (kept : Option (ToolResult J)) (receipts : Receipts J)
      → (other == id) ≡ false
      → IsDone id digest result receipts
      → IsDone id digest result (replay_or now other e kept receipts).1
  replay_or-IsDone now id digest other result e none receipts apart d =
      reclaim-IsDone now id digest other result e receipts apart d
  replay_or-IsDone now id digest other result e (some r) receipts apart d = d

  on_existing-IsDone :
      (now : ℕ) (id digest other asked : Text) (result : ToolResult J) (e : ToolExecution J)
      (receipts : Receipts J)
      → (other == id) ≡ false
      → IsDone id digest result receipts
      → IsDone id digest result (on_existing now other asked e receipts).1
  unfolding on_existing
  on_existing-IsDone now id digest other asked result e receipts apart d =
      elim (Bool-cases (e.args_digest == asked)) [
        | inl same ↦
            rw same (replay_or-IsDone now id digest other result e (stored_of e) receipts apart d)
        | inr differs ↦ rw differs d
      ]

  ensured-IsDone :
      {A : Type 0} (now : ℕ) (id digest other asked : Text) (call : Invocation A)
      (result : ToolResult J) (receipts : Receipts J) (kept : Option (ToolExecution J))
      → (other == id) ≡ false
      → IsDone id digest result receipts
      → IsDone id digest result (ensured now other asked call receipts kept).1
  ensured-IsDone now id digest other asked call result receipts none apart d =
      insert-IsDone id digest other result (new_receipt now asked call) receipts apart d
  ensured-IsDone now id digest other asked call result receipts (some e) apart d =
      on_existing-IsDone now id digest other asked result e receipts apart d

  asked_again-IsDone :
      {A : Type 0} (now : ℕ) (id digest asked : Text) (call : Invocation A) (result : ToolResult J)
      (receipts : Receipts J)
      → IsDone id digest result receipts
      → IsDone id digest result (ensure_receipt now id asked call receipts).1
  asked_again-IsDone now id digest asked call result receipts d =
      elim (Bool-cases (digest == asked)) [
        | inl same ↦ rw (ensured-done now id digest asked call result receipts d, same) d
        | inr other ↦ rw (ensured-done now id digest asked call result receipts d, other) d
      ]

  ensure_receipt-IsDone :
      {A : Type 0} (now : ℕ) (id digest other asked : Text) (call : Invocation A)
      (result : ToolResult J) (receipts : Receipts J)
      → IsDone id digest result receipts
      → IsDone id digest result (ensure_receipt now other asked call receipts).1
  ensure_receipt-IsDone now id digest other asked call result receipts d =
      elim (Bool-cases (other == id)) [
        | inr apart ↦
            unfold ensure_receipt in
            ensured-IsDone now id digest other asked call result receipts (lookup other receipts)
              apart d
        | inl same ↦
            let e : id ≡ other = sym (((list_Eq {A = ℕ}).same_iff other id).0 same) in
            subst
              (λ (t : Text). IsDone id digest result (ensure_receipt now t asked call receipts).1) e
              (asked_again-IsDone now id digest asked call result receipts d)
      ]

  complete-IsDone :
      (now : ℕ) (id digest other : Text) (result r : ToolResult J) (receipts : Receipts J)
      (kept : Option (ToolExecution J))
      → (other == id) ≡ false
      → IsDone id digest result receipts
      → IsDone id digest result (complete_found now other r receipts kept)
  complete-IsDone now id digest other result r receipts none apart d = d
  complete-IsDone now id digest other result r receipts (some e) apart d =
      insert-IsDone id digest other result (completed now r e) receipts apart d

  completed-succeeded :
      (now : ℕ) (result : ToolResult J) (e : ToolExecution J)
      → result.ok ≡ true
      → (completed now result e).status ≡ "succeeded"
  unfolding completed
  completed-succeeded now result e good =
      ap (λ (b : Bool). if b then "succeeded" else "failed") good

  completed-keeps :
      (now : ℕ) (result : ToolResult J) (e : ToolExecution J)
      → ((completed now result e).args_digest ≡ e.args_digest)
        × ((completed now result e).structured_result ≡ some result)
  unfolding completed
  completed-keeps now result e = (refl, refl)

  completed-IsDone :
      (now : ℕ) (id : Text) (result : ToolResult J) (receipts : Receipts J) (e : ToolExecution J)
      → lookup id receipts ≡ some e
      → result.ok ≡ true
      → IsDone id e.args_digest result (complete_tool_execution now id result receipts)
  unfolding complete_tool_execution
  completed-IsDone now id result receipts e found good = rw found (record {
    receipt = completed now result e;
    found = lookup-insert_self id (completed now result e) receipts;
    digested = (completed-keeps now result e).0;
    succeeded = completed-succeeded now result e good;
    stored = (completed-keeps now result e).1;
  })

  again :
      {A : Type 0} (now later : ℕ) (id digest : Text) (call : Invocation A) (receipts : Receipts J)
      → (on_existing later id digest (new_receipt now digest call) receipts).0 ≡ execute
  unfolding on_existing reclaim new_receipt
  again now later id digest call receipts = rw (==_refl digest) refl

module _ {J A : Type 0} (sha256 : Text → Text) (canonical : A → Text) where
  -- What may happen to the table after the operation `id` has been completed: any invocation, this
  -- one included, and the completion of other operations.
  pub data Later (id : Text) (before : Receipts J) : Receipts J → Type 0 where
    at_once : Later id before before
    ensures :
        (receipts : Receipts J) (now : ℕ) (other : Text) (call : Invocation A)
        → Later id before receipts
        → Later id before (ensure_tool_execution sha256 canonical now other call receipts).1
    completes :
        (receipts : Receipts J) (now : ℕ) (other : Text) (result : ToolResult J)
        → (other == id) ≡ false
        → Later id before receipts
        → Later id before (complete_tool_execution now other result receipts)

  Later-IsDone :
      (id digest : Text) (result : ToolResult J) (before after : Receipts J)
      → Later id before after
      → IsDone id digest result before
      → IsDone id digest result after
  unfolding ensure_tool_execution complete_tool_execution
  Later-IsDone id digest result before _ at_once d = d
  Later-IsDone id digest result before _ (ensures receipts now other call l) d =
      ensure_receipt-IsDone now id digest other (args_digest_of sha256 canonical call.args) call
        result receipts (Later-IsDone id digest result before receipts l d)
  Later-IsDone id digest result before _ (completes receipts now other r apart l) d =
      complete-IsDone now id digest other result r receipts (lookup other receipts) apart
        (Later-IsDone id digest result before receipts l d)

  -- Once an operation has been completed with success, every later invocation under its identifier,
  -- whatever other invocations and completions of other operations come between, is answered by the
  -- stored result where its arguments have the digest of the receipt and refused where not, and
  -- changes nothing.
  pub ensure_tool_execution-replays :
      (now later : ℕ) (id : Text) (result : ToolResult J) (e : ToolExecution J)
      (receipts after : Receipts J) (call : Invocation A)
      → lookup id receipts ≡ some e
      → result.ok ≡ true
      → Later id (complete_tool_execution now id result receipts) after
      → ensure_tool_execution sha256 canonical later id call after ≡ (
          if e.args_digest == args_digest_of sha256 canonical call.args
          then (replay result, after)
          else (digest_mismatch, after))
  unfolding ensure_tool_execution
  ensure_tool_execution-replays now later id result e receipts after call found good l =
      ensured-done later id e.args_digest _ call result after (
        Later-IsDone id e.args_digest result _ after l
          (completed-IsDone now id result receipts e found good))

  -- For an operation without a receipt, a second invocation with the same arguments before the
  -- completion of the first may execute as well.
  pub ensure_tool_execution-twice :
      (now later : ℕ) (id : Text) (call : Invocation A) (receipts : Receipts J)
      → lookup id receipts ≡ none
      → let first = ensure_tool_execution sha256 canonical now id call receipts in
        (first.0 ≡ execute)
        × ((ensure_tool_execution sha256 canonical later id call first.1).0 ≡ execute)
  unfolding ensure_tool_execution ensure_receipt
  ensure_tool_execution-twice now later id call receipts fresh =
      let digest = args_digest_of sha256 canonical call.args in
      let written : lookup id (insert id (new_receipt now digest call) receipts)
          ≡ some (new_receipt now digest call) =
        lookup-insert_self id (new_receipt now digest call) receipts in
      rw fresh (refl, rw written (again now later id digest call _))
