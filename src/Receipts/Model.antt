-- ===== src/Receipts/Model.antt =====
-- `ensure_tool_execution` and `complete_tool_execution` of backend/agent.py. The digest of
-- SHA-256 and the canonical text of JSON are arguments.
use pi_development_agent.Base.{
  ℕ, ◌-◌, Text, codes, String, string_Eq, nat_Eq, list_Eq, ◌==◌, ltb, Bool, false, not, ◌++◌,
  Option, none, some, Dict, lookup, insert, if◌then◌else◌,
}
use pi_development_agent.Receipts.Envelope.{ToolError, ToolResult}

pub record ToolExecution (J : Type 0) : Type 0 where
  pub run_id : Text
  pub task_id : Text
  pub tool_call_id : Text
  pub tool_name : Text
  pub args_digest : Text
  pub status : String
  pub structured_result : Option (ToolResult J)
  pub retryable : Bool
  pub error_code : Option Text
  pub error_message : Option Text
  pub created_at : ℕ
  pub started_at : Option ℕ
  pub finished_at : Option ℕ
  pub heartbeat_at : Option ℕ

-- the table, by the operation's identifier
abbrev pub Receipts : Type 0 → Type 0
Receipts J = Dict Text (ToolExecution J)

pub record Invocation (A : Type 0) : Type 0 where
  pub run_id : Text
  pub task_id : Text
  pub tool_call_id : Text
  pub tool_name : Text
  pub args : A

-- Run, replay the stored result, or one of the two exceptions.
pub data Admission (J : Type 0) : Type 0 where
  execute : Admission J
  replay : ToolResult J → Admission J
  digest_mismatch : Admission J
  still_executing : Admission J

module _ (sha256 : Text → Text) where
  unfoldable pub operation_id : Text → Text → Text → Text
  operation_id run_id task_id tool_call_id =
      sha256 (run_id ++ (codes ":" ++ (task_id ++ (codes ":" ++ tool_call_id))))

  unfoldable pub args_digest_of : {A : Type 0} → (A → Text) → A → Text
  args_digest_of canonical args = sha256 (canonical args)

abbrev pub heartbeat_age : ℕ → Option ℕ → ℕ
heartbeat_age now none = 9_999_000_000
heartbeat_age now (some at) = now - at

abbrev error_code_of : Option ToolError → Option Text
error_code_of none = none
error_code_of (some e) = e.code

abbrev error_message_of : Option ToolError → Option Text
error_message_of none = none
error_message_of (some e) = e.message

abbrev retryable_or : Option Bool → Bool
retryable_or none = false
retryable_or (some b) = b

abbrev retryable_of : Option ToolError → Bool
retryable_of none = false
retryable_of (some e) = retryable_or e.retryable

module _ {J : Type 0} where
  unfoldable pub reset : ToolExecution J → ToolExecution J
  reset e = record e { status = "preparing"; started_at = none; heartbeat_at = none }

  -- a receipt with the right digest and no result to replay
  unfoldable pub reclaim : ℕ → Text → ToolExecution J → Receipts J → Admission J × Receipts J
  reclaim now id e receipts =
      if e.status == "executing"
      then (if ltb (heartbeat_age now e.heartbeat_at) 60_000_000
          then (still_executing, receipts)
          else (execute, insert id (reset e) receipts))
      else (execute, receipts)

  abbrev pub stored_of : ToolExecution J → Option (ToolResult J)
  stored_of e = if e.status == "succeeded" then e.structured_result else none

  abbrev pub replay_or :
      ℕ → Text → ToolExecution J → Option (ToolResult J) → Receipts J → Admission J × Receipts J
  replay_or now id e (some result) receipts = (replay result, receipts)
  replay_or now id e none receipts = reclaim now id e receipts

  unfoldable pub new_receipt : {A : Type 0} → ℕ → Text → Invocation A → ToolExecution J
  new_receipt now digest call = record {
    run_id = call.run_id;
    task_id = call.task_id;
    tool_call_id = call.tool_call_id;
    tool_name = call.tool_name;
    args_digest = digest;
    status = "preparing";
    structured_result = none;
    retryable = false;
    error_code = none;
    error_message = none;
    created_at = now;
    started_at = none;
    finished_at = none;
    heartbeat_at = none;
  }

  unfoldable pub on_existing :
      ℕ → Text → Text → ToolExecution J → Receipts J → Admission J × Receipts J
  on_existing now id digest e receipts =
      if not (e.args_digest == digest)
      then (digest_mismatch, receipts)
      else replay_or now id e (stored_of e) receipts

  abbrev pub ensured :
      {A : Type 0}
      → ℕ
      → Text
      → Text
      → Invocation A
      → Receipts J
      → Option (ToolExecution J)
      → Admission J × Receipts J
  ensured now id digest call receipts none =
      (execute, insert id (new_receipt now digest call) receipts)
  ensured now id digest call receipts (some e) = on_existing now id digest e receipts

  -- The digest of the arguments is computed by the caller of this function from `call.args`.
  unfoldable pub ensure_receipt :
      {A : Type 0} → ℕ → Text → Text → Invocation A → Receipts J → Admission J × Receipts J
  ensure_receipt now id digest call receipts =
      ensured now id digest call receipts (lookup id receipts)

  unfoldable pub completed : ℕ → ToolResult J → ToolExecution J → ToolExecution J
  completed now result e = record e {
    status = if result.ok then "succeeded" else "failed";
    structured_result = some result;
    error_code = error_code_of result.error;
    error_message = error_message_of result.error;
    retryable = retryable_of result.error;
    finished_at = some now;
  }

  abbrev pub complete_found :
      ℕ → Text → ToolResult J → Receipts J → Option (ToolExecution J) → Receipts J
  complete_found now id result receipts none = receipts
  complete_found now id result receipts (some e) = insert id (completed now result e) receipts

  unfoldable pub complete_tool_execution : ℕ → Text → ToolResult J → Receipts J → Receipts J
  complete_tool_execution now id result receipts =
      complete_found now id result receipts (lookup id receipts)

module _ {J A : Type 0} (sha256 : Text → Text) (canonical : A → Text) where
  unfoldable pub ensure_tool_execution :
      ℕ → Text → Invocation A → Receipts J → Admission J × Receipts J
  ensure_tool_execution now id call receipts =
      ensure_receipt now id (args_digest_of sha256 canonical call.args) call receipts
