-- ===== src/Receipts/Examples.antt =====
-- One operation that is run twice, and one that is completed.
use pi_development_agent.Base.{
  ℕ, Text, codes, nat_Eq, list_Eq, ◌==◌, [], ◌∷◌, none, some, lookup, ◌≡◌, refl, if◌then◌else◌,
}
use pi_development_agent.Receipts.Envelope.{ToolResult, success}
use pi_development_agent.Receipts.Model.{
  ToolExecution, Receipts, Invocation, execute, replay, digest_mismatch, args_digest_of,
  operation_id, new_receipt, complete_tool_execution, ensure_tool_execution,
}
use pi_development_agent.Receipts.Replay.{
  at_once, ensure_tool_execution-replays, ensure_tool_execution-twice,
}

-- the digest is the text itself, and a call's arguments are their text
abbrev same : Text → Text
same t = t

abbrev call : Invocation Text
call = record {
  run_id = codes "r";
  task_id = codes "t";
  tool_call_id = codes "c";
  tool_name = codes "write_file";
  args = codes "a";
}

abbrev id : Text
id = codes "r:t:c"

is_id : operation_id same (codes "r") (codes "t") (codes "c") ≡ id
unfolding operation_id
is_id = refl

abbrev nothing : Receipts ℕ
nothing = []

abbrev receipt : ToolExecution ℕ
receipt = new_receipt 1 (codes "a") call

abbrev prepared : Receipts ℕ
prepared = (id, receipt) ∷ []

abbrev done : ToolResult ℕ
done = success 0 (some 7) none []

ensure_tool_execution-replays_example :
    ensure_tool_execution same same 9 id call (complete_tool_execution 2 id done prepared) ≡ (
      if receipt.args_digest == args_digest_of same same call.args
      then (replay done, complete_tool_execution 2 id done prepared)
      else (digest_mismatch, complete_tool_execution 2 id done prepared))
unfolding lookup success
ensure_tool_execution-replays_example =
    ensure_tool_execution-replays same same 2 9 id done receipt prepared
      (complete_tool_execution 2 id done prepared) call refl refl at_once

ensure_tool_execution-twice_example :
    ((ensure_tool_execution same same 1 id call nothing).0 ≡ execute)
    × ((ensure_tool_execution same same 2 id call
          (ensure_tool_execution same same 1 id call nothing).1).0
        ≡ execute)
unfolding lookup
ensure_tool_execution-twice_example = ensure_tool_execution-twice same same 1 2 id call nothing refl
