-- ===== src/Runs/Requests/Retry.antt =====
-- What a retried run takes over from the run before.
use pi_development_agent.Base.{string_Eq, List, All, ◌≢◌}
use pi_development_agent.Planner.Task.{Task, TaskStatus}

-- No task was cancelled or is blocked.
abbrev pub IsRenewable : List Task → Type 0
IsRenewable graph =
    All (λ t. (t.status ≢ TaskStatus.blocked) × (t.status ≢ TaskStatus.cancelled)) graph
