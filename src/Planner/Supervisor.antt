-- ===== src/Planner/Supervisor.antt =====
-- `SupervisorPlanner` of backend/agent.py on a task graph, and `_replace_task` of backend/worker.py,
-- by which the worker writes the graph.
use pi_development_agent.Base.{
  ℕ, String, string_Eq, elem, Bool, ◌&&◌, List, [], ◌∷◌, Option, none, some, filter, find, any, all,
  map, count, length, leb, if◌then◌else◌, ◌==◌,
}
use pi_development_agent.Planner.Task.{Task, is_pending, is_done, is_failed}

unfoldable pub done_ids : List Task → List String
done_ids graph = map (λ t. t.task_id) (filter (λ t. is_done t.status) graph)

unfoldable pub is_ready : List String → Task → Bool
is_ready done t = is_pending t.status && all (λ d. elem d done) t.depends_on

unfoldable pub get_next_task : List Task → Option Task
get_next_task graph = find (is_ready (done_ids graph)) graph

unfoldable pub is_complete : List Task → Bool
is_complete graph = all (λ t. is_done t.status) graph

-- `t.get("max_retries", 2)`
retry_limit : Task → ℕ
retry_limit t = elim t.max_retries [ none ↦ 2 | some n ↦ n ]

unfoldable pub has_failure : List Task → Bool
unfolding retry_limit
has_failure graph = any (λ t. is_failed t.status && leb (retry_limit t) t.retry_count) graph

-- the two numbers of `format_progress`
unfoldable pub progress : List Task → ℕ × ℕ
progress graph = (count (λ t. is_done t.status) graph, length graph)

-- `{**task, **changes} if task.get("task_id") == task_id else {**task}` for each task
unfoldable pub replace_task : String → (Task → Task) → List Task → List Task
replace_task task_id changes [] = []
replace_task task_id changes (t ∷ graph) =
    (if t.task_id == task_id then changes t else t) ∷ replace_task task_id changes graph
