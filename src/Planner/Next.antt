-- ===== src/Planner/Next.antt =====
-- The task that `get_next_task` chooses.
use pi_development_agent.Base.{
  ◌≤◌, ◌↔◌, count, length, string_Eq, elem, true, false, List, [], ◌∷◌, none, some, find-some,
  find-none, all, In, arith, ◌≡◌,
}
use pi_development_agent.Planner.Task.{Task, TaskStatus, is_done}
use pi_development_agent.Planner.Supervisor.{
  done_ids, is_ready, get_next_task, is_complete, progress,
}

-- The chosen task belongs to the graph, is pending, and all that it depends on is done.
pub get_next_task_sound :
    (graph : List Task) (t : Task)
    → get_next_task graph ≡ some t
    → In t graph
      × (t.status ≡ TaskStatus.pending)
      × (all (λ d. elem d (done_ids graph)) t.depends_on ≡ true)
unfolding get_next_task is_ready
get_next_task_sound graph t h =
    let (m, ready) = find-some (is_ready (done_ids graph)) graph t h in
    (m, ground arith, ground arith)

-- Where no task is chosen, no pending task of the graph has all its dependencies done.
pub get_next_task-none :
    (graph : List Task) (t : Task)
    → get_next_task graph ≡ none
    → In t graph
    → t.status ≡ TaskStatus.pending
    → all (λ d. elem d (done_ids graph)) t.depends_on ≡ false
unfolding get_next_task is_ready
get_next_task-none graph t h m p = ground (arith, find-none (is_ready (done_ids graph)) t graph h m)

count_le : (graph : List Task) → count (λ t. is_done t.status) graph ≤ length graph
count_le [] = omega arith
count_le (t ∷ graph) = ground (arith, count_le graph)

all_iff_count :
    (graph : List Task)
    → (all (λ t. is_done t.status) graph ≡ true)
      ↔ (count (λ t. is_done t.status) graph ≡ length graph)
all_iff_count [] = ground arith
all_iff_count (t ∷ graph) = ground (arith, all_iff_count graph, count_le graph)

-- A graph is complete exactly where the progress line shows as many tasks done as there are.
pub is_complete-progress :
    (graph : List Task) → (is_complete graph ≡ true) ↔ ((progress graph).0 ≡ (progress graph).1)
unfolding is_complete progress
is_complete-progress graph = all_iff_count graph
