-- ===== src/Planner/Examples.antt =====
-- The supervisor on the task graphs that the agent starts with.
use pi_development_agent.Base.{
  String, string_Eq, elem, false, List, [], ◌∷◌, none, some, ◌≡◌, refl, inl,
}
use pi_development_agent.Planner.Task.{Task, TaskStatus, pending, done, no_context}
use pi_development_agent.Planner.Graphs.{build_from_specification}
use pi_development_agent.Planner.Supervisor.{done_ids, is_ready, get_next_task, is_complete}
use pi_development_agent.Planner.Progress.{IsOrdered, IsLive}

abbrev task : String → List String → TaskStatus → Task
task task_id depends_on status = record {
  task_id = task_id;
  title = task_id;
  depends_on = depends_on;
  status = status;
  retry_count = 0;
  max_retries = some 2;
  acceptance_criteria = none;
  context_bundle = no_context;
  result = none;
  heartbeat_at = none;
}

abbrev chain : List Task
chain = task "a" [] done ∷ task "b" ("a" ∷ []) pending ∷ task "c" ("b" ∷ []) pending ∷ []

abbrev knot : List Task
knot = task "a" ("b" ∷ []) pending ∷ task "b" ("a" ∷ []) pending ∷ []

specification-IsOrdered : IsOrdered [] build_from_specification
unfolding elem
specification-IsOrdered =
    (tt, ((refl, tt), ((refl, tt), ((refl, tt), ((refl, (refl, (refl, tt))), ((refl, tt), tt))))))

next_of_chain : get_next_task chain ≡ some (task "b" ("a" ∷ []) pending)
unfolding get_next_task is_ready done_ids elem
next_of_chain = refl

next_of_knot : get_next_task knot ≡ none
unfolding get_next_task is_ready done_ids elem
next_of_knot = refl

chain_continues : is_complete chain ≡ false
unfolding is_complete
chain_continues = refl

specification-IsLive : IsLive build_from_specification
specification-IsLive = (inl refl, (inl refl, (inl refl, (inl refl, (inl refl, (inl refl, tt))))))
