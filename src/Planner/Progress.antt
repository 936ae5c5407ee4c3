-- ===== src/Planner/Progress.antt =====
-- Graphs that list each task behind what it depends on, under `get_next_task` and changes that mark
-- tasks done.
use pi_development_agent.Base.{
  ℕ, ◌≤◌, ◌<◌, String, string_Eq, elem, true, false, not, List, [], ◌∷◌, none, find, all, All,
  count, In, here, there, ◌==◌, ==_refl, All-elem, arith, ◌≡◌, ◌≢◌, refl, ap, sym, subst, ◌⊎◌, inl,
  inr, Bool-cases,
}
use text.Mathlib.TextEquality.{eq_iff}
use pi_development_agent.Planner.Task.{Task, pending, done, is_done}
use pi_development_agent.Planner.Supervisor.{
  done_ids, is_ready, get_next_task, is_complete, replace_task,
}

-- Each task depends only on tasks before it.
abbrev pub IsOrdered : List String → List Task → Type 0
IsOrdered seen [] = Unit
IsOrdered seen (t ∷ ts) =
    All (λ d. elem d seen ≡ true) t.depends_on × IsOrdered (t.task_id ∷ seen) ts

-- No task has failed, been cancelled or been left in progress.
abbrev pub IsLive : List Task → Type 0
IsLive ts = All (λ t. (t.status ≡ pending) ⊎ (t.status ≡ done)) ts

-- Every task that is done is among the ids.
abbrev Covers : List String → List Task → Type 0
Covers ids ts = All (λ t. t.status ≡ done → elem t.task_id ids ≡ true) ts

known_in :
    (ids : List String) (d : String) (seen : List String)
    → All (λ s. elem s ids ≡ true) seen
    → elem d seen ≡ true
    → elem d ids ≡ true
known_in ids d seen known h = All-elem (λ s. elem s ids ≡ true) d seen known h

all_known :
    (ids seen deps : List String)
    → All (λ s. elem s ids ≡ true) seen
    → All (λ d. elem d seen ≡ true) deps
    → all (λ d. elem d ids) deps ≡ true
all_known ids seen [] known h = refl
all_known ids seen (d ∷ deps) known h =
    ground (arith, all_known ids seen deps known h.1, known_in ids d seen known h.0)

ready_exists :
    (ids seen : List String) (ts : List Task)
    → All (λ s. elem s ids ≡ true) seen
    → Covers ids ts
    → IsOrdered seen ts
    → IsLive ts
    → all (λ t. is_done t.status) ts ≡ false
    → find (is_ready ids) ts ≢ none
unfolding is_ready
ready_exists ids seen [] known c o l h = cc
ready_exists ids seen (t ∷ ts) known c o l h = elim (l.0) [
  | inl waiting ↦ ground (arith, all_known ids seen t.depends_on known o.0)
  | inr finished ↦
      ground (arith, ready_exists ids (t.task_id ∷ seen) ts (c.0 finished, known) c.1 o.1 l.1)
]

Covers-tail :
    (t : Task) (ids : List String) (ts : List Task) → Covers ids ts → Covers (t.task_id ∷ ids) ts
unfolding elem
Covers-tail t ids [] c = tt
Covers-tail t ids (u ∷ ts) c = (λ d. ground (arith, c.0 d), Covers-tail t ids ts c.1)

done_ids-done :
    (t : Task) (ts : List Task)
    → is_done t.status ≡ true
    → done_ids (t ∷ ts) ≡ t.task_id ∷ done_ids ts
unfolding done_ids
done_ids-done t ts h = rw h

done_ids-other :
    (t : Task) (ts : List Task) → is_done t.status ≡ false → done_ids (t ∷ ts) ≡ done_ids ts
unfolding done_ids
done_ids-other t ts h = rw h

elem_head : (a : String) (xs : List String) → elem a (a ∷ xs) ≡ true
unfolding elem
elem_head a xs = ground (arith, ==_refl a)

Covers-done_ids : (ts : List Task) → Covers (done_ids ts) ts
Covers-done_ids [] = tt
Covers-done_ids (t ∷ ts) = elim (Bool-cases (is_done t.status)) [
  | inl finished ↦
      subst (λ ids. Covers ids (t ∷ ts)) (sym (done_ids-done t ts finished))
        (
          λ d. elem_head t.task_id (done_ids ts),
          Covers-tail t (done_ids ts) ts (Covers-done_ids ts),
        )
  | inr other ↦
      subst (λ ids. Covers ids (t ∷ ts)) (sym (done_ids-other t ts other))
        (λ d. absurd (ground arith), Covers-done_ids ts)
]

-- In a live and ordered graph that is not complete there is a next task, so the worker's deadlock
-- branch is not reached.
pub get_next_task-live :
    (graph : List Task)
    → IsOrdered [] graph
    → IsLive graph
    → is_complete graph ≡ false
    → get_next_task graph ≢ none
unfolding get_next_task is_complete
get_next_task-live graph o l h =
    ready_exists (done_ids graph) [] graph tt (Covers-done_ids graph) o l h

-- A change of the tasks with some id that leaves their names and their dependencies, and marks them
-- done.
module _ (id : String) (change : Task → Task)
    (same_id : (t : Task) → (change t).task_id ≡ t.task_id)
    (same_depends : (t : Task) → (change t).depends_on ≡ t.depends_on)
    (finished : (t : Task) → (change t).status ≡ done) where
  pub replace-IsOrdered :
      (seen : List String) (ts : List Task)
      → IsOrdered seen ts
      → IsOrdered seen (replace_task id change ts)
  unfolding replace_task
  replace-IsOrdered seen [] o = tt
  replace-IsOrdered seen (t ∷ ts) o = elim (Bool-cases (t.task_id == id)) [
    | inl same ↦
        rw (same, same_id t, same_depends t) (o.0, replace-IsOrdered (t.task_id ∷ seen) ts o.1)
    | inr other ↦ rw other (o.0, replace-IsOrdered (t.task_id ∷ seen) ts o.1)
  ]

  pub replace-IsLive : (ts : List Task) → IsLive ts → IsLive (replace_task id change ts)
  unfolding replace_task
  replace-IsLive [] l = tt
  replace-IsLive (t ∷ ts) l = elim (Bool-cases (t.task_id == id)) [
    | inl same ↦ rw same (inr (finished t), replace-IsLive ts l.1)
    | inr other ↦ rw other (l.0, replace-IsLive ts l.1)
  ]

  -- the tasks that are left
  replace-left-le :
      (ts : List Task)
      → count (λ t. not (is_done t.status)) (replace_task id change ts)
        ≤ count (λ t. not (is_done t.status)) ts
  unfolding replace_task
  replace-left-le [] = omega arith
  replace-left-le (t ∷ ts) = ground (arith, replace-left-le ts, finished t)

  pub replace-left-lt :
      (t : Task) (ts : List Task)
      → In t ts
      → t.task_id ≡ id
      → is_done t.status ≡ false
      → count (λ t. not (is_done t.status)) (replace_task id change ts)
        < count (λ t. not (is_done t.status)) ts
  unfolding replace_task
  replace-left-lt t [] m e h = elim m [ ]
  replace-left-lt t (u ∷ ts) (here q) e h = ground (
    arith,
    finished u,
    replace-left-le ts,
    eq_iff u.task_id id,
    ap (λ (x : Task). x.task_id) q,
    ap (λ (x : Task). is_done x.status) q,
  )
  replace-left-lt t (u ∷ ts) (there m) e h = ground (arith, finished u, replace-left-lt t ts m e h)

-- tasks that are not done
abbrev pub left : List Task → ℕ
left ts = count (λ t. not (is_done t.status)) ts

pub complete_of_none_left : (ts : List Task) → left ts ≡ 0 → is_complete ts ≡ true
unfolding is_complete
complete_of_none_left [] h = refl
complete_of_none_left (t ∷ ts) h = ground (arith, complete_of_none_left ts)
