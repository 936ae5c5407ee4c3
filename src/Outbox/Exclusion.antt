-- ===== src/Outbox/Exclusion.antt =====
-- No event of the outbox is claimed twice, though claims overlap.
use pi_development_agent.Base.{
  ℕ, ◌≤◌, ◌<◌, String, string_Eq, nat_Eq, ◌==◌, Bool, elem, true, false, List, [], ◌∷◌, Option,
  some, count, In, here, there, arith, ◌≡◌, refl, ap, subst, Bool-cases, ◌⊎◌, inl, inr,
}
use pi_development_agent.Outbox.Model.{
  OutboxEvent, Outbox, ResumePayload, Outcome, returned, busy, raised, is_active, enqueue, update,
  claim, next_claim, commit_claim, settle, finish, release_stale,
}
use pi_development_agent.Outbox.Claims.{next_claim_first}
use pi_development_agent.Outbox.Counts.{
  has_id, in_work, count_zero, count_one, count-update-le, count-update, count-release, In-update,
  In-release,
}
use pi_development_agent.Outbox.Shared.{
  Shared, unlock, Step, enqueues, begins, commits, aborts, finishes, releases, Reach, start, step,
  holders, IsSound,
}

flip : (i j : ℕ) → (i == j) ≡ (j == i)
flip i j = ground arith

module _ (i : ℕ) where
  abbrev is_id : ℕ → Bool
  is_id j = j == i

  unlocked_none : (locked : List ℕ) → elem i locked ≡ false → count is_id locked ≡ 0
  unfolding elem
  unlocked_none [] h = refl
  unlocked_none (j ∷ js) h = ground (arith, unlocked_none js, flip i j)

  locked_some : (locked : List ℕ) → elem i locked ≡ true → 1 ≤ count is_id locked
  unfolding elem
  locked_some [] h = cc
  locked_some (j ∷ js) h = ground (arith, locked_some js, flip i j)

  unlock-le : (id : ℕ) (locked : List ℕ) → count is_id (unlock id locked) ≤ count is_id locked
  unfolding unlock
  unlock-le id [] = omega arith
  unlock-le id (j ∷ js) = ground (arith, unlock-le id js)

  unlock_self : (locked : List ℕ) → count is_id (unlock i locked) ≡ 0
  unfolding unlock
  unlock_self [] = refl
  unlock_self (j ∷ js) = ground (arith, unlock_self js)

-- A write that keeps the id of each row keeps the ids apart and below the sequence.
update-ids :
    (i : ℕ) (change : OutboxEvent → OutboxEvent) (box : Outbox)
    → ((e : OutboxEvent) → (change e).id ≡ e.id)
    → ((e : OutboxEvent) → In e box.events → e.id < box.next_id)
    → ((j : ℕ) → count (has_id j) box.events ≤ 1)
    → ((e : OutboxEvent) → In e (update i change box.events) → e.id < box.next_id)
      × ((j : ℕ) → count (has_id j) (update i change box.events) ≤ 1)
update-ids i change box same fresh unique = (
  (λ e m.
      let (f, k, c) = In-update i change box.events e m in
      elim c [
        | inl q ↦ ground (arith, fresh f k, ap (λ (y : OutboxEvent). y.id) q)
        | inr q ↦ ground (arith, fresh f k, same f, ap (λ (y : OutboxEvent). y.id) q)
      ]),
  (λ j. ground (
    arith,
    unique j,
    count-update (has_id j) i change box.events (λ e m t h. ground (arith, same e)),
  )),
)

begin-holders :
    (s : Shared) (now : ℕ) (e : OutboxEvent)
    → IsSound s
    → next_claim now s.locked s.box.events ≡ some e
    → (i : ℕ) → holders i (record s { locked = e.id ∷ s.locked }) ≤ 1
unfolding IsSound is_active
begin-holders s now e (fresh, unique, held) found i =
    let (m, unfinished, free, due, alone, open') =
      next_claim_first now s.locked s.box.events e found in
    elim (Bool-cases (e.id == i)) [
      | inl t ↦
          let q : e.id ≡ i = (nat_Eq.same_iff e.id i).0 t in
          let idle : count (in_work i) s.box.events ≡ 0 =
            count_zero (in_work i) s.box.events (λ f k. elim (Bool-cases (in_work i f)) [
              | inl w ↦
                  let same : f ≡ e =
                    count_one (has_id i) f e s.box.events (unique i) k m (ground arith) t in
                  absurd (ground (arith, free, ap (λ (y : OutboxEvent). y.claimed_at) same))
              | inr w ↦ w
            ]) in
          ground (arith, idle, unlocked_none i s.locked (ground (arith, q, open')))
      | inr f ↦ ground (arith, held i)
    ]

commit-holders :
    (s : Shared) (now id : ℕ)
    → IsSound s
    → elem id s.locked ≡ true
    → (i : ℕ)
    → holders i (record { box = commit_claim now id s.box; locked = unlock id s.locked }) ≤ 1
unfolding IsSound commit_claim
commit-holders s now id (fresh, unique, held) open' i = elim (Bool-cases (id == i)) [
  | inl t ↦
      let q : id ≡ i = (nat_Eq.same_iff id i).0 t in
      let few = count-update-le (in_work id) id (claim now) s.box.events in
      let none_left = unlock_self id s.locked in
      let one : holders id (record { box = commit_claim now id s.box; locked = unlock id s.locked })
          ≤ 1 =
        omega (arith, few, unique id, none_left, held id, locked_some id s.locked open') in
      subst
        (λ j.
          holders j (record { box = commit_claim now id s.box; locked = unlock id s.locked }) ≤ 1)
        q one
  | inr f ↦
      let few =
        count-update (in_work i) id (claim now) s.box.events (λ e m g c. absurd (ground arith)) in
      omega (arith, few, unlock-le i id s.locked, held i)
]

settle-id : (now : ℕ) (outcome : Outcome) (e : OutboxEvent) → (settle now outcome e).id ≡ e.id
unfolding settle
settle-id now returned e = refl
settle-id now busy e = refl
settle-id now (raised message) e = refl

settle-free :
    (now : ℕ) (outcome : Outcome) (i : ℕ) (e : OutboxEvent)
    → in_work i (settle now outcome e) ≡ false
unfolding settle is_active
settle-free now returned i e = ground arith
settle-free now busy i e = ground arith
settle-free now (raised message) i e = ground arith

In-cons : {e x : OutboxEvent} {es : List OutboxEvent} → In e (x ∷ es) → (e ≡ x) ⊎ In e es
In-cons (here q) = inl q
In-cons (there m) = inr m

other_id : (e : OutboxEvent) (i : ℕ) → e.id < i → has_id i e ≡ false
other_id e i lt = elim (Bool-cases (has_id i e)) [
  | inl t ↦ absurd (let q : e.id ≡ i = (nat_Eq.same_iff e.id i).0 t in omega (arith, lt, q))
  | inr f ↦ f
]

enqueue-IsSound :
    (now : ℕ) (event_type aggregate_id : String) (payload : Option ResumePayload) (s : Shared)
    → IsSound s
    → IsSound (record s { box = enqueue now event_type aggregate_id payload s.box })
unfolding IsSound enqueue is_active
enqueue-IsSound now event_type aggregate_id payload s (fresh, unique, held) = (
  (λ e m. elim (In-cons m) [
    | inl q ↦ ground (arith, ap (λ (y : OutboxEvent). y.id) q)
    | inr k ↦ ground (arith, fresh e k)
  ]),
  (λ i. elim (Bool-cases (s.box.next_id == i)) [
    | inl t ↦ ground (
      arith,
      count_zero (has_id i) s.box.events (λ e m.
          let later : s.box.next_id ≡ i = (nat_Eq.same_iff s.box.next_id i).0 t in
          other_id e i (omega (arith, fresh e m, later))),
    )
    | inr f ↦ ground (arith, unique i)
  ]),
  (λ i. ground (arith, held i)),
)

release-IsSound :
    (cutoff : ℕ) (s : Shared) → IsSound s → IsSound (record s { box = release_stale cutoff s.box })
unfolding IsSound release_stale is_active
release-IsSound cutoff s (fresh, unique, held) = (
  (λ e m. let (f, k, q) = In-release cutoff s.box.events e m in ground (arith, fresh f k)),
  (λ i. ground (arith, unique i, count-release (has_id i) cutoff s.box.events (λ e h. h))),
  (λ i.
      let fewer = count-release (in_work i) cutoff s.box.events (λ e h. absurd (ground arith)) in
      omega (arith, held i, fewer)),
)

finish-IsSound :
    (now : ℕ) (outcome : Outcome) (id : ℕ) (s : Shared)
    → IsSound s
    → IsSound (record s { box = finish now outcome id s.box })
unfolding IsSound finish
finish-IsSound now outcome id s (fresh, unique, held) =
    let (f, u) = update-ids id (settle now outcome) s.box (settle-id now outcome) fresh unique in
    (
      f,
      u,
      λ i.
          let fewer =
            count-update (in_work i) id (settle now outcome) s.box.events
              (λ e m t c. absurd (ground (arith, settle-free now outcome i e))) in
          omega (arith, held i, fewer),
    )

-- Every step keeps the table sound.
pub Step-IsSound : {s s' : Shared} → Step s s' → IsSound s → IsSound s'
unfolding IsSound commit_claim
Step-IsSound (enqueues s now event_type aggregate_id payload) ok =
    enqueue-IsSound now event_type aggregate_id payload s ok
Step-IsSound (begins s now e found) (fresh, unique, held) =
    (fresh, unique, begin-holders s now e (fresh, unique, held) found)
Step-IsSound (commits s now id open') (fresh, unique, held) =
    let (f, u) = update-ids id (claim now) s.box (λ e. refl) fresh unique in
    (f, u, commit-holders s now id (fresh, unique, held) open')
Step-IsSound (aborts s id) (fresh, unique, held) =
    (fresh, unique, λ i. omega (arith, held i, unlock-le i id s.locked))
Step-IsSound (finishes s now outcome id idle) ok = finish-IsSound now outcome id s ok
Step-IsSound (releases s cutoff) ok = release-IsSound cutoff s ok

-- In every state that workers reach whose claims may overlap, whatever the order of the steps, at most
-- one open claim holds an event, and none holds one that is claimed and not completed in the table;
-- no two rows share an id, and the sequence is past them.
pub Reach-IsSound : (s : Shared) → Reach s → IsSound s
unfolding IsSound
Reach-IsSound s start = ((λ e m. elim m [ ]), (λ i. omega arith), (λ i. omega arith))
Reach-IsSound s (step r t) = Step-IsSound t (Reach-IsSound _ r)
