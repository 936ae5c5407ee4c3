-- ===== src/Outbox/Counts.antt =====
-- How many rows have a property, before and after a write to the table.
use pi_development_agent.Base.{
  ℕ, ◌+◌, ◌≤◌, string_Eq, nat_Eq, ◌==◌, elem, Bool, true, false, ◌&&◌, List, [], ◌∷◌, none, map,
  count, In, here, there, In-filter, if◌then◌else◌, arith, ◌≡◌, refl, ap, Bool-cases, ◌⊎◌, inl, inr,
  In-elem,
}
use pi_development_agent.Outbox.Model.{
  OutboxEvent, is_active, active_aggregates, update, release, is_stale,
}

abbrev pub has_id : ℕ → OutboxEvent → Bool
has_id i e = e.id == i

module _ (p : OutboxEvent → Bool) where
  pub count-In : (e : OutboxEvent) (es : List OutboxEvent) → In e es → p e ≡ true → 1 ≤ count p es
  count-In e [] m h = elim m [ ]
  count-In e (x ∷ es) (here q) h = ground (arith, ap p q)
  count-In e (x ∷ es) (there m) h = ground (arith, count-In e es m h)

  pub count_zero :
      (es : List OutboxEvent) → ((e : OutboxEvent) → In e es → p e ≡ false) → count p es ≡ 0
  count_zero [] h = refl
  count_zero (x ∷ es) h = ground (arith, h x (here refl), count_zero es (λ e m. h e (there m)))

  pub count_one :
      (e f : OutboxEvent) (es : List OutboxEvent)
      → count p es ≤ 1
      → In e es
      → In f es
      → p e ≡ true
      → p f ≡ true
      → e ≡ f
  count_one e f [] n m k h g = elim m [ ]
  count_one e f (x ∷ es) n (here q) (here r) h g = cc
  count_one e f (x ∷ es) n (here q) (there k) h g =
      absurd (ground (arith, ap p q, count-In f es k g))
  count_one e f (x ∷ es) n (there m) (here r) h g =
      absurd (ground (arith, ap p r, count-In e es m h))
  count_one e f (x ∷ es) n (there m) (there k) h g = count_one e f es (ground arith) m k h g

module _ (p : OutboxEvent → Bool) (i : ℕ) (change : OutboxEvent → OutboxEvent) where
  pub count-update-le :
      (es : List OutboxEvent) → count p (update i change es) ≤ count p es + count (has_id i) es
  unfolding update
  count-update-le [] = omega arith
  count-update-le (x ∷ es) = elim (Bool-cases (x.id == i)) [
    | inl t ↦ ground (arith, count-update-le es)
    | inr f ↦ ground (arith, count-update-le es)
  ]

  pub count-update :
      (es : List OutboxEvent)
      → ((e : OutboxEvent) → In e es → has_id i e ≡ true → p (change e) ≡ true → p e ≡ true)
      → count p (update i change es) ≤ count p es
  unfolding update
  count-update [] h = omega arith
  count-update (x ∷ es) h =
      let rest = count-update es (λ e m. h e (there m)) in
      elim (Bool-cases (x.id == i)) [
        | inl t ↦ elim (Bool-cases (p (change x))) [
          | inl c ↦ ground (arith, rest, h x (here refl) t c)
          | inr c ↦ ground (arith, rest)
        ]
        | inr f ↦ ground (arith, rest)
      ]

module _ (p : OutboxEvent → Bool) (cutoff : ℕ) where
  pub count-release :
      (es : List OutboxEvent)
      → ((e : OutboxEvent) → p (record e { claimed_at = none }) ≡ true → p e ≡ true)
      → count p (release cutoff es) ≤ count p es
  unfolding release
  count-release [] h = omega arith
  count-release (x ∷ es) h = elim (Bool-cases (is_stale cutoff x)) [
    | inl t ↦ elim (Bool-cases (p (record x { claimed_at = none }))) [
      | inl c ↦ ground (arith, count-release es h, h x c)
      | inr c ↦ ground (arith, count-release es h)
    ]
    | inr f ↦ ground (arith, count-release es h)
  ]

-- What `update` and `release` leave is a row of before, changed or not.
pub In-update :
    (i : ℕ) (change : OutboxEvent → OutboxEvent) (es : List OutboxEvent) (e : OutboxEvent)
    → In e (update i change es)
    → (f : OutboxEvent) × In f es × ((e ≡ f) ⊎ (e ≡ change f))
unfolding update
In-update i change [] e m = elim m [ ]
In-update i change (x ∷ es) e (here q) = elim (Bool-cases (x.id == i)) [
  | inl t ↦ (x, here refl, inr (ground arith))
  | inr n ↦ (x, here refl, inl (ground arith))
]
In-update i change (x ∷ es) e (there m) =
    let (f, k, c) = In-update i change es e m in (f, there k, c)

pub In-release :
    (cutoff : ℕ) (es : List OutboxEvent) (e : OutboxEvent)
    → In e (release cutoff es)
    → (f : OutboxEvent) × In f es × (e.id ≡ f.id)
unfolding release
In-release cutoff [] e m = elim m [ ]
In-release cutoff (x ∷ es) e (here q) =
    let same : e.id ≡ (if is_stale cutoff x then record x { claimed_at = none } else x).id =
      ap (λ (y : OutboxEvent). y.id) q in
    elim (Bool-cases (is_stale cutoff x)) [
      | inl t ↦ (x, here refl, ground arith)
      | inr n ↦ (x, here refl, ground arith)
    ]
In-release cutoff (x ∷ es) e (there m) = let (f, k, c) = In-release cutoff es e m in (f, there k, c)

-- the event with this id, claimed and not completed
abbrev pub in_work : ℕ → OutboxEvent → Bool
in_work i e = e.id == i && is_active e

In-map : {A B : Type 0} (f : A → B) (x : A) (xs : List A) → In x xs → In (f x) (map f xs)
In-map f x [] m = elim m [ ]
In-map f x (y ∷ xs) (here q) = here (ap f q)
In-map f x (y ∷ xs) (there m) = there (In-map f x xs m)

-- `active_aggregates` has the aggregate of each event in work.
pub active_aggregates-In :
    (e : OutboxEvent) (events : List OutboxEvent)
    → In e events
    → is_active e ≡ true
    → elem e.aggregate_id (active_aggregates events) ≡ true
unfolding active_aggregates
active_aggregates-In e events m h =
    In-elem e.aggregate_id _
      (In-map (λ (y : OutboxEvent). y.aggregate_id) e _ (In-filter is_active e events m h))

-- A write puts the changed row where the row was.
pub update-changed :
    (i : ℕ) (change : OutboxEvent → OutboxEvent) (e : OutboxEvent) (es : List OutboxEvent)
    → In e es
    → has_id i e ≡ true
    → In (change e) (update i change es)
unfolding update
update-changed i change e [] m h = elim m [ ]
update-changed i change e (x ∷ es) (here q) h = here (ground (arith, ap (has_id i) q, ap change q))
update-changed i change e (x ∷ es) (there m) h = there (update-changed i change e es m h)
