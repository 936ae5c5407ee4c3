-- ===== src/Permissions/Cache/Laws.antt =====
-- The dictionary laws of the decision cache: what a lookup finds after each method.
use pi_development_agent.Base.{
  ℕ, ◌+◌, ◌≤◌, true, [], ◌∷◌, Option, none, some, lookup, lookup-insert, lookup-insert_self,
  lookup-delete, if◌then◌else◌, arith, ◌≡◌, ◌⊎◌, inl, inr, Option-cases,
}
use pi_development_agent.Permissions.Grants.{PermissionDecision}
use pi_development_agent.Permissions.Cache.{
  Key, key_Eq, key_same_iff, Cache, ttl, get, set, in_reach, invalidate,
}

-- A stored decision is found, marked as cached, as long as its 60 seconds last.
pub get-set :
    (stored read : ℕ) (k : Key) (d : PermissionDecision) (store : Cache)
    → read ≤ stored + ttl
    → get read k (set stored k d store) ≡ (some (record d { cached = true }), set stored k d store)
unfolding get set
get-set stored read k d store h = ground (arith, lookup-insert_self k (d, stored + ttl) store)

pub lookup-invalidate :
    (p u : Option ℕ) (k : Key) (store : Cache)
    → lookup k (invalidate p u store) ≡ (if in_reach p u k then none else lookup k store)
unfolding lookup invalidate
lookup-invalidate p u k [] = ground arith
lookup-invalidate p u k ((j, v) ∷ store) =
    ground (arith, lookup-invalidate p u k store, key_same_iff j k)

-- After `invalidate` nothing is found for a call in its reach.
pub get-invalidate :
    (time : ℕ) (p u : Option ℕ) (k : Key) (store : Cache)
    → in_reach p u k ≡ true
    → (get time k (invalidate p u store)).0 ≡ none
unfolding get
get-invalidate time p u k store h = ground (arith, lookup-invalidate p u k store)

-- A lookup adds nothing to the cache.
pub lookup-get :
    (time : ℕ) (k j : Key) (store : Cache) (e : PermissionDecision × ℕ)
    → lookup j (get time k store).1 ≡ some e
    → lookup j store ≡ some e
unfolding get
lookup-get time k j store e h = ground (arith, lookup-delete k j store)

-- What a lookup finds was stored for its key.
pub get-some :
    (time : ℕ) (k : Key) (store : Cache) (d : PermissionDecision)
    → (get time k store).0 ≡ some d
    → (e : PermissionDecision × ℕ) × (lookup k store ≡ some e)
      × (d ≡ record (e.0) { cached = true })
unfolding get
get-some time k store d h = elim (Option-cases (lookup k store)) [
  | inl none' ↦ absurd (ground arith)
  | inr (e, found) ↦ (e, found, ground arith)
]

-- What is in the cache after a store is the new entry or was there before.
pub lookup-set :
    (time : ℕ) (k j : Key) (d : PermissionDecision) (store : Cache) (e : PermissionDecision × ℕ)
    → lookup j (set time k d store) ≡ some e
    → ((j ≡ k) × (e ≡ (d, time + ttl))) ⊎ (lookup j store ≡ some e)
unfolding set
lookup-set time k j d store e h =
    ground (arith, lookup-insert k j (d, time + ttl) store, key_same_iff k j)
