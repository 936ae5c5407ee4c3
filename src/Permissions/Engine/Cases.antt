-- ===== src/Permissions/Engine/Cases.antt =====
-- Where an answer of `check` comes from, and what one call of it puts into the cache.
use pi_development_agent.Base.{
  ℕ, true, false, List, some, lookup, elem, string_Eq, arith, ◌≡◌, ◌⊎◌, inl, inr, Option-cases,
  Bool-cases,
}
use pi_development_agent.Permissions.Grants.{Grant, PermissionDecision}
use pi_development_agent.Permissions.Cache
use pi_development_agent.Permissions.Cache.{Key, key_Eq, Cache, ttl}
use pi_development_agent.Permissions.Cache.Laws.{lookup-get, get-some, lookup-set}
use pi_development_agent.Permissions.Engine.{
  Call, Clock, always_allowed, key_of, decide, check, store_decision,
}

lookup-store_decision :
    (time : ℕ) (k j : Key) (d : PermissionDecision) (store : Cache) (e : PermissionDecision × ℕ)
    → lookup j (store_decision time k d store) ≡ some e
    → ((j ≡ k) × (e.0 ≡ d) × (d.requires_approval ≡ false)) ⊎ (lookup j store ≡ some e)
unfolding store_decision
lookup-store_decision time k j d store e h = elim (Bool-cases d.requires_approval) [
  | inl waits ↦ inr (ground arith)
  | inr final ↦ ground (arith, lookup-set time k j d store e)
]

module _ (clock : Clock) (db : List Grant) (call : Call) (store : Cache) where
  -- An entry after a call of `check` was there before, or it is the decision of this call.
  pub lookup-check :
      (j : Key) (e : PermissionDecision × ℕ)
      → lookup j (check clock db call store).1 ≡ some e
      → ((j ≡ key_of call)
          × (e.0 ≡ decide clock.now db call)
          × ((decide clock.now db call).requires_approval ≡ false))
        ⊎ (lookup j store ≡ some e)
  unfolding check
  lookup-check j e h =
      let k = key_of call in
      let d = decide clock.now db call in
      let store' = (Cache.get clock.lookup_time k store).1 in
      ground (
        arith,
        lookup-get clock.lookup_time k j store e,
        lookup-store_decision clock.store_time k j d store' e,
      )

  -- An answer is that for a safe tool, one from the cache, or a decision of the layers.
  pub check_cases :
      ((elem call.tool_name always_allowed ≡ true)
        × ((check clock db call store).0.requires_approval ≡ false))
      ⊎ (((e : PermissionDecision × ℕ) × (lookup (key_of call) store ≡ some e)
            × ((check clock db call store).0 ≡ record (e.0) { cached = true }))
          ⊎ ((check clock db call store).0 ≡ decide clock.now db call))
  unfolding check
  check_cases = elim (Bool-cases (elem call.tool_name always_allowed)) [
    | inl safe ↦ inl (safe, ground arith)
    | inr unsafe ↦ elim (Option-cases (Cache.get clock.lookup_time (key_of call) store).0) [
      | inl miss ↦ inr (inr (ground arith))
      | inr (d, hit) ↦
          let (e, found, same) = get-some clock.lookup_time (key_of call) store d hit in
          inr (inl (e, found, ground arith))
    ]
  ]
