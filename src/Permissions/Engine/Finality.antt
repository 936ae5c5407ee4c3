-- ===== src/Permissions/Engine/Finality.antt =====
-- What waits for approval is never allowed and never cached.
use pi_development_agent.Base.{
  ℕ, Text, true, false, List, [], Option, some, lookup, arith, ◌≡◌, inl, inr,
}
use pi_development_agent.Permissions.Resource.{resource_for}
use pi_development_agent.Permissions.Grants.{Grant, PermissionDecision, evaluate_grants}
use pi_development_agent.Permissions.Cache
use pi_development_agent.Permissions.Cache.{
  Key, key_same_iff, key_Eq, Cache, ApprovalState, undecided, approved, rejected,
}
use pi_development_agent.Permissions.Cache.Laws.{lookup-invalidate}
use pi_development_agent.Permissions.Engine.Cases.{lookup-check, check_cases}
use pi_development_agent.Permissions.Engine.{
  Call, Clock, workspace_layer, command_layer, erp_layer, last_layers, check_grants, approval_layer,
  key_of, decide, check,
}

-- A decision that waits is not an allowance.
abbrev pub WaitsRefused : PermissionDecision → Type 0
WaitsRefused d = d.requires_approval ≡ true → d.allowed ≡ false

evaluate_grants-WaitsRefused :
    (gs : List Grant) (r : Text) (d : PermissionDecision)
    → evaluate_grants gs r ≡ some d
    → WaitsRefused d
unfolding evaluate_grants
evaluate_grants-WaitsRefused gs r d h w = ground arith

layers-WaitsRefused :
    (now p u : ℕ) (db : List Grant) (call : Call) (r : Text)
    → WaitsRefused (check_grants now db p u call.tool_name r call.erp_capabilities)
unfolding check_grants workspace_layer command_layer erp_layer last_layers evaluate_grants
layers-WaitsRefused now p u db call r w = ground arith

decide-WaitsRefused : (now : ℕ) (db : List Grant) (call : Call) → WaitsRefused (decide now db call)
unfolding decide approval_layer
decide-WaitsRefused now db call w = ground (
  arith,
  layers-WaitsRefused now call.project_id call.user_id db call
      (resource_for call.tool_name call.args),
)

-- No cached decision waits for approval.
pub record IsFinal (store : Cache) : Type 0 where
  pub settled :
      (k : Key) (d : PermissionDecision) (t : ℕ)
      → lookup k store ≡ some (d, t)
      → d.requires_approval ≡ false

pub IsFinal-empty : IsFinal []
IsFinal-empty = record { settled = λ k d t h. absurd (unfold lookup in ground arith) }

pub invalidate-IsFinal :
    (p u : Option ℕ) (store : Cache) → IsFinal store → IsFinal (Cache.invalidate p u store)
invalidate-IsFinal p u store f = record {
  settled = λ k d t h. f.settled k d t (ground (arith, lookup-invalidate p u k store));
}

-- Every call of `check` keeps the cache free of decisions that wait.
pub check-IsFinal :
    (clock : Clock) (db : List Grant) (call : Call) (store : Cache)
    → IsFinal store
    → IsFinal (check clock db call store).1
check-IsFinal clock db call store f = record {
  settled = λ k d t h. elim (lookup-check clock db call store k (d, t) h) [
    | inl (_, same, final) ↦ ground arith
    | inr old ↦ f.settled k d t old
  ];
}

-- From such a cache no answer of `check`, cached or not, is both an allowance and a request for
-- approval.
pub check-WaitsRefused :
    (clock : Clock) (db : List Grant) (call : Call) (store : Cache)
    → IsFinal store
    → WaitsRefused (check clock db call store).0
check-WaitsRefused clock db call store f w = elim (check_cases clock db call store) [
  | inl (_, final) ↦ ground arith
  | inr (inl ((d, t), found, same)) ↦ ground (arith, f.settled (key_of call) d t found)
  | inr (inr same) ↦ ground (arith, decide-WaitsRefused clock.now db call)
]
