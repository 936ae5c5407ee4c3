-- ===== src/Permissions/Cache.antt =====
-- `_PermissionCache` of backend/permissions.py. Each method holds the lock from its beginning to
-- its end, so the methods are the steps. Readings of the monotonic clock are microseconds.
pub mod Laws
use pi_development_agent.Base.{
  ℕ, ◌+◌, Text, Bool, true, false, not, ◌&&◌, ◌||◌, List, [], ◌∷◌, Option, none, some, Dict, lookup,
  insert, delete, filter, Eq, ltb, if◌then◌else◌, ◌==◌, nat_Eq, list_Eq, list_same_iff, nat_eq_iff,
  ◌≡◌, ◌↔◌, arith,
}
use pi_development_agent.Permissions.Grants.{PermissionDecision}

pub data ApprovalState : Type 0 where
  undecided approved rejected : ApprovalState

abbrev pub approval_eq : ApprovalState → ApprovalState → Bool
approval_eq undecided undecided = true
approval_eq approved approved = true
approval_eq rejected rejected = true
approval_eq _ _ = false

pub record Key : Type 0 where
  pub project_id : ℕ
  pub user_id : ℕ
  pub resource : Text
  pub approval_state : ApprovalState

abbrev pub key_same : Key → Key → Bool
key_same j k =
    j.project_id == k.project_id
    && j.user_id == k.user_id
    && j.resource == k.resource
    && approval_eq j.approval_state k.approval_state

pub key_same_iff : (j k : Key) → (key_same j k ≡ true) ↔ (j ≡ k)
key_same_iff j k = ground (arith, list_same_iff j.resource k.resource)

instance abbrev pub key_Eq : Eq Key
key_Eq = record { same = key_same; same_iff = key_same_iff }

-- a decision and the time at which it lapses
abbrev pub Cache : Type 0
Cache = Dict Key (PermissionDecision × ℕ)

-- 60 seconds
abbrev pub ttl : ℕ
ttl = 60_000_000

unfoldable pub get : ℕ → Key → Cache → Option PermissionDecision × Cache
get time key store = elim (lookup key store) [
  | none ↦ (none, store)
  | some (decision, expires_at) ↦
      if ltb expires_at time
      then (none, delete key store)
      else (some (record decision { cached = true }), store)
]

unfoldable pub set : ℕ → Key → PermissionDecision → Cache → Cache
set time key decision store = insert key (decision, time + ttl) store

abbrev absent_or : Option ℕ → ℕ → Bool
absent_or none n = true
absent_or (some m) n = n == m

-- the entries that `invalidate` deletes
unfoldable pub in_reach : Option ℕ → Option ℕ → Key → Bool
in_reach project_id user_id k = absent_or project_id k.project_id && absent_or user_id k.user_id

unfoldable pub invalidate : Option ℕ → Option ℕ → Cache → Cache
unfolding in_reach
invalidate project_id user_id [] = []
invalidate project_id user_id ((k, v) ∷ store) =
    let rest = invalidate project_id user_id store in
    if in_reach project_id user_id k then rest else (k, v) ∷ rest

unfoldable pub clear : Cache → Cache
clear store = []
