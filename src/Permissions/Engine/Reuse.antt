-- ===== src/Permissions/Engine/Reuse.antt =====
-- How long an answer of `check` is reused, and what ends that.
use pi_development_agent.Base.{
  ℕ, ◌+◌, ◌≤◌, true, false, List, Option, none, string_Eq, elem, arith, ◌≡◌,
}
use pi_development_agent.Permissions.Grants.{Grant}
use pi_development_agent.Permissions.Cache
use pi_development_agent.Permissions.Cache.{Cache, ttl, in_reach}
use pi_development_agent.Permissions.Cache.Laws.{get-set, get-invalidate}
use pi_development_agent.Permissions.Engine.{
  Call, Clock, always_allowed, key_of, decide, check, store_decision,
}

check_miss :
    (clock : Clock) (db : List Grant) (call : Call) (store : Cache)
    → elem call.tool_name always_allowed ≡ false
    → (Cache.get clock.lookup_time (key_of call) store).0 ≡ none
    → check clock db call store ≡ (
      decide clock.now db call,
      store_decision clock.store_time
          (key_of call)
          (decide clock.now db call)
          (Cache.get clock.lookup_time (key_of call) store).1,
    )
unfolding check
check_miss clock db call store unsafe miss = ground arith

-- A decision that does not wait for approval answers every call of the same project, user, resource
-- and approval state for the next 60 seconds: whatever has become of the grants, whichever tool
-- asks and whatever the instance can do.
pub check_again :
    (clock later : Clock) (db db' : List Grant) (call again : Call) (store : Cache)
    → elem call.tool_name always_allowed ≡ false
    → elem again.tool_name always_allowed ≡ false
    → key_of again ≡ key_of call
    → (Cache.get clock.lookup_time (key_of call) store).0 ≡ none
    → (decide clock.now db call).requires_approval ≡ false
    → later.lookup_time ≤ clock.store_time + ttl
    → (check later db' again (check clock db call store).1).0
      ≡ record (decide clock.now db call) { cached = true }
unfolding check store_decision
check_again clock later db db' call again store unsafe unsafe' same miss final soon = ground (
  arith,
  check_miss clock db call store unsafe miss,
  get-set clock.store_time later.lookup_time (key_of call) (decide clock.now db call)
      (Cache.get clock.lookup_time (key_of call) store).1 soon,
)

-- After `invalidate` with a scope that covers the call, the answer is that of the grants as they
-- are.
pub check_after_invalidate :
    (clock : Clock) (db : List Grant) (call : Call) (p u : Option ℕ) (store : Cache)
    → elem call.tool_name always_allowed ≡ false
    → in_reach p u (key_of call) ≡ true
    → (check clock db call (Cache.invalidate p u store)).0 ≡ decide clock.now db call
check_after_invalidate clock db call p u store unsafe covered = ground (
  arith,
  check_miss clock db call (Cache.invalidate p u store) unsafe
      (get-invalidate clock.lookup_time p u (key_of call) store covered),
)
