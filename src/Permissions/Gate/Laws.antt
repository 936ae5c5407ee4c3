-- ===== src/Permissions/Gate/Laws.antt =====
-- What becomes of a pending call, for each answer of the permission engine.
use pi_development_agent.Base.{true, List, [], ◌∷◌, arith, ◌≡◌, ◌≢◌, ◌↔◌}
use pi_development_agent.States.{RunStatus, ActionStatus}
use pi_development_agent.Permissions.Grants.{Grant}
use pi_development_agent.Permissions.Cache.{Cache}
use pi_development_agent.Permissions.Engine.{Call, Clock, check}
use pi_development_agent.Permissions.Engine.Finality.{IsFinal, check-WaitsRefused}
use pi_development_agent.States.{approve, reject}
use pi_development_agent.Permissions.Gate.{permission_denied, settle, gate}

module _ (clock : Clock) (db : List Grant) (call : Call) (status : RunStatus) (store : Cache) where
  -- An answer that asks for approval is settled as a refusal: the action is rejected, the run goes
  -- back to the queue, and the agent is resumed with a rejection.
  pub gate_waiting :
      IsFinal store
      → (check clock db call store).0.requires_approval ≡ true
      → (gate clock db call status store).0 ≡ record {
        action_status = ActionStatus.rejected;
        run_status = RunStatus.queued;
        resume = reject ∷ [];
        emitted = permission_denied (check clock db call store).0.reason ∷ [];
      }
  unfolding gate settle
  gate_waiting f w = ground (arith, check-WaitsRefused clock db call store f)

  -- The gate never leaves a run waiting for approval: from a cache without pending decisions, and
  -- a run that does not wait already, no call does.
  pub gate_never_waits :
      IsFinal store
      → status ≢ RunStatus.awaiting_approval
      → ((gate clock db call status store).0.run_status ≢ RunStatus.awaiting_approval)
        × ((gate clock db call status store).0.resume ≢ [])
  unfolding gate settle
  gate_never_waits f n = ground (arith, check-WaitsRefused clock db call store f)

  -- A call is resumed with an approval exactly when the engine allows it.
  pub gate_allows :
      IsFinal store
      → ((gate clock db call status store).0.resume ≡ approve ∷ [])
        ↔ ((check clock db call store).0.allowed ≡ true)
  unfolding gate settle
  gate_allows f = ground (arith, check-WaitsRefused clock db call store f)
