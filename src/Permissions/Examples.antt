-- ===== src/Permissions/Examples.antt =====
-- Runs of the permission engine, and its theorems at them.
use pi_development_agent.Base.{
  ℕ, ◌+◌, ◌≤◌, Text, codes, Bool, true, false, List, [], ◌∷◌, Option, none, some, String, string_Eq,
  elem, here, strip, lookup, arith, ◌≡◌, ◌≢◌, ◌↔◌, refl,
}
use text.Mathlib.TextEquality.{eq_iff}
use pi_development_agent.States.{RunStatus}
use pi_development_agent.Permissions.Resource.{Arguments, resource_for, resource_matches}
use pi_development_agent.Permissions.Grants.{
  Grant, Verdict, PermissionDecision, in_scope, in_force, evaluate_grants, active_grants, matching,
  decision_of, sort, insert_by, key, key_le,
}
use pi_development_agent.Permissions.Grants.Order.{IsTop, evaluate_grants-IsTop}
use pi_development_agent.Permissions.Cache
use pi_development_agent.Permissions.Cache.{Cache, in_reach, undecided}
use pi_development_agent.Permissions.Engine.{
  Call, Clock, always_allowed, always_require_approval, key_of, decide, check, check_grants,
  approval_layer, workspace_layer, command_layer, erp_layer, last_layers,
}
use pi_development_agent.Permissions.Engine.Precedence.{Applies, check-deny}
use pi_development_agent.Permissions.Engine.Finality.{IsFinal-empty}
use pi_development_agent.Permissions.Engine.Approval.{IsGuarded-empty, check-needs_approval}
use pi_development_agent.Permissions.Gate.{gate}
use pi_development_agent.Permissions.Gate.Laws.{gate_never_waits}

abbrev text_argument : String → Text → Arguments
text_argument k v = (k, record { truthy = true; shown = v }) ∷ []

-- a user's allow for a module, and a deny for every path of the project
abbrev allow_module : Grant
allow_module = record {
  id = "g1";
  project_id = some 1;
  user_id = some 7;
  resource = codes "workspace:my_module/*";
  decision = Verdict.allow;
  expires_at = none;
}

abbrev deny_all : Grant
deny_all = record {
  id = "g2";
  project_id = some 1;
  user_id = none;
  resource = codes "workspace:*";
  decision = Verdict.deny;
  expires_at = some 1_000;
}

abbrev write_call : Call
write_call = record {
  project_id = 1;
  user_id = 7;
  tool_name = "write_file";
  args = text_argument "path" (codes " ./my_module/models/sale.py");
  erp_capabilities = none;
  approval_state = undecided;
}

abbrev backup_call : Call
backup_call = record {
  project_id = 1;
  user_id = 7;
  tool_name = "pri_erp_backup";
  args = [];
  erp_capabilities = none;
  approval_state = undecided;
}

abbrev clock : Clock
clock = record { now = 500; lookup_time = 10; store_time = 12 }

-- The leading dot of a name is lost too.
resource_for_dotfile :
    resource_for "write_file" (text_argument "path" (codes ".env")) ≡ codes "workspace:env"
unfolding resource_for strip
resource_for_dotfile = refl

deny-Applies :
    Applies 500 1 7
      (resource_for "write_file" write_call.args)
      (deny_all ∷ allow_module ∷ [])
      deny_all
unfolding in_scope in_force resource_matches resource_for strip
deny-Applies = record { stored = here refl; scoped = refl; unexpired = refl; matched = refl }

check-deny_example :
    let d = (check clock (deny_all ∷ allow_module ∷ []) write_call []).0 in
    (d.allowed ≡ false) × (d.requires_approval ≡ false)
unfolding elem Cache.get lookup
check-deny_example =
    check-deny clock (deny_all ∷ allow_module ∷ []) write_call [] deny_all refl refl deny-Applies
      refl

abbrev allowed_decision : PermissionDecision
allowed_decision = decision_of (codes "workspace:my_module/a.py") allow_module

evaluates :
    evaluate_grants (allow_module ∷ []) (codes "workspace:my_module/a.py") ≡ some allowed_decision
unfolding evaluate_grants sort insert_by key key_le
evaluates = refl

evaluate_grants-IsTop_example :
    (top : Grant) × pi_development_agent.Base.In top (allow_module ∷ [])
    × IsTop top (allow_module ∷ [])
    × (allowed_decision ≡ decision_of (codes "workspace:my_module/a.py") top)
evaluate_grants-IsTop_example =
    evaluate_grants-IsTop (allow_module ∷ []) (codes "workspace:my_module/a.py") allowed_decision
      evaluates

backup_needs : elem "pri_erp_backup" always_require_approval ≡ true
unfolding elem
backup_needs = refl

backup_is_no_terminal : ◌≢◌ {A = String} "pri_erp_backup" "terminal_command"
backup_is_no_terminal = ground (arith, eq_iff "pri_erp_backup" "terminal_command")

check-needs_approval_example : (check clock [] backup_call []).0.allowed ≡ false
check-needs_approval_example =
    check-needs_approval clock [] backup_call [] IsGuarded-empty backup_needs backup_is_no_terminal
      (cc)

backup_waits : (check clock [] backup_call []).0.requires_approval ≡ true
unfolding check elem lookup Cache.get decide check_grants approval_layer workspace_layer
    command_layer erp_layer last_layers resource_for active_grants matching evaluate_grants sort
    key_of strip
backup_waits = refl

gate_never_waits_example :
    ((gate clock [] backup_call RunStatus.running []).0.run_status ≢ RunStatus.awaiting_approval)
    × ((gate clock [] backup_call RunStatus.running []).0.resume ≢ [])
gate_never_waits_example =
    gate_never_waits clock [] backup_call RunStatus.running [] IsFinal-empty (cc)

abbrev partner_call : Call
partner_call = record backup_call { tool_name = "create_partner" }

abbrev deny_partner : Grant
deny_partner = record deny_all { resource = codes "erp:create_partner" }

partner_is_not_safe : elem "create_partner" always_allowed ≡ false
unfolding elem
partner_is_not_safe = refl

partner_missed : (Cache.get 10 (key_of partner_call) []).0 ≡ none
unfolding Cache.get lookup
partner_missed = refl

partner_is_final : (decide 500 [] partner_call).requires_approval ≡ false
unfolding elem lookup decide check_grants approval_layer workspace_layer command_layer erp_layer
    last_layers resource_for active_grants matching evaluate_grants sort strip
partner_is_final = refl

covers_project : in_reach (some 1) none (key_of partner_call) ≡ true
unfolding in_reach key_of
covers_project = refl
