-- ===== src/Tools/Entry.antt =====
-- `ToolRegistryEntry` of backend/tool_registry.py. The two schema fields keep their default in every
-- registration, an empty dict, and are left out.
use pi_development_agent.Base.{ℕ, Bool, String, List, [], ◌∷◌}

pub record ToolRegistryEntry : Type 0 where
  pub name : String
  pub description : String
  pub erp_compat : List String
  pub risk_class : ℕ
  pub is_write : Bool
  pub requires_approval : Bool
  pub supports_rollback : Bool
  pub is_idempotent : Bool
  pub evidence_kinds : List String
  pub required_permissions : List String

-- `_ODOO`, `_PRIERP` and `_ALL`
abbrev pub odoo : List String
odoo = "odoo" ∷ []

abbrev pub pri_erp : List String
pri_erp = "pri_erp" ∷ []

abbrev pub all_engines : List String
all_engines = "odoo" ∷ "pri_erp" ∷ []
