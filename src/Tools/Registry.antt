-- ===== src/Tools/Registry.antt =====
-- `TOOL_REGISTRY` and its readers, of backend/tool_registry.py. An unregistered tool is an error
-- value, with the message's case.
use pi_development_agent.Base.{
  ◌&&◌, String, string_Eq, elem, List, [], ◌∷◌, ◌++◌, none, some, Dict, lookup, insert, filter, map,
  if◌then◌else◌, ◌==◌, nat_Eq,
}
use pi_development_agent.Tools.Entry.{ToolRegistryEntry}
use pi_development_agent.Tools.Inspection.{odoo_inspection}
use pi_development_agent.Tools.Design.{odoo_design}
use pi_development_agent.Tools.Files.{workspace_tools}
use pi_development_agent.Tools.Checks.{odoo_validation}
use pi_development_agent.Tools.Writes.{odoo_writes}
use pi_development_agent.Tools.Memory.{deployment_and_memory}
use pi_development_agent.Tools.Hosting.{pri_erp_tools}

abbrev pub Registry : Type 0
Registry = Dict String ToolRegistryEntry

-- `_reg`: a name that is registered twice keeps its place and takes the later entry.
unfoldable pub reg : Registry → ToolRegistryEntry → Registry
unfolding insert
reg registry entry = insert entry.name entry registry

unfoldable pub reg_all : Registry → List ToolRegistryEntry → Registry
reg_all registry [] = registry
reg_all registry (entry ∷ entries) = reg_all (reg registry entry) entries

-- the registrations in the order of the file
abbrev pub registrations : List ToolRegistryEntry
registrations =
    odoo_inspection
    ++ (odoo_design
        ++ (workspace_tools
            ++ (odoo_validation ++ (odoo_writes ++ (deployment_and_memory ++ pri_erp_tools)))))

unfoldable pub tool_registry : Registry
unfolding reg_all reg
tool_registry = reg_all [] registrations

pub data UnregisteredToolError : Type 0 where
  unknown incompatible : String → UnregisteredToolError

pub data Validation : Type 0 where
  ok : ToolRegistryEntry → Validation
  err : UnregisteredToolError → Validation

unfoldable pub validate_tool_call : Registry → String → String → Validation
validate_tool_call registry tool_name erp_type = elim (lookup tool_name registry) [
  | none ↦ err (unknown tool_name)
  | some entry ↦ if elem erp_type entry.erp_compat then ok entry else err (incompatible tool_name)
]

unfoldable pub values : Registry → List ToolRegistryEntry
values [] = []
values ((k, e) ∷ r) = e ∷ values r

unfoldable pub get_tools_for_erp : Registry → String → List ToolRegistryEntry
unfolding values
get_tools_for_erp registry erp_type = filter (λ e. elem erp_type e.erp_compat) (values registry)

unfoldable pub safe_tools_for_erp : Registry → String → List String
unfolding values
safe_tools_for_erp registry erp_type =
    map (λ e. e.name)
      (filter (λ e. elem erp_type e.erp_compat && e.risk_class == 1) (values registry))
