-- ===== src/Permissions/Resource.antt =====
-- `resource_for` and `resource_matches` of backend/permissions.py. A tool's arguments are a dict;
-- an argument is read only through its truth value and its `str()`.
pub mod Patterns
mod Examples
use pi_development_agent.Base.{
  ℕ, Text, codes, Bool, true, false, ◌&&◌, ◌||◌, List, [], ◌∷◌, ◌++◌, Option, none, some, String,
  Dict, lookup, elem, strip, lstrip, starts_with, if◌then◌else◌, ◌==◌, nat_Eq, string_Eq,
}
use pi_development_agent.Glob.{fnmatchcase}

pub record Argument : Type 0 where
  pub truthy : Bool
  pub shown : Text

abbrev pub Arguments : Type 0
Arguments = Dict String Argument

-- `str(value or "")`
or_empty : Option Argument → Text
or_empty none = []
or_empty (some a) = if a.truthy then a.shown else []

-- f"{arguments.get(key, '')}"
shown_of : Option Argument → Text
shown_of none = []
shown_of (some a) = a.shown

abbrev pub path_tools : List String
path_tools = "write_file" ∷ "patch_file" ∷ "create_directory" ∷ []

abbrev pub workspace_prefix : Text
workspace_prefix = codes "workspace:"

abbrev pub command_prefix : Text
command_prefix = codes "command:"

-- the resource string `erp:<tool_name>`
abbrev pub erp_resource : String → Text
erp_resource tool_name = codes "erp:" ++ codes tool_name

dot_slash : ℕ → Bool
dot_slash c = c == b'.' || c == b'/'

is_empty : Text → Bool
is_empty [] = true
is_empty (c ∷ cs) = false

unfoldable pub resource_for : String → Arguments → Text
unfolding or_empty shown_of dot_slash is_empty lookup elem
resource_for tool_name arguments =
    let path = strip (or_empty (lookup "path" arguments)) in
    if (if is_empty path then false else elem tool_name path_tools)
    then workspace_prefix ++ lstrip dot_slash path
    else if tool_name == "run_project_check"
    then command_prefix ++ shown_of (lookup "check" arguments)
    else if tool_name == "terminal_command"
    then command_prefix ++ shown_of (lookup "command" arguments)
    else erp_resource tool_name

unfoldable pub resource_matches : Text → Text → Bool
unfolding fnmatchcase
resource_matches pattern resource = fnmatchcase resource pattern
