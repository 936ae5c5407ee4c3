-- ===== src/Runner/Command.antt =====
-- `run_odoo_module_command` of bridge_runner/runner.py. The database is whatever the command works on;
-- what the process does to it, with its exit code or a timeout, is an argument.
use pi_development_agent.Base.{
  ℕ, leb, Text, length, nat_Eq, ◌==◌, string_Eq, option_Eq, String, Bool, true, false, not, ◌&&◌,
  ◌||◌, List, [], ◌∷◌, Option, none, some, all, any, if◌then◌else◌,
}

abbrev is_lower : ℕ → Bool
is_lower c = leb b'a' c && leb c b'z'

abbrev is_name_char : ℕ → Bool
is_name_char c = is_lower c || (leb b'0' c && leb c b'9') || c == b'_'

-- `MODULE_NAME_RE.fullmatch(name)`
unfoldable pub is_module_name : Text → Bool
is_module_name [] = false
is_module_name (c ∷ name) = is_lower c && all is_name_char name && leb (length name) 127

abbrev is_empty_item : Text → Bool
is_empty_item [] = true
is_empty_item (c ∷ text) = false

-- `not command or any(not item for item in command)`, negated
unfoldable pub is_valid_command : List Text → Bool
is_valid_command [] = false
is_valid_command (item ∷ command) = not (any is_empty_item (item ∷ command))

-- `-i` or `-u`; any other operation is refused
unfoldable pub flag_of : Option String → Option String
flag_of none = none
flag_of (some operation) =
    if operation == "install" then some "-i" else if operation == "upgrade" then some "-u" else none

-- the exit code, or none where the process times out
abbrev pub Execute : Type 0 → Type 0
Execute D = List Text → String → Text → D → D × Option ℕ

abbrev pub exits_well : Option ℕ → Bool
exits_well none = false
exits_well (some code) = code == 0

-- The database behind the call, and whether the call returned without raising.
unfoldable pub run_odoo_module_command :
    {D : Type 0} → Execute D → List Text → Option String → Text → D → D × Bool
run_odoo_module_command execute command operation module_name database =
    if not (is_valid_command command) then (database, false) else elim (flag_of operation) [
      | none ↦ (database, false)
      | some flag ↦
          if not (is_module_name module_name)
          then (database, false)
          else (let out = execute command flag module_name database in (out.0, exits_well out.1))
    ]
