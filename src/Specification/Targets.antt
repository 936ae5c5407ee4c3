-- ===== src/Specification/Targets.antt =====
-- The keyword extractors of backend/specification.py, which find the models and the fields that a prompt
-- names among the symbols of a source snapshot. Python's `str.lower` is an argument.
use pi_development_agent.Base.{
  ℕ, Text, codes, String, string_Eq, nat_Eq, list_Eq, option_Eq, ◌==◌, elem, contains, Bool, true,
  false, not, ◌&&◌, ◌||◌, List, [], ◌∷◌, ◌++◌, map, any, take, Option, some, none, if◌then◌else◌,
}

-- `SourceSymbol`; `label` is what `payload` holds under `string`, empty when it holds nothing there
pub record SourceSymbol : Type 0 where
  pub kind : String
  pub name : Text
  pub model : Option Text
  pub label : Text

abbrev pub is_empty : Text → Bool
is_empty [] = true
is_empty (c ∷ cs) = false

-- `text.replace(old, new)` for single characters
abbrev pub replace : ℕ → ℕ → Text → Text
replace old new = map (λ c. if c == old then new else c)

-- `text.split(separator)[-1]`, with the part that is open
abbrev last_part : ℕ → Text → Text → Text
last_part separator open_part [] = open_part
last_part separator open_part (c ∷ cs) =
    last_part separator (if c == separator then cs else open_part) cs

-- `if x not in seen: found.append(x); seen.add(x)`
unfoldable pub note : Text → List Text → List Text
note name found = if elem name found then found else found ++ (name ∷ [])

-- `symbol.payload.get("string", "") or symbol.name`
abbrev field_label : SourceSymbol → Text
field_label symbol = if is_empty symbol.label then symbol.name else symbol.label

abbrev owner_among : Option Text → List Text → Bool
owner_among (some model) models = elem model models
owner_among none models = false

abbrev owner : Option Text → Text
owner (some model) = model
owner none = codes "None"

-- `f"{sym.model}.{sym.name}"`
unfoldable pub field_key : SourceSymbol → Text
field_key symbol = owner symbol.model ++ (codes "." ++ symbol.name)

abbrev feature_keywords : List (String × List String)
feature_keywords =
    ("approval", "workflow" ∷ "approve" ∷ "approval" ∷ "state" ∷ "stage" ∷ [])
    ∷ ("notification", "notify" ∷ "notification" ∷ "mail" ∷ "email" ∷ "chatter" ∷ [])
    ∷ ("report", "report" ∷ "pdf" ∷ "print" ∷ "qweb" ∷ [])
    ∷ ("access", "access" ∷ "permission" ∷ "group" ∷ "security" ∷ "rule" ∷ [])
    ∷ ("view", "form" ∷ "list" ∷ "view" ∷ "tree" ∷ "kanban" ∷ "dashboard" ∷ [])
    ∷ ("cron", "scheduled" ∷ "cron" ∷ "automatic" ∷ "daily" ∷ "nightly" ∷ [])
    ∷ ("integration", "sync" ∷ "integrate" ∷ "api" ∷ "webhook" ∷ [])
    ∷ []

abbrev areas_of : Text → List (String × List String) → List String
areas_of prompt_lower [] = []
areas_of prompt_lower ((area, keywords) ∷ rest) =
    let others = areas_of prompt_lower rest in
    if any (λ keyword. contains (codes keyword) prompt_lower) keywords
    then area ∷ others
    else others

module _ (lower : Text → Text) where
  unfoldable pub names_model : Text → SourceSymbol → Bool
  names_model prompt_lower symbol =
      symbol.kind == "model"
      && not (is_empty symbol.name)
      && (contains (replace b'_' b' ' (replace b'.' b' ' (lower symbol.name))) prompt_lower
          || contains (replace b'_' b' ' (last_part b'.' symbol.name symbol.name)) prompt_lower)

  unfoldable pub model_loop : Text → List SourceSymbol → List Text → List Text
  unfolding names_model note
  model_loop prompt_lower [] found = found
  model_loop prompt_lower (symbol ∷ symbols) found =
      model_loop prompt_lower symbols
        (if names_model prompt_lower symbol then note symbol.name found else found)

  unfoldable pub extract_model_targets : Text → List SourceSymbol → List Text
  unfolding model_loop
  extract_model_targets prompt symbols = take 10 (model_loop (lower prompt) symbols [])

  unfoldable pub names_field : Text → List Text → SourceSymbol → Bool
  names_field prompt_lower models symbol =
      symbol.kind == "field"
      && owner_among symbol.model models
      && (contains symbol.name prompt_lower || contains (lower (field_label symbol)) prompt_lower)

  unfoldable pub field_loop : Text → List Text → List SourceSymbol → List Text → List Text
  unfolding names_field note field_key
  field_loop prompt_lower models [] found = found
  field_loop prompt_lower models (symbol ∷ symbols) found =
      field_loop prompt_lower models symbols
        (if names_field prompt_lower models symbol then note (field_key symbol) found else found)

  unfoldable pub extract_field_targets : Text → List Text → List SourceSymbol → List Text
  unfolding field_loop
  extract_field_targets prompt models symbols =
      take 20 (field_loop (lower prompt) models symbols [])

  unfoldable pub classify_feature_areas : Text → List String
  classify_feature_areas prompt = areas_of (lower prompt) feature_keywords
