-- ===== src/Receipts/Envelope.antt =====
-- `ToolResult` of backend/agent.py. `J` is the type of JSON values that the program does not look into.
use pi_development_agent.Base.{Text, Bool, true, false, List, [], Option, none, some, ◌≡◌, refl}

-- the dict under `error`, by the keys that are read
pub record ToolError : Type 0 where
  pub code : Option Text
  pub message : Option Text
  pub retryable : Option Bool
  pub support_id : Option Text

pub record ToolResult (J : Type 0) : Type 0 where
  pub ok : Bool
  pub error : Option ToolError
  pub payload : Option J
  pub evidence : List J
  pub metrics : List J

-- what `json.loads` makes of a text: an error, a value that is no dict, or a dict with the keys of
-- the envelope
pub data Loaded (J : Type 0) : Type 0 where
  malformed : Loaded J
  other_value : Loaded J
  fields : Option Bool → Option ToolError → Option J → Option (List J) → Option (List J) → Loaded J

abbrev list_or_empty {ℓ} : {A : Type ℓ} → Option (List A) → List A
list_or_empty none = []
list_or_empty (some xs) = xs

module _ {J : Type 0} (no_data : J) where
  -- `data or {}`
  abbrev or_no_data : Option J → Option J
  or_no_data none = some no_data
  or_no_data (some d) = some d

  unfoldable pub success : Option J → Option (List J) → List J → ToolResult J
  success d evidence metrics = record {
    ok = true;
    error = none;
    payload = or_no_data d;
    evidence = list_or_empty evidence;
    metrics = metrics;
  }

  unfoldable pub failure : Text → Text → Bool → Option Text → Option J → ToolResult J
  failure code message retryable support_id d = record {
    ok = false;
    error = some (record {
      code = some code;
      message = some message;
      retryable = some retryable;
      support_id = support_id;
    });
    payload = or_no_data d;
    evidence = [];
    metrics = [];
  }

  unfoldable pub from_loaded : Loaded J → Option (ToolResult J)
  from_loaded malformed = none
  from_loaded other_value = none
  from_loaded (fields none error d evidence metrics) = none
  from_loaded (fields (some ok) error d evidence metrics) = some (record {
    ok = ok;
    error = error;
    payload = or_no_data d;
    evidence = list_or_empty evidence;
    metrics = list_or_empty metrics;
  })

  module _ (loads : Text → Loaded J) (dumps : Loaded J → Text) where
    -- `asdict`
    abbrev pub as_dict : ToolResult J → Loaded J
    as_dict r = fields (some r.ok) r.error r.payload (some r.evidence) (some r.metrics)

    unfoldable pub to_json : ToolResult J → Text
    to_json r = dumps (as_dict r)

    unfoldable pub from_json : Text → Option (ToolResult J)
    from_json raw = from_loaded (loads raw)

    -- Where the JSON library reads back what it has written of `r`: an envelope that is read back
    -- is the one that was written, but for an empty dict in the place of data that are missing.
    pub from_json-to_json :
        (r : ToolResult J)
        → loads (dumps (as_dict r)) ≡ as_dict r
        → from_json (to_json r) ≡ some (record r { payload = or_no_data r.payload })
    unfolding from_json to_json from_loaded
    from_json-to_json r h = rw h refl
