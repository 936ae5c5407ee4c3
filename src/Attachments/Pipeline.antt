-- ===== src/Attachments/Pipeline.antt =====
-- `process_attachment` of backend/attachment.py and `upload_attachment` of backend/main.py.
use pi_development_agent.Base.{
  ℕ, Text, codes, String, string_Eq, nat_Eq, list_Eq, ◌==◌, ltb, Bool, true, not, List, [], ◌∷◌,
  ◌++◌, take, map, length, Option, none, some, Dict, lookup, if◌then◌else◌,
}
use pi_development_agent.Deployment.Model.{Project, User, Response, http_error, ok, require_project}
use pi_development_agent.Attachments.Model.{
  Bytes, Library, Settings, rejected_by_scanner, Result, raise, value, validate_upload,
  store_original, blank, RunAttachment,
}
use pi_development_agent.Attachments.Extraction.{Readers, Extraction, extract_text}

-- the storage and the table
pub record Vault : Type 0 where
  pub files : Dict Text Bytes
  pub attachments : List RunAttachment

-- `scan_file`: the registered scanner is given the path and finds there what is stored
abbrev pub Scanner : Type 0
Scanner = Text → Option Bytes → String × Option Text

pub record Machinery : Type 0 where
  pub python : Library
  pub settings : Settings
  pub scanner : Scanner
  pub readers : Readers

pub record Upload : Type 0 where
  pub id : String
  pub run_id : String
  pub project_id : ℕ
  pub uploader_id : ℕ
  pub filename : Text
  pub content_type : Text
  pub content : Bytes

-- the row of step 3, with what the scanner answered
unfoldable pub scanned_row : ℕ → Upload → Text → Text × Text → String → RunAttachment
scanned_row now upload mime (digest, path) answer = record {
  id = upload.id;
  run_id = upload.run_id;
  project_id = upload.project_id;
  uploader_id = upload.uploader_id;
  original_filename = upload.filename;
  mime_type = mime;
  size_bytes = length upload.content;
  content_hash = digest;
  storage_path = path;
  storage_backend = "local";
  processing_state = "scanning";
  scan_result = some answer;
  extracted_text = none;
  extraction_error = none;
  page_count = none;
  evidence_refs = [];
  created_at = now;
  processed_at = none;
}

abbrev detail_text : Option Text → Text
detail_text none = codes "None"
detail_text (some text) = text

unfoldable pub quarantined : Option Text → RunAttachment → RunAttachment
quarantined detail row = record row {
  processing_state = "failed";
  extraction_error = some (codes "Malicious content detected: " ++ detail_text detail);
}

-- `if not error`
abbrev pub no_error : Option Text → Bool
no_error none = true
no_error (some text) = blank text

unfoldable pub max_extracted : ℕ
max_extracted = 500_000

unfoldable pub extracted : ℕ → Extraction → RunAttachment → RunAttachment
extracted now e row = record row {
  extracted_text = some (take max_extracted e.text);
  page_count = e.page_count;
  extraction_error = e.error;
  processing_state = if no_error e.error then "indexed" else "failed";
  processed_at = some now;
}

abbrev add : RunAttachment → Dict Text Bytes → Vault → Vault
add row files vault = record vault { files = files; attachments = vault.attachments ++ (row ∷ []) }

module _ (o : Machinery) where
  -- behind the storage
  unfoldable pub settle_upload :
      ℕ → Upload → Text → Text × Text × Dict Text Bytes → Vault → Result RunAttachment × Vault
  settle_upload now upload mime (digest, path, files) vault =
      let (answer, detail) = o.scanner path (lookup path files) in
      let row = scanned_row now upload mime (digest, path) answer in
      if answer == "malicious"
      then (raise rejected_by_scanner, add (quarantined detail row) files vault)
      else (let done =
            extracted now
              (extract_text o.python.lower o.readers upload.content mime upload.filename) row in
          (value done, add done files vault))

  unfoldable pub process_validated : ℕ → Upload → Vault → Result Text → Result RunAttachment × Vault
  process_validated now upload vault (raise error) = (raise error, vault)
  process_validated now upload vault (value mime) =
      settle_upload now upload mime (store_original o.python o.settings upload.content vault.files)
        vault

  unfoldable pub process_attachment : ℕ → Upload → Vault → Result RunAttachment × Vault
  process_attachment now upload vault = process_validated now upload vault (
      validate_upload o.python o.settings upload.filename upload.content_type
        (length upload.content))

  abbrev answer_of : Result RunAttachment → Response RunAttachment
  answer_of (raise error) = http_error 422
  answer_of (value row) = ok row

  -- The run is looked up by the path's identifier; `upload` holds what the request brings.
  unfoldable pub upload_attachment :
      ℕ → User → Option Project → Upload → Vault → Response RunAttachment × Vault
  upload_attachment now user none upload vault = (http_error 404, vault)
  upload_attachment now user (some project) upload vault =
      if not (require_project user project)
      then (http_error 404, vault)
      else if ltb o.settings.max_attachment_bytes (length upload.content)
      then (http_error 413, vault)
      else (let (result, after) =
            process_attachment now
              (record upload {
                project_id = project.id;
                uploader_id = user.id;
                filename = if blank upload.filename then codes "upload" else upload.filename;
              })
              vault in
          (answer_of result, after))

-- one row under `link_evidence`
unfoldable pub linked :
    ℕ → String → String → Option String → Option ℕ → RunAttachment → RunAttachment
linked now attachment_id run_id artifact_id page row =
    if row.id == attachment_id
    then record row {
      evidence_refs =
          row.evidence_refs
          ++ (record { run_id = run_id; artifact_id = artifact_id; page = page; linked_at = now }
              ∷ []);
    }
    else row

unfoldable pub link_evidence : ℕ → String → String → Option String → Option ℕ → Vault → Vault
link_evidence now attachment_id run_id artifact_id page vault = record vault {
  attachments = map (linked now attachment_id run_id artifact_id page) vault.attachments;
}
