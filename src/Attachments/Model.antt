-- ===== src/Attachments/Model.antt =====
-- The upload check, the content-addressed storage and the rows of backend/attachment.py.
use pi_development_agent.Base.{
  ℕ, Text, codes, String, string_Eq, nat_Eq, list_Eq, ◌==◌, elem, starts_with, strip, ltb, Bool,
  true, false, not, List, [], ◌∷◌, ◌++◌, any, take, map, Option, none, some, Dict, lookup, insert,
  delete, if◌then◌else◌,
}

abbrev pub Bytes : Type 0
Bytes = List ℕ

-- What Python and its libraries give: the digest in hexadecimal, the suffix of a path, `str.lower` and the
-- type that a file name suggests.
pub record Library : Type 0 where
  pub sha256 : Bytes → Text
  pub suffix : Text → Text
  pub lower : Text → Text
  pub guess_type : Text → Option Text

-- `settings`
pub record Settings : Type 0 where
  pub attachment_root : Text
  pub max_attachment_bytes : ℕ

abbrev pub allowed_mime_prefixes : List String
allowed_mime_prefixes =
    "application/pdf" ∷ "text/plain" ∷ "text/csv" ∷ "text/markdown" ∷ "application/json"
    ∷ "application/xml" ∷ "text/xml" ∷ "image/png" ∷ "image/jpeg" ∷ "image/webp" ∷ "image/gif"
    ∷ "application/vnd.openxmlformats-officedocument.wordprocessingml.document"
    ∷ "application/vnd.openxmlformats-officedocument.spreadsheetml.sheet" ∷ "application/msword"
    ∷ "application/vnd.ms-excel" ∷ []

abbrev pub allowed_extensions : List Text
allowed_extensions = map codes (
    ".pdf" ∷ ".txt" ∷ ".csv" ∷ ".md" ∷ ".json" ∷ ".xml" ∷ ".png" ∷ ".jpg" ∷ ".jpeg" ∷ ".webp"
    ∷ ".gif" ∷ ".docx" ∷ ".xlsx" ∷ ".doc" ∷ ".xls" ∷ [])

-- `AttachmentValidationError`, by what it says
pub data UploadError : Type 0 where
  too_large empty_file rejected_by_scanner : UploadError
  bad_extension : Text → UploadError
  bad_content_type : Text → UploadError

pub data Result {ℓ} (A : Type ℓ) : Type ℓ where
  raise : UploadError → Result A
  value : A → Result A

-- `text.split(separator)[0]`
abbrev pub first_part : ℕ → Text → Text
first_part separator [] = []
first_part separator (c ∷ cs) =
    let rest = first_part separator cs in if c == separator then [] else c ∷ rest

abbrev pub blank : Text → Bool
blank [] = true
blank (c ∷ cs) = false

abbrev guessed : Option Text → Text
guessed none = codes "application/octet-stream"
guessed (some mime) = if blank mime then codes "application/octet-stream" else mime

-- A digest has no dot, so `with_suffix` appends. The bytes are written beside the place and renamed.
unfoldable pub write_atomically : Text → Bytes → Dict Text Bytes → Dict Text Bytes
write_atomically dest content files =
    let tmp = dest ++ codes ".tmp" in insert dest content (delete tmp (insert tmp content files))

abbrev pub exists : Option Bytes → Bool
exists none = false
exists (some content) = true

module _ (py : Library) where
  unfoldable pub normal_mime : Text → Text → Text
  normal_mime filename content_type =
      let mime = py.lower (strip (first_part b';' content_type)) in
      if blank mime then guessed (py.guess_type filename) else mime

  unfoldable pub check_mime : Text → Result Text
  check_mime mime =
      if any (λ prefix. starts_with (codes prefix) mime) allowed_mime_prefixes
      then value mime
      else raise (bad_content_type mime)

  unfoldable pub validate_upload : Settings → Text → Text → ℕ → Result Text
  validate_upload settings filename content_type size =
      if ltb settings.max_attachment_bytes size
      then raise too_large
      else if size == 0
      then raise empty_file
      else if not (elem (py.lower (py.suffix filename)) allowed_extensions)
      then raise (bad_extension (py.lower (py.suffix filename)))
      else check_mime (normal_mime filename content_type)

  -- `_attachment_root() / sha256[:2] / sha256`
  unfoldable pub storage_path : Settings → Text → Text
  storage_path settings digest =
      settings.attachment_root ++ (codes "/" ++ (take 2 digest ++ (codes "/" ++ digest)))

  unfoldable pub store_original : Settings → Bytes → Dict Text Bytes → Text × Text × Dict Text Bytes
  store_original settings content files =
      let digest = py.sha256 content in
      let dest = storage_path settings digest in
      (
        digest,
        dest,
        if exists (lookup dest files) then files else write_atomically dest content files,
      )

-- an entry of `evidence_refs`
pub record EvidenceRef : Type 0 where
  pub run_id : String
  pub artifact_id : Option String
  pub page : Option ℕ
  pub linked_at : ℕ

pub record RunAttachment : Type 0 where
  pub id : String
  pub run_id : String
  pub project_id : ℕ
  pub uploader_id : ℕ
  pub original_filename : Text
  pub mime_type : Text
  pub size_bytes : ℕ
  pub content_hash : Text
  pub storage_path : Text
  pub storage_backend : String
  pub processing_state : String
  pub scan_result : Option String
  pub extracted_text : Option Text
  pub extraction_error : Option Text
  pub page_count : Option ℕ
  pub evidence_refs : List EvidenceRef
  pub created_at : ℕ
  pub processed_at : Option ℕ
