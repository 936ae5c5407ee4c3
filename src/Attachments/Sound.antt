-- ===== src/Attachments/Sound.antt =====
-- What every row of `run_attachments` satisfies, whatever is uploaded and linked.
use pi_development_agent.Base.{
  ℕ, ◌≤◌, ◌<◌, Text, String, string_Eq, nat_Eq, list_Eq, ◌==◌, ltb, true, false, [], All,
  All-append, All-map, Dict, length, length-take-le, Option, none, some, lookup, ◌≡◌, ◌⊎◌, arith,
  refl, Bool-cases, inl, inr,
}
use pi_development_agent.Deployment.Model.{Project, User, require_project}
use pi_development_agent.Attachments.Model.{
  Bytes, Library, Settings, UploadError, Result, raise, value, validate_upload, RunAttachment,
}
use pi_development_agent.Attachments.Extraction.{Extraction}
use pi_development_agent.Attachments.Pipeline.{
  Vault, Machinery, Upload, scanned_row, quarantined, max_extracted, extracted, no_error,
  settle_upload, process_validated, process_attachment, upload_attachment, linked, link_evidence,
}

abbrev pub text_length : Option Text → ℕ
text_length none = 0
text_length (some text) = length text

-- A row is settled, its size is within the limit, at most `max_extracted` characters of its text
-- are kept, and one that the scanner found malicious has no text and is not indexed.
pub record IsSettled (limit : ℕ) (row : RunAttachment) : Type 0 where
  pub sized : (0 < row.size_bytes) × (row.size_bytes ≤ limit)
  pub settled : (row.processing_state ≡ "indexed") ⊎ (row.processing_state ≡ "failed")
  pub bounded : text_length row.extracted_text ≤ max_extracted
  pub quarantine :
      row.scan_result ≡ some "malicious"
      → (row.processing_state ≡ "failed") × (row.extracted_text ≡ none)
  pub clean : row.processing_state ≡ "indexed" → no_error row.extraction_error ≡ true

-- a validated size
validated_size :
    (py : Library) (settings : Settings) (filename content_type : Text) (size : ℕ) (mime : Text)
    → validate_upload py settings filename content_type size ≡ value mime
    → (0 < size) × (size ≤ settings.max_attachment_bytes)
unfolding validate_upload
validated_size py settings filename content_type size mime h =
    elim (Bool-cases (ltb settings.max_attachment_bytes size)) [
      | inl large ↦ absurd (ground (arith, large))
      | inr fits ↦ elim (Bool-cases (size == 0)) [
        | inl none_sent ↦ absurd (ground (arith, fits, none_sent))
        | inr sent ↦ ground (arith, fits, sent)
      ]
    ]

Result-cases :
    (r : Result Text)
    → ((error : UploadError) × (r ≡ raise error)) ⊎ ((mime : Text) × (r ≡ value mime))
Result-cases (raise error) = inl (error, refl)
Result-cases (value mime) = inr (mime, refl)

module _ (o : Machinery) where
  abbrev limit : ℕ
  limit = o.settings.max_attachment_bytes

  quarantined-IsSettled :
      (now : ℕ) (upload : Upload) (mime : Text) (place : Text × Text) (answer : String)
      (detail : Option Text)
      → (0 < length upload.content) × (length upload.content ≤ limit)
      → IsSettled limit (quarantined detail (scanned_row now upload mime place answer))
  unfolding quarantined scanned_row
  quarantined-IsSettled now upload mime place answer detail size = record {
    sized = size;
    settled = inr refl;
    bounded = omega arith;
    quarantine = λ h. (refl, refl);
    clean = λ h. absurd (cc);
  }

  extracted-IsSettled :
      (now : ℕ) (upload : Upload) (mime : Text) (place : Text × Text) (answer : String)
      (e : Extraction)
      → (0 < length upload.content) × (length upload.content ≤ limit)
      → (answer == "malicious") ≡ false
      → IsSettled limit (extracted now e (scanned_row now upload mime place answer))
  unfolding extracted scanned_row
  extracted-IsSettled now upload mime place answer e size safe = record {
    sized = size;
    settled = elim (Bool-cases (no_error e.error)) [
      | inl fine ↦ rw fine (inl refl)
      | inr wrong ↦ rw wrong (inr refl)
    ];
    bounded = length-take-le max_extracted e.text;
    quarantine = λ h. absurd (ground (arith, string_Eq.same_iff answer "malicious"));
    clean = λ h. elim (Bool-cases (no_error e.error)) [
      | inl fine ↦ fine
      | inr wrong ↦ absurd (let same = rw wrong at h in cc)
    ];
  }

  settle_upload-IsSettled :
      (now : ℕ) (upload : Upload) (mime : Text) (stored : Text × Text × Dict Text Bytes)
      (vault : Vault)
      → (0 < length upload.content) × (length upload.content ≤ limit)
      → All (IsSettled limit) vault.attachments
      → All (IsSettled limit) (settle_upload o now upload mime stored vault).1.attachments
  unfolding settle_upload
  settle_upload-IsSettled now upload mime (digest, path, files) vault size h =
      let (answer, detail) = o.scanner path (lookup path files) in
      elim (Bool-cases (answer == "malicious")) [
        | inl bad ↦ rw bad (
            All-append (IsSettled limit) vault.attachments _ h
              (quarantined-IsSettled now upload mime (digest, path) answer detail size, tt))
        | inr safe ↦ rw safe (
            All-append (IsSettled limit) vault.attachments _ h
              (extracted-IsSettled now upload mime (digest, path) answer _ size safe, tt))
      ]

  process_attachment-IsSettled :
      (now : ℕ) (upload : Upload) (vault : Vault)
      → All (IsSettled limit) vault.attachments
      → All (IsSettled limit) (process_attachment o now upload vault).1.attachments
  unfolding process_attachment process_validated
  process_attachment-IsSettled now upload vault h =
      elim (Result-cases (
        validate_upload o.python o.settings upload.filename upload.content_type
          (length upload.content))) [
            | inl (error, e) ↦ rw e h
            | inr (mime, e) ↦ rw e (
                settle_upload-IsSettled now upload mime _ vault (validated_size _ _ _ _ _ mime e) h)
          ]

  upload_attachment-IsSettled :
      (now : ℕ) (user : User) (project : Option Project) (upload : Upload) (vault : Vault)
      → All (IsSettled limit) vault.attachments
      → All (IsSettled limit) (upload_attachment o now user project upload vault).1.attachments
  unfolding upload_attachment
  upload_attachment-IsSettled now user none upload vault h = h
  upload_attachment-IsSettled now user (some project) upload vault h =
      elim (Bool-cases (require_project user project)) [
        | inr denied ↦ rw denied h
        | inl allowed ↦ elim (Bool-cases (ltb limit (length upload.content))) [
          | inl large ↦ rw (allowed, large) h
          | inr fits ↦ rw (allowed, fits) (process_attachment-IsSettled now _ vault h)
        ]
      ]

  linked-IsSettled :
      (now : ℕ) (id run_id : String) (artifact_id : Option String) (page : Option ℕ)
      (row : RunAttachment)
      → IsSettled limit row
      → IsSettled limit (linked now id run_id artifact_id page row)
  unfolding linked
  linked-IsSettled now id run_id artifact_id page row s = elim (Bool-cases (row.id == id)) [
    | inl same ↦ rw same (record {
      sized = s.sized;
      settled = s.settled;
      bounded = s.bounded;
      quarantine = s.quarantine;
      clean = s.clean;
    })
    | inr other ↦ rw other s
  ]

  link_evidence-IsSettled :
      (now : ℕ) (id run_id : String) (artifact_id : Option String) (page : Option ℕ) (vault : Vault)
      → All (IsSettled limit) vault.attachments
      → All (IsSettled limit) (link_evidence now id run_id artifact_id page vault).attachments
  unfolding link_evidence
  link_evidence-IsSettled now id run_id artifact_id page vault h =
      All-map (IsSettled limit) _ vault.attachments
        (λ row s. linked-IsSettled now id run_id artifact_id page row s) h

-- The vaults that uploads and links of evidence lead to, from an empty one.
pub data Reach (o : Machinery) : Vault → Type 0 where
  start : Reach o (record { files = []; attachments = [] })
  uploads :
      (now : ℕ) (user : User) (project : Option Project) (upload : Upload) (vault : Vault)
      → Reach o vault
      → Reach o (upload_attachment o now user project upload vault).1
  links :
      (now : ℕ) (id run_id : String) (artifact_id : Option String) (page : Option ℕ) (vault : Vault)
      → Reach o vault
      → Reach o (link_evidence now id run_id artifact_id page vault)

-- Every row of a vault that uploads and links of evidence lead to is sound: its file is not empty
-- and within the limit, it is indexed or failed, at most 500,000 characters of its text are kept,
-- and one with a malicious file has failed and has no text.
pub Reach-IsSettled :
    (o : Machinery) (vault : Vault)
    → Reach o vault
    → All (IsSettled o.settings.max_attachment_bytes) vault.attachments
Reach-IsSettled o _ start = tt
Reach-IsSettled o _ (uploads now user project upload vault r) =
    upload_attachment-IsSettled o now user project upload vault (Reach-IsSettled o vault r)
Reach-IsSettled o _ (links now id run_id artifact_id page vault r) =
    link_evidence-IsSettled o now id run_id artifact_id page vault (Reach-IsSettled o vault r)
