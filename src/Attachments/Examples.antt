-- ===== src/Attachments/Examples.antt =====
-- A memo that is attached and read, and a file that the scanner finds malicious.
use pi_development_agent.Base.{
  ℕ, arith, ◌≤◌, Text, codes, string_Eq, nat_Eq, list_Eq, elem, All, In, true, [], ◌++◌, none, some,
  lookup, insert, delete, strip, ◌≡◌, refl, if◌then◌else◌, option_same, option_Eq,
}
use pi_development_agent.Deployment.Model.{Project, User, http_error, require_project}
use pi_development_agent.Attachments.Model.{
  Library, Settings, validate_upload, check_mime, normal_mime, storage_path, write_atomically,
  store_original, RunAttachment,
}
use pi_development_agent.Attachments.Extraction.{no_pypdf, no_tesseract, is_plain, extract_text}
use pi_development_agent.Attachments.Pipeline.{
  Vault, Machinery, Upload, scanned_row, max_extracted, extracted, settle_upload, process_validated,
  process_attachment, upload_attachment,
}
use pi_development_agent.Attachments.Citation.{
  get_attachment, citation_of, get_citation, get_extracted_text_for_agent, get_attachment_content,
}
use pi_development_agent.Attachments.Storage.{IsAddressed, store_original_lem}
use pi_development_agent.Attachments.Sound.{IsSettled, Reach, start, uploads, Reach-IsSettled}
use pi_development_agent.Attachments.Reading.{IsFit, get_attachment_content-IsFit}

-- the digest is the content behind two letters
abbrev python : Library
python = record {
  sha256 = λ content. codes "ab" ++ content;
  suffix = λ name. codes ".txt";
  lower = λ t. t;
  guess_type = λ name. some (codes "text/plain");
}

abbrev settings : Settings
settings = record { attachment_root = codes "files"; max_attachment_bytes = 25 }

-- files that begin with `!` are malicious
abbrev machinery : Machinery
machinery = record {
  python = python;
  settings = settings;
  scanner = λ path content.
      if option_same content (some (codes "!"))
      then ("malicious", some (codes "bang"))
      else ("skipped", none);
  readers = record {
    read_pdf = λ content. no_pypdf;
    read_image = λ content. no_tesseract;
    decode = λ content. content;
  };
}

abbrev ada : User
ada = record { id = 1; role = "admin"; memberships = [] }

abbrev project : Project
project = record { id = 7; organization_id = 3; phase = "build" }

abbrev memo : Upload
memo = record {
  id = "n";
  run_id = "r";
  project_id = 7;
  uploader_id = 1;
  filename = codes "note.txt";
  content_type = codes "text/plain";
  content = codes "hi";
}

abbrev bang : Upload
bang = record {
  id = "b";
  run_id = "r";
  project_id = 7;
  uploader_id = 1;
  filename = codes "bang.txt";
  content_type = codes "text/plain";
  content = codes "!";
}

abbrev empty : Vault
empty = record { files = []; attachments = [] }

abbrev with_note : Vault
with_note = (upload_attachment machinery 5 ada (some project) memo empty).1

abbrev with_both : Vault
with_both = (upload_attachment machinery 6 ada (some project) bang with_note).1

bang_is_refused : (upload_attachment machinery 6 ada (some project) bang empty).0 ≡ http_error 422
unfolding upload_attachment process_attachment process_validated validate_upload normal_mime
    check_mime strip elem settle_upload store_original write_atomically storage_path lookup insert
    delete require_project
bang_is_refused = refl

both-Reach : Reach machinery with_both
both-Reach = uploads 6 ada (some project) bang _ (uploads 5 ada (some project) memo _ start)

Reach-IsSettled_example : All (IsSettled 25) with_both.attachments
Reach-IsSettled_example = Reach-IsSettled machinery with_both both-Reach

abbrev answer : Text
answer = codes "--- Source: [note.txt] ---\nh\n[... truncated]"

get_attachment_content-IsFit_example :
    (row : RunAttachment) × (most : ℕ) × In row with_note.attachments
    × (row.id ≡ "n")
    × (require_project ada project ≡ true)
    × (most ≤ 1)
    × (most ≤ 200_000)
    × IsFit row (get_citation with_note "n" none) most answer
unfolding upload_attachment process_attachment process_validated validate_upload normal_mime
    check_mime strip elem settle_upload store_original write_atomically storage_path lookup insert
    delete require_project extract_text is_plain extracted scanned_row max_extracted
    get_attachment_content get_attachment citation_of get_citation get_extracted_text_for_agent
get_attachment_content-IsFit_example =
    get_attachment_content-IsFit machinery (λ id. project) ada with_note "n" 1 answer
      (uploads 5 ada (some project) memo _ start) refl

store_original_lem_example :
    (lookup (codes "files/ab/abhi") (store_original python settings (codes "hi") []).2
      ≡ some (codes "hi"))
    × IsAddressed python settings (store_original python settings (codes "hi") []).2
    × (lookup (codes "other") (store_original python settings (codes "hi") []).2 ≡ none)
unfolding storage_path lookup
store_original_lem_example =
    store_original_lem python settings (codes "hi") [] (codes "other") refl refl
      (λ path content found. absurd (cc)) (λ c. omega arith) λ c e. ground (arith, e)
