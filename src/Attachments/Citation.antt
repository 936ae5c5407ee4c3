-- ===== src/Attachments/Citation.antt =====
-- `get_citation` and `get_extracted_text_for_agent` of backend/attachment.py, and `get_attachment_content`
-- of backend/main.py.
use pi_development_agent.Base.{
  ℕ, suc, ◌-◌, Text, codes, String, string_Eq, ◌==◌, elem, ltb, decimal, Bool, true, not, List, [],
  ◌∷◌, ◌++◌, find, length, take, Option, none, some, if◌then◌else◌,
}
use pi_development_agent.Deployment.Model.{Project, User, Response, http_error, ok, require_project}
use pi_development_agent.Attachments.Model.{RunAttachment}
use pi_development_agent.Attachments.Pipeline.{Vault}

-- Python's integers; `negsuc n` is -(n + 1)
pub data ℤ : Type 0 where
  pos : ℕ → ℤ
  negsuc : ℕ → ℤ

-- `text[:n]`
abbrev pub take_until : ℤ → Text → Text
take_until (pos n) text = take n text
take_until (negsuc n) text = take (length text - suc n) text

-- `len(text) > n`
abbrev pub is_longer : Text → ℤ → Bool
is_longer text (pos n) = ltb n (length text)
is_longer text (negsuc n) = true

-- `min(z, n)`
abbrev pub at_most : ℕ → ℤ → ℤ
at_most n (pos z) = if ltb n z then pos n else pos z
at_most n (negsuc z) = negsuc z

unfoldable pub get_attachment : String → Vault → Option RunAttachment
get_attachment id vault = find (λ (row : RunAttachment). row.id == id) vault.attachments

abbrev pages_citation : Text → Option ℕ → Text
pages_citation name none = codes "[" ++ (name ++ codes "]")
pages_citation name (some count) =
    if ltb 1 count
    then codes "[" ++ (name ++ (codes ", " ++ (decimal count ++ codes " pages]")))
    else codes "[" ++ (name ++ codes "]")

unfoldable pub citation_of : RunAttachment → Option ℕ → Text
citation_of row none = pages_citation row.original_filename row.page_count
citation_of row (some page) =
    codes "[" ++ (row.original_filename ++ (codes ", page " ++ (decimal page ++ codes "]")))

abbrev cited : String → Option ℕ → Option RunAttachment → Text
cited id page none = codes "[attachment:" ++ (codes id ++ codes "]")
cited id page (some row) = citation_of row page

unfoldable pub get_citation : Vault → String → Option ℕ → Text
get_citation vault id page = cited id page (get_attachment id vault)

abbrev pub readable_states : List String
readable_states = "indexed" ∷ "clean" ∷ []

abbrev pub unreadable_message : RunAttachment → Text
unreadable_message row =
    codes "[Attachment '"
    ++ (row.original_filename
        ++ (codes "' is still processing (" ++ (codes row.processing_state ++ codes ")]")))

abbrev pub no_text : RunAttachment → Text
no_text row = codes "[Attachment '" ++ (row.original_filename ++ codes "' has no extractable text]")

abbrev pub quoted : Text → ℤ → Text → Text
quoted citation max_chars text =
    codes "--- Source: "
    ++ (citation
        ++ (codes " ---\n"
            ++ (take_until max_chars text
                ++ (if is_longer text max_chars then codes "\n[... truncated]" else []))))

abbrev pub text_or : RunAttachment → Text → ℤ → Option Text → Text
text_or row citation max_chars (some (c ∷ cs)) = quoted citation max_chars (c ∷ cs)
text_or row citation max_chars (some []) = no_text row
text_or row citation max_chars none = no_text row

abbrev pub agent_text : Vault → String → ℤ → Option RunAttachment → Text
agent_text vault id max_chars none = codes "[Attachment " ++ (codes id ++ codes " not found]")
agent_text vault id max_chars (some row) =
    if not (elem row.processing_state readable_states)
    then unreadable_message row
    else text_or row (get_citation vault id none) max_chars row.extracted_text

unfoldable pub get_extracted_text_for_agent : Vault → String → ℤ → Text
get_extracted_text_for_agent vault id max_chars =
    agent_text vault id max_chars (get_attachment id vault)

module _ (project_of : ℕ → Project) where
  abbrev pub content_for : User → ℤ → Vault → String → Option RunAttachment → Response Text
  content_for user max_chars vault id none = http_error 404
  content_for user max_chars vault id (some row) =
      if not (require_project user (project_of row.project_id))
      then http_error 404
      else ok (get_extracted_text_for_agent vault id (at_most 200_000 max_chars))

  unfoldable pub get_attachment_content : User → Vault → String → ℤ → Response Text
  get_attachment_content user vault id max_chars =
      content_for user max_chars vault id (get_attachment id vault)
