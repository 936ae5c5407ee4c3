-- ===== src/Attachments/Reading.antt =====
-- What a reader of an attachment gets to see.
use pi_development_agent.Base.{
  ℕ, ◌≤◌, Text, String, string_Eq, ◌==◌, ltb, elem, true, [], ◌∷◌, All-In, In, find-some, Option,
  none, some, ◌≡◌, ◌≢◌, arith, refl, subst, Bool-cases, Option-cases, inl, inr, if◌then◌else◌,
}
use pi_development_agent.Deployment.Model.{Project, User, ok, require_project}
use pi_development_agent.Attachments.Model.{RunAttachment}
use pi_development_agent.Attachments.Pipeline.{Vault, Machinery}
use pi_development_agent.Attachments.Citation.{
  pos, at_most, get_attachment, get_citation, readable_states, unreadable_message, no_text, quoted,
  text_or, agent_text, get_extracted_text_for_agent, get_attachment_content,
}
use pi_development_agent.Attachments.Sound.{IsSettled, Reach, Reach-IsSettled}

-- What a permitted reader may be given of a row: a message, or at most `most` characters of the
-- text of a file that the scanner did not find malicious.
pub data IsFit (row : RunAttachment) (citation : Text) (most : ℕ) (content : Text) : Type 0 where
  waiting : content ≡ unreadable_message row → IsFit row citation most content
  silent : content ≡ no_text row → IsFit row citation most content
  quoting :
      (text : Text)
      → row.extracted_text ≡ some text
      → row.scan_result ≢ some "malicious"
      → content ≡ quoted citation (pos most) text
      → IsFit row citation most content

abbrev least : ℕ → ℕ → ℕ
least a b = if ltb a b then a else b

capped : (n : ℕ) → at_most 200_000 (pos n) ≡ pos (least 200_000 n)
capped n = elim (Bool-cases (ltb 200_000 n)) [
  | inl large ↦ rw large refl
  | inr small ↦ rw small refl
]

readable_safe :
    (limit : ℕ) (row : RunAttachment)
    → IsSettled limit row
    → elem row.processing_state readable_states ≡ true
    → row.scan_result ≢ some "malicious"
unfolding elem
readable_safe limit row s readable bad =
    let (failed, nothing) = s.quarantine bad in absurd (let it = rw failed at readable in cc)

text_or-IsFit :
    (row : RunAttachment) (citation : Text) (most : ℕ) (kept : Option Text)
    → row.extracted_text ≡ kept
    → row.scan_result ≢ some "malicious"
    → IsFit row citation most (text_or row citation (pos most) kept)
text_or-IsFit row citation most none e safe = silent refl
text_or-IsFit row citation most (some []) e safe = silent refl
text_or-IsFit row citation most (some (c ∷ cs)) e safe = quoting (c ∷ cs) e safe refl

agent_text-IsFit :
    (vault : Vault) (id : String) (limit most : ℕ) (row : RunAttachment)
    → IsSettled limit row
    → IsFit row (get_citation vault id none) most (agent_text vault id (pos most) (some row))
agent_text-IsFit vault id limit most row s =
    elim (Bool-cases (elem row.processing_state readable_states)) [
      | inr other ↦ rw other (waiting refl)
      | inl readable ↦ rw readable (
          text_or-IsFit row (get_citation vault id none) most row.extracted_text refl
            (readable_safe limit row s readable))
    ]

get_attachment-some :
    (id : String) (vault : Vault) (row : RunAttachment)
    → get_attachment id vault ≡ some row
    → In row vault.attachments × ((row.id == id) ≡ true)
unfolding get_attachment
get_attachment-some id vault row e =
    find-some (λ (row : RunAttachment). row.id == id) vault.attachments row e

answer-IsFit :
    (vault : Vault) (id : String) (limit asked : ℕ) (row : RunAttachment)
    → get_attachment id vault ≡ some row
    → IsSettled limit row
    → IsFit row
        (get_citation vault id none)
        (least 200_000 asked)
        (get_extracted_text_for_agent vault id (at_most 200_000 (pos asked)))
unfolding get_extracted_text_for_agent
answer-IsFit vault id limit asked row e s =
    rw (e, capped asked) (agent_text-IsFit vault id limit (least 200_000 asked) row s)

-- Where uploads and links of evidence lead to `vault` and a user asks for at most `asked`
-- characters: an answer is given only for a row there is, to a user of its project, and it is a
-- message without text or quotes at most `asked` and at most 200,000 characters of the text of a
-- file that the scanner did not find malicious.
pub get_attachment_content-IsFit :
    (o : Machinery) (project_of : ℕ → Project) (user : User) (vault : Vault) (id : String)
    (asked : ℕ) (content : Text)
    → Reach o vault
    → get_attachment_content project_of user vault id (pos asked) ≡ ok content
    → (row : RunAttachment) × (most : ℕ) × In row vault.attachments
      × (row.id ≡ id)
      × (require_project user (project_of row.project_id) ≡ true)
      × (most ≤ asked)
      × (most ≤ 200_000)
      × IsFit row (get_citation vault id none) most content
unfolding get_attachment_content
get_attachment_content-IsFit o project_of user vault id asked content r h =
    elim (Option-cases (get_attachment id vault)) [
      | inl missing ↦ absurd (let it = rw missing at h in cc)
      | inr (row, e) ↦ elim (Bool-cases (require_project user (project_of row.project_id))) [
        | inr denied ↦ absurd (let it = rw (e, denied) at h in cc)
        | inl allowed ↦
            let (m, same) = get_attachment-some id vault row e in
            let answer : get_extracted_text_for_agent vault id (at_most 200_000 (pos asked))
                ≡ content =
              let it = rw (e, allowed) at h in ground arith in
            let s =
              All-In (IsSettled o.settings.max_attachment_bytes) row vault.attachments
                (Reach-IsSettled o vault r) m in
            (
              row,
              least 200_000 asked,
              m,
              (string_Eq.same_iff row.id id).0 same,
              allowed,
              ground arith,
              ground arith,
              subst (IsFit row (get_citation vault id none) (least 200_000 asked)) answer
                  (answer-IsFit vault id o.settings.max_attachment_bytes asked row e s),
            )
      ]
    ]
