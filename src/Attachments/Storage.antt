-- ===== src/Attachments/Storage.antt =====
-- The content-addressed storage of backend/attachment.py.
use pi_development_agent.Base.{
  ℕ, ◌≤◌, Text, codes, nat_Eq, list_Eq, ◌==◌, ==_refl, false, [], ◌∷◌, ◌++◌, length, none, some,
  Option-cases, inl, inr, Dict, lookup, insert, delete, lookup-insert, lookup-delete, ◌≡◌, arith,
  refl, sym, ap, Bool-cases, if◌then◌else◌,
}
use pi_development_agent.Attachments.Model.{
  Bytes, Library, Settings, storage_path, write_atomically, store_original,
}

module _ (py : Library) (settings : Settings) where
  -- each file stands at the address of its digest
  abbrev pub IsAddressed : Dict Text Bytes → Type 0
  IsAddressed files =
      (path : Text) (content : Bytes)
      → lookup path files ≡ some content
      → path ≡ storage_path py settings (py.sha256 content)

cancel_left : (xs ys zs : Text) → xs ++ ys ≡ xs ++ zs → ys ≡ zs
cancel_left [] ys zs h = h
cancel_left (x ∷ xs) ys zs h = cancel_left xs ys zs (ground arith)

storage_path-injective :
    (py : Library) (settings : Settings) (d e : Text)
    → 2 ≤ length d
    → 2 ≤ length e
    → storage_path py settings d ≡ storage_path py settings e
    → d ≡ e
unfolding storage_path
storage_path-injective py settings (a ∷ b ∷ r) (c ∷ d ∷ s) hd he h =
    let rest = cancel_left settings.attachment_root _ _ h in ground arith
storage_path-injective py settings [] e hd he h = absurd (omega arith)
storage_path-injective py settings (a ∷ []) e hd he h = absurd (omega arith)
storage_path-injective py settings (a ∷ b ∷ r) [] hd he h = absurd (omega arith)
storage_path-injective py settings (a ∷ b ∷ r) (c ∷ []) hd he h = absurd (omega arith)

lookup-write_atomically :
    (dest path : Text) (content : Bytes) (files : Dict Text Bytes)
    → lookup path (write_atomically dest content files) ≡ (
        if dest == path
        then some content
        else if (dest ++ codes ".tmp") == path
        then none
        else lookup path files)
unfolding write_atomically
lookup-write_atomically dest path content files = ground (
  arith,
  lookup-insert dest path content
      (delete (dest ++ codes ".tmp") (insert (dest ++ codes ".tmp") content files)),
  lookup-delete (dest ++ codes ".tmp") path (insert (dest ++ codes ".tmp") content files),
  lookup-insert (dest ++ codes ".tmp") path content files,
)

module _ (py : Library) (settings : Settings) (content : Bytes) (files : Dict Text Bytes) where
  abbrev dest : Text
  dest = storage_path py settings (py.sha256 content)

  abbrev after : Dict Text Bytes
  after = (store_original py settings content files).2

  stored_new :
      (path : Text)
      → lookup dest files ≡ none
      → lookup path after ≡ (
          if dest == path
          then some content
          else if (dest ++ codes ".tmp") == path
          then none
          else lookup path files)
  unfolding store_original
  stored_new path fresh = rw fresh (lookup-write_atomically dest path content files)

  stored_old : (old : Bytes) → lookup dest files ≡ some old → after ≡ files
  unfolding store_original
  stored_old old e = rw e refl

  store_original-IsAddressed : IsAddressed py settings files → IsAddressed py settings after
  store_original-IsAddressed h path c found = elim (Option-cases (lookup dest files)) [
    | inr (old, e) ↦ h path c (rw (stored_old old e) at found)
    | inl fresh ↦ elim (Bool-cases (dest == path)) [
      | inl same ↦
          let place : dest ≡ path = ((list_Eq {A = ℕ}).same_iff dest path).0 same in
          let it : c ≡ content = ground (arith, stored_new path fresh) in rw (← place, it) refl
      | inr other ↦ h path c (ground (arith, stored_new path fresh))
    ]
  ]

  -- Where each file stands at the address of its digest, where digests have two characters at least
  -- and no other content has the digest of this one: the content is found at its address, and every
  -- other file is left alone, less one at the temporary name beside that address.
  pub store_original_lem :
      (path : Text)
      → (path == dest) ≡ false
      → (path == (dest ++ codes ".tmp")) ≡ false
      → IsAddressed py settings files
      → ((c : Bytes) → 2 ≤ length (py.sha256 c))
      → ((c : Bytes) → py.sha256 c ≡ py.sha256 content → c ≡ content)
      → (lookup dest after ≡ some content)
        × IsAddressed py settings after
        × (lookup path after ≡ lookup path files)
  store_original_lem path apart beside h long single = (
    elim (Option-cases (lookup dest files)) [
      | inl fresh ↦ ground (arith, stored_new dest fresh, ==_refl dest)
      | inr (old, e) ↦
          let same =
            storage_path-injective py settings (py.sha256 content) (py.sha256 old) (long content)
              (long old) (h dest old e) in
          rw (stored_old old e, e) (ap some (single old (sym same)))
    ],
    store_original-IsAddressed h,
    elim (Option-cases (lookup dest files)) [
      | inl fresh ↦ ground (
        arith,
        stored_new path fresh,
        (list_Eq {A = ℕ}).same_iff path dest,
        (list_Eq {A = ℕ}).same_iff dest path,
        (list_Eq {A = ℕ}).same_iff path (dest ++ codes ".tmp"),
        (list_Eq {A = ℕ}).same_iff (dest ++ codes ".tmp") path,
      )
      | inr (old, e) ↦ rw (stored_old old e) refl
    ],
  )
