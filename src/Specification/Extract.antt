-- ===== src/Specification/Extract.antt =====
-- What the extractors of backend/specification.py find.
use pi_development_agent.Base.{
  ℕ, zero, suc, ◌<◌, Text, nat_Eq, list_Eq, ◌==◌, ==_refl, elem, elem-In, true, false, List, [],
  ◌∷◌, ◌++◌, In, here, there, take, length, ◌≡◌, ◌↔◌, arith, refl, sym, ap, Bool-cases, inl, inr,
  ◌⊎◌, if◌then◌else◌, subst,
}
use pi_development_agent.Specification.Targets.{
  SourceSymbol, note, names_model, model_loop, extract_model_targets,
}

abbrev pub IsDistinct : List Text → Type 0
IsDistinct [] = Unit
IsDistinct (x ∷ xs) = (elem x xs ≡ false) × IsDistinct xs

elem-append_one :
    (a b : Text) (xs : List Text) → elem a (xs ++ (b ∷ [])) ≡ (if elem a xs then true else a == b)
unfolding elem
elem-append_one a b [] = ground arith
elem-append_one a b (x ∷ xs) = ground (arith, elem-append_one a b xs)

flipped : (x b : Text) → (b == x) ≡ false → (x == b) ≡ false
flipped x b h = ground (arith, (list_Eq {A = ℕ}).same_iff x b, (list_Eq {A = ℕ}).same_iff b x)

append_one-IsDistinct :
    (b : Text) (xs : List Text) → IsDistinct xs → elem b xs ≡ false → IsDistinct (xs ++ (b ∷ []))
unfolding elem
append_one-IsDistinct b [] h other = (refl, tt)
append_one-IsDistinct b (x ∷ xs) h other =
    let apart : elem x (xs ++ (b ∷ [])) ≡ false =
      rw (elem-append_one x b xs, h.0) (flipped x b (ground arith)) in
    (apart, append_one-IsDistinct b xs h.1 (ground arith))

note-IsDistinct : (b : Text) (xs : List Text) → IsDistinct xs → IsDistinct (note b xs)
unfolding note
note-IsDistinct b xs h = elim (Bool-cases (elem b xs)) [
  | inl old ↦ rw old h
  | inr new ↦ rw new (append_one-IsDistinct b xs h new)
]

elem-take : (a : Text) (n : ℕ) (xs : List Text) → elem a xs ≡ false → elem a (take n xs) ≡ false
unfolding elem
elem-take a zero xs h = refl
elem-take a (suc n) [] h = refl
elem-take a (suc n) (x ∷ xs) h = ground (arith, elem-take a n xs)

take-IsDistinct : (n : ℕ) (xs : List Text) → IsDistinct xs → IsDistinct (take n xs)
take-IsDistinct zero xs h = tt
take-IsDistinct (suc n) [] h = tt
take-IsDistinct (suc n) (x ∷ xs) h = (elem-take x n xs h.0, take-IsDistinct n xs h.1)

In-append_one : (a b : Text) (xs : List Text) → In a (xs ++ (b ∷ [])) → In a xs ⊎ (a ≡ b)
In-append_one a b [] (here e) = inr e
In-append_one a b [] (there m) = elim m [ ]
In-append_one a b (x ∷ xs) (here e) = inl (here e)
In-append_one a b (x ∷ xs) (there m) = elim (In-append_one a b xs m) [
  | inl n ↦ inl (there n)
  | inr e ↦ inr e
]

In-note : (a b : Text) (xs : List Text) → In a (note b xs) → In a xs ⊎ (a ≡ b)
unfolding note
In-note a b xs m = elim (Bool-cases (elem b xs)) [
  | inl old ↦ inl (rw old at m)
  | inr new ↦ In-append_one a b xs (rw new at m)
]

note-grows : (a b : Text) (xs : List Text) → elem a xs ≡ true → elem a (note b xs) ≡ true
unfolding note
note-grows a b xs h = ground (arith, elem-append_one a b xs)

note_self : (b : Text) (xs : List Text) → elem b (note b xs) ≡ true
unfolding note
note_self b xs = ground (arith, elem-append_one b b xs, ==_refl b)

take_all : (n : ℕ) (xs : List Text) → length (take n xs) < n → take n xs ≡ xs
take_all zero xs h = absurd (omega arith)
take_all (suc n) [] h = refl
take_all (suc n) (x ∷ xs) h = ap (λ t. x ∷ t) (take_all n xs (omega arith))

In-take : (a : Text) (n : ℕ) (xs : List Text) → In a (take n xs) → In a xs
In-take a zero xs m = elim m [ ]
In-take a (suc n) [] m = elim m [ ]
In-take a (suc n) (x ∷ xs) (here e) = here e
In-take a (suc n) (x ∷ xs) (there m) = there (In-take a n xs m)

module _ (lower : Text → Text) (prompt_lower : Text) where
  model_loop-IsDistinct :
      (symbols : List SourceSymbol) (found : List Text)
      → IsDistinct found
      → IsDistinct (model_loop lower prompt_lower symbols found)
  unfolding model_loop
  model_loop-IsDistinct [] found h = h
  model_loop-IsDistinct (symbol ∷ symbols) found h =
      elim (Bool-cases (names_model lower prompt_lower symbol)) [
        | inl named ↦
            rw named (model_loop-IsDistinct symbols _ (note-IsDistinct symbol.name found h))
        | inr other ↦ rw other (model_loop-IsDistinct symbols found h)
      ]

  model_loop_sound :
      (a : Text) (symbols : List SourceSymbol) (found : List Text)
      → In a (model_loop lower prompt_lower symbols found)
      → In a found
        ⊎ ((symbol : SourceSymbol) × In symbol symbols
            × (a ≡ symbol.name)
            × (names_model lower prompt_lower symbol ≡ true))
  unfolding model_loop
  model_loop_sound a [] found m = inl m
  model_loop_sound a (symbol ∷ symbols) found m =
      elim (Bool-cases (names_model lower prompt_lower symbol)) [
        | inl named ↦ elim (model_loop_sound a symbols (note symbol.name found) (rw named at m)) [
          | inl n ↦ elim (In-note a symbol.name found n) [
            | inl old ↦ inl old
            | inr e ↦ inr (symbol, here refl, e, named)
          ]
          | inr (s, n, e, h) ↦ inr (s, there n, e, h)
        ]
        | inr other ↦ elim (model_loop_sound a symbols found (rw other at m)) [
          | inl n ↦ inl n
          | inr (s, n, e, h) ↦ inr (s, there n, e, h)
        ]
      ]

  model_loop-grows :
      (a : Text) (symbols : List SourceSymbol) (found : List Text)
      → elem a found ≡ true
      → elem a (model_loop lower prompt_lower symbols found) ≡ true
  unfolding model_loop
  model_loop-grows a [] found h = h
  model_loop-grows a (symbol ∷ symbols) found h =
      elim (Bool-cases (names_model lower prompt_lower symbol)) [
        | inl named ↦ rw named (model_loop-grows a symbols _ (note-grows a symbol.name found h))
        | inr other ↦ rw other (model_loop-grows a symbols found h)
      ]

  model_loop-finds :
      (symbol : SourceSymbol) (symbols : List SourceSymbol) (found : List Text)
      → In symbol symbols
      → names_model lower prompt_lower symbol ≡ true
      → elem symbol.name (model_loop lower prompt_lower symbols found) ≡ true
  unfolding model_loop
  model_loop-finds symbol [] found m h = elim m [ ]
  model_loop-finds symbol (s ∷ symbols) found (here e) h =
      let named : names_model lower prompt_lower s ≡ true =
        subst (λ t. names_model lower prompt_lower t ≡ true) e h in
      let there_is : elem symbol.name (note s.name found) ≡ true =
        subst (λ (t : SourceSymbol). elem t.name (note s.name found) ≡ true) (sym e)
          (note_self s.name found) in
      rw named (model_loop-grows symbol.name symbols (note s.name found) there_is)
  model_loop-finds symbol (s ∷ symbols) found (there m) h = model_loop-finds symbol symbols _ m h

-- Where fewer than ten models are found, the targets of a prompt are exactly the names of the model
-- symbols that the prompt names, each of them once.
pub extract_model_targets_lem :
    (lower : Text → Text) (prompt name : Text) (symbols : List SourceSymbol)
    → length (extract_model_targets lower prompt symbols) < 10
    → IsDistinct (extract_model_targets lower prompt symbols)
      × (In name (extract_model_targets lower prompt symbols) ↔ (
          (symbol : SourceSymbol) × In symbol symbols
          × (name ≡ symbol.name)
          × (names_model lower (lower prompt) symbol ≡ true)))
unfolding extract_model_targets
extract_model_targets_lem lower prompt name symbols fewer =
    let found = model_loop lower (lower prompt) symbols [] in
    (
      take-IsDistinct 10 found (model_loop-IsDistinct lower (lower prompt) symbols [] tt),
      (
        λ m.
            elim (model_loop_sound lower (lower prompt) name symbols [] (In-take name 10 found m)) [
              | inl n ↦ elim n [ ]
              | inr it ↦ it
            ],
        λ (symbol, m, e, h). rw (take_all 10 found fewer) (
            subst (λ (t : Text). In t found) (sym e)
              (elem-In symbol.name found
                (model_loop-finds lower (lower prompt) symbol symbols [] m h))),
      ),
    )
