-- ===== src/Base/Members.antt =====
-- `a in xs` as a test and as data.
use mathlib.Core.Path.{◌≡◌}
use mathlib.Core.Bool.{Bool, true}
use mathlib.Core.Logic.{inl, inr}
use mathlib.Core.List.{List, [], ◌∷◌}
use native.Mathlib.Omega.{arith}
use pi_development_agent.Base.Tests.{Bool-cases}
use pi_development_agent.Base.Equality.{Eq, ◌==◌, elem}
use pi_development_agent.Base.Lists.{In, here, there, all, all-In, All, All-In}

module _ {ℓ} {A : Type ℓ} ⦃e : Eq A⦄ where
  pub elem-In : (a : A) (xs : List A) → elem a xs ≡ true → In a xs
  unfolding elem
  elem-In a [] h = absurd (cc)
  elem-In a (x ∷ xs) h = elim (Bool-cases (a == x)) [
    | inl same ↦ here ((e.same_iff a x).0 same)
    | inr other ↦ there (elem-In a xs (ground arith))
  ]

  pub In-elem : (a : A) (xs : List A) → In a xs → elem a xs ≡ true
  unfolding elem
  In-elem a [] m = elim m [ ]
  In-elem a (x ∷ xs) (here p) = ground (arith, (e.same_iff a x).1 p)
  In-elem a (x ∷ xs) (there m) = ground (arith, In-elem a xs m)

  -- A fact that a computation finds for each member holds for a value that is found in the list.
  pub all-elem :
      (p : A → Bool) (a : A) (xs : List A) → all p xs ≡ true → elem a xs ≡ true → p a ≡ true
  all-elem p a xs h m = all-In p a xs h (elem-In a xs m)

  pub All-elem {κ} : (P : A → Type κ) (a : A) (xs : List A) → All P xs → elem a xs ≡ true → P a
  All-elem P a xs h m = All-In P a xs h (elem-In a xs m)
