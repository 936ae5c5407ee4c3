-- ===== src/Base/Maps.antt =====
-- Python's `dict` as an association list with at most one entry for a key; the program reads the
-- order of a dict's entries nowhere that is modelled with these.
use mathlib.Core.Path.{◌≡◌, refl}
use mathlib.Core.Option.{Option, none, some}
use mathlib.Core.List.{List, [], ◌∷◌}
use native.Mathlib.Omega.{arith}
use pi_development_agent.Base.Tests.{if◌then◌else◌}
use pi_development_agent.Base.Equality.{Eq, ◌==◌, ==_refl}

abbrev pub Dict {ℓ} : Type ℓ → Type ℓ → Type ℓ
Dict K V = List (K × V)

module _ {ℓ} {K V : Type ℓ} ⦃e : Eq K⦄ where
  unfoldable pub lookup : K → Dict K V → Option V
  lookup key ((at, value) ∷ rest) = if at == key then some value else lookup key rest
  lookup key [] = none

  unfoldable pub insert : K → V → Dict K V → Dict K V
  insert key new ((at, old) ∷ rest) =
      if at == key then (key, new) ∷ rest else (at, old) ∷ insert key new rest
  insert key new [] = (key, new) ∷ []

  unfoldable pub delete : K → Dict K V → Dict K V
  delete k [] = []
  delete k ((j, w) ∷ m) = let rest = delete k m in if j == k then rest else (j, w) ∷ rest

  pub lookup-insert :
      (key asked : K) (new : V) (dict : Dict K V)
      → lookup asked (insert key new dict) ≡ (if key == asked then some new else lookup asked dict)
  unfolding insert lookup
  lookup-insert key asked new ((at, old) ∷ rest) =
      let eq = e.same_iff in
      ground
        (arith, lookup-insert key asked new rest, ==_refl key, eq at key, eq at asked, eq key asked)
  lookup-insert key asked new [] = refl

  pub lookup-delete :
      (k j : K) (m : Dict K V) → lookup j (delete k m) ≡ (if k == j then none else lookup j m)
  unfolding lookup delete
  lookup-delete k j [] = ground arith
  lookup-delete k j ((i, w) ∷ m) =
      ground (arith, e.same_iff k j, e.same_iff i k, e.same_iff i j, ==_refl k, lookup-delete k j m)

  pub lookup-insert_self : (k : K) (v : V) (m : Dict K V) → lookup k (insert k v m) ≡ some v
  lookup-insert_self k v m = simp (lookup-insert, ==_refl)

  pub ruleset dict_laws = (lookup-insert, lookup-delete, ==_refl)
