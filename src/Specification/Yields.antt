-- ===== src/Specification/Yields.antt =====
-- A postcondition for code that may raise: it returns, and what it returns satisfies `P`.
use pi_development_agent.Base.{
  ℕ, suc, ◌+◌, List, [], ◌∷◌, length, Option, some, ◌≡◌, refl, arith, subst,
}
use pi_development_agent.Specification.Model.{◌>>=◌}
use pi_development_agent.Specification.Compile.{for_each}

pub data Yields {A : Type 0} (P : A → Type 0) : Option A → Type 0 where
  yields : (a : A) → P a → Yields P (some a)

pub Yields-bind :
    {A B : Type 0} {P : A → Type 0} {Q : B → Type 0} {o : Option A} (f : A → Option B)
    → Yields P o
    → ((a : A) → P a → Yields Q (f a))
    → Yields Q (o >>= f)
Yields-bind f (yields a p) next = next a p

pub Yields-some :
    {A : Type 0} {P : A → Type 0} (o : Option A) (a : A) → o ≡ some a → P a → Yields P o
Yields-some {P} o a e p = rw e (yields a p)

pub Yields-weaken :
    {A : Type 0} {P Q : A → Type 0} {o : Option A} → Yields P o → ((a : A) → P a → Q a) → Yields Q o
Yields-weaken (yields a p) weaker = yields a (weaker a p)

pub some-Yields :
    {A : Type 0} {P : A → Type 0} {o : Option A} → Yields P o → (a : A) × (o ≡ some a) × P a
some-Yields (yields a p) = (a, refl, p)

-- The rule of the loop; the number of rounds behind is an argument of the invariant.
pub for_each-Yields :
    {A S : Type 0} (P : ℕ → S → Type 0) (body : A → S → Option S)
    → ((x : A) (n : ℕ) (s : S) → P n s → Yields (P (suc n)) (body x s))
    → (xs : List A) (n j : ℕ) (s : S) → n + length xs ≡ j
    → P n s
    → Yields (P j) (for_each body xs s)
unfolding for_each
for_each-Yields P body keep [] n j s e p =
    let e' : n ≡ j = omega arith in yields s (subst (λ k. P k s) e' p)
for_each-Yields P body keep (x ∷ xs) n j s e p =
    Yields-bind (for_each body xs) (keep x n s p)
      λ next q. for_each-Yields P body keep xs (suc n) j next (omega arith) q
