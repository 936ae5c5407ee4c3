-- ===== src/Permissions/Grants/Order.antt =====
-- The grant that `_evaluate_grants` and `active_grant` act on.
use pi_development_agent.Base.{
  Text, true, false, List, [], ◌∷◌, Option, none, some, if◌then◌else◌, any, All, In, here, there,
  arith, ◌≡◌, refl, sym, subst, Option-cases, Bool-cases, inl, inr,
}
use pi_development_agent.Permissions.Grants.{
  Grant, Verdict, is_deny, PermissionDecision, key, key_le, insert_by, sort, head?, decision_of,
  evaluate_grants,
}

-- One pass over the grants: the first of those with the greatest key.
pub best : List Grant → Option Grant
best [] = none
best (g ∷ gs) = elim (best gs) [
  | none ↦ some g
  | some b ↦ if key_le (key b) (key g) then some g else some b
]

insert_top :
    (g : Grant) (hs : List Grant)
    → head? (insert_by g hs) ≡ (elim (head? hs) [
      | none ↦ some g
      | some h ↦ if key_le (key h) (key g) then some g else some h
    ])
unfolding insert_by head?
insert_top g [] = refl
insert_top g (h ∷ hs) = ground arith

-- Sorting and taking the first comes to the one pass.
pub head?-sort : (gs : List Grant) → head? (sort gs) ≡ best gs
unfolding sort best
head?-sort [] = unfold head? in refl
head?-sort (g ∷ gs) = rw (insert_top g (sort gs), head?-sort gs)

key_le_refl : (g : Grant) → key_le (key g) (key g) ≡ true
unfolding key_le key
key_le_refl g = ground arith

key_le_trans :
    (f g h : Grant)
    → key_le (key f) (key g) ≡ true
    → key_le (key g) (key h) ≡ true
    → key_le (key f) (key h) ≡ true
unfolding key_le key
key_le_trans f g h p q = ground arith

key_le_total : (g h : Grant) → key_le (key g) (key h) ≡ false → key_le (key h) (key g) ≡ true
unfolding key_le key
key_le_total g h p = ground arith

-- No grant of the list has a greater key than `top`.
abbrev pub IsTop : Grant → List Grant → Type 0
IsTop top gs = All (λ g. key_le (key g) (key top) ≡ true) gs

IsTop-mono :
    (b top : Grant) (gs : List Grant) → key_le (key b) (key top) ≡ true → IsTop b gs → IsTop top gs
IsTop-mono b top [] h t = tt
IsTop-mono b top (g ∷ gs) h t = (key_le_trans g b top t.0 h, IsTop-mono b top gs h t.1)

best-none : (gs : List Grant) → best gs ≡ none → gs ≡ []
unfolding best
best-none [] h = refl
best-none (g ∷ gs) h = ground arith

pub best-IsTop : (gs : List Grant) (top : Grant) → best gs ≡ some top → IsTop top gs
unfolding best
best-IsTop [] top h = cc
best-IsTop (g ∷ gs) top h = elim (Option-cases (best gs)) [
  | inl e ↦
      subst (λ t. IsTop t (g ∷ gs)) (ground arith)
        (subst (λ l. IsTop g (g ∷ l)) (sym (best-none gs e)) (key_le_refl g, tt))
  | inr (b, e) ↦ elim (Bool-cases (key_le (key b) (key g))) [
    | inl le ↦
        subst (λ t. IsTop t (g ∷ gs)) (ground arith)
          (key_le_refl g, IsTop-mono b g gs le (best-IsTop gs b e))
    | inr gt ↦ subst (λ t. IsTop t (g ∷ gs)) (ground arith) (key_le_total b g gt, best-IsTop gs b e)
  ]
]

pub best-In : (gs : List Grant) (top : Grant) → best gs ≡ some top → In top gs
unfolding best
best-In [] top h = cc
best-In (g ∷ gs) top h = elim (Option-cases (best gs)) [
  | inl e ↦ here (ground arith)
  | inr (b, e) ↦ elim (Bool-cases (key_le (key b) (key g))) [
    | inl le ↦ here (ground arith)
    | inr gt ↦ there (best-In gs top (ground arith))
  ]
]

-- The engine acts on a grant of the list, and no grant of the list has a greater key: a deny comes
-- before an allow, then a grant for the project before one for all, then one for the user.
pub evaluate_grants-IsTop :
    (gs : List Grant) (resource : Text) (d : PermissionDecision)
    → evaluate_grants gs resource ≡ some d
    → (top : Grant) × In top gs × IsTop top gs × (d ≡ decision_of resource top)
unfolding evaluate_grants
evaluate_grants-IsTop gs resource d h = elim (Option-cases (best gs)) [
  | inl e ↦ absurd (ground (arith, head?-sort gs))
  | inr (top, e) ↦ (
    top,
    best-In gs top e,
    best-IsTop gs top e,
    unfold decision_of in ground (arith, head?-sort gs),
  )
]

pub evaluate_grants-none :
    (gs : List Grant) (resource : Text) → evaluate_grants gs resource ≡ none → gs ≡ []
unfolding evaluate_grants
evaluate_grants-none gs resource h = best-none gs (ground (arith, head?-sort gs))

deny_on_top :
    (gs : List Grant) (top : Grant)
    → any (λ g. is_deny g.decision) gs ≡ true
    → IsTop top gs
    → top.decision ≡ Verdict.deny
unfolding key_le key
deny_on_top [] top h t = cc
deny_on_top (g ∷ gs) top h t = ground (arith, deny_on_top gs top)

best_deny :
    (gs : List Grant)
    → any (λ g. is_deny g.decision) gs ≡ true
    → (top : Grant) × (best gs ≡ some top) × (top.decision ≡ Verdict.deny)
best_deny gs h = elim (Option-cases (best gs)) [
  | inl e ↦ absurd (ground (arith, best-none gs e))
  | inr (top, e) ↦ (top, e, deny_on_top gs top h (best-IsTop gs top e))
]

-- With a deny among the grants the decision is a refusal that no approval lifts.
pub evaluate_grants-deny :
    (gs : List Grant) (resource : Text)
    → any (λ g. is_deny g.decision) gs ≡ true
    → (d : PermissionDecision) × (evaluate_grants gs resource ≡ some d)
      × (d.allowed ≡ false)
      × (d.requires_approval ≡ false)
unfolding evaluate_grants
evaluate_grants-deny gs resource h =
    let (top, e, deny) = best_deny gs h in
    (decision_of resource top, ground (arith, head?-sort gs), ground arith, ground arith)
