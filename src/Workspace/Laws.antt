-- ===== src/Workspace/Laws.antt =====
-- Where a resolved path lies.
use pi_development_agent.Base.{
  Text, codes, strip, nat_Eq, list_Eq, ◌==◌, ◌||◌, ==_refl, Bool, true, false, [], ◌∷◌, any,
  starts_with, Option, some, Option-cases, Bool-cases, inl, inr, arith, ◌≡◌, refl,
}
use pi_development_agent.Workspace.{
  Parts, is_up, relative, follow, walk, start_of, is_relative_to, outside, parts_of, resolve,
}

self-relative : (root : Parts) → is_relative_to root root ≡ true
unfolding is_relative_to
self-relative [] = refl
self-relative (part ∷ above) = ground (arith, ==_refl (part ∷ above))

push-relative :
    (root : Parts) (part : Text) (at : Parts)
    → is_relative_to root at ≡ true
    → is_relative_to root (part ∷ at) ≡ true
unfolding is_relative_to
push-relative root part at h = ground arith

-- The loop leaves no absolute path.
relative-first : (clean : Text) → starts_with (codes "/") (relative clean) ≡ false
unfolding relative
relative-first [] = refl
relative-first (c ∷ []) = ground arith
relative-first (c ∷ d ∷ text) = ground (arith, relative-first (d ∷ text), relative-first text)

start_of-relative : (root : Parts) (clean : Text) → start_of root (relative clean) ≡ root
unfolding start_of
start_of-relative root clean = rw (relative-first clean) refl

-- a symbolic link below a directory that leads to a place which is not
pub record IsEscape (links : Parts → Option Parts) (root : Parts) : Type 0 where
  pub link : Parts
  pub target : Parts
  pub below : is_relative_to root link ≡ true
  pub leads : links link ≡ some target
  pub out : is_relative_to root target ≡ false

module _ (links : Parts → Option Parts) (root : Parts) where
  -- Without a step up a walk leaves a directory only by a link.
  walk-IsEscape :
      (at parts : Parts)
      → any is_up parts ≡ false
      → is_relative_to root at ≡ true
      → is_relative_to root (walk links at parts) ≡ false
      → IsEscape links root
  unfolding walk follow
  walk-IsEscape at [] h below left = absurd (ground arith)
  walk-IsEscape at (part ∷ parts) h below left =
      elim (Bool-cases (part == [] || part == codes ".")) [
        | inl here' ↦ walk-IsEscape at parts (ground arith) below (ground arith)
        | inr named ↦ elim (Option-cases (links (part ∷ at))) [
          | inl plain ↦
              walk-IsEscape (part ∷ at) parts (ground arith) (push-relative root part at below)
                (ground arith)
          | inr (target, leads) ↦ elim (Bool-cases (is_relative_to root target)) [
            | inl in' ↦ walk-IsEscape target parts (ground arith) in' (ground arith)
            | inr out ↦ record {
              link = part ∷ at;
              target = target;
              below = push-relative root part at below;
              leads = leads;
              out = out;
            }
          ]
        ]
      ]

-- A path without a part `..` is refused as lying outside the workspace only where the workspace has a
-- symbolic link that leads out of it; the slashes that the path begins with, and what there is on
-- the disk, do not matter.
pub resolve-outside :
    (links : Parts → Option Parts) (root : Parts) (exists : Parts → Bool) (path : Text)
    (must_exist : Bool)
    → any is_up (parts_of path) ≡ false
    → resolve links root exists path must_exist ≡ outside
    → IsEscape links root
unfolding resolve
resolve-outside links root exists path must_exist h refused =
    let from = start_of-relative root (strip path) in
    let left : is_relative_to root (walk links root (parts_of path)) ≡ false =
      let e = rw from at refused in ground arith in
    walk-IsEscape links root root (parts_of path) h (self-relative root) left
