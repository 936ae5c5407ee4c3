-- ===== src/Workspace/Examples.antt =====
-- Paths in a workspace.
use pi_development_agent.Base.{
  codes, strip, is_space, lstrip, nat_Eq, list_Eq, ◌==◌, true, false, [], ◌∷◌, Option, none, some,
  if◌then◌else◌, ◌≡◌, refl,
}
use pi_development_agent.Workspace.{
  Parts, relative, split_path, follow, walk, start_of, is_relative_to, outside, found, parts_of,
  resolve,
}
use pi_development_agent.Workspace.Laws.{IsEscape, resolve-outside}

abbrev root : Parts
root = codes "ws" ∷ []

-- one symbolic link, to a directory beside the workspace
abbrev links : Parts → Option Parts
links at = if at == codes "link" ∷ root then some (codes "outside" ∷ []) else none

escaping : resolve (λ p. none) root (λ p. true) (codes "a/../../etc") false ≡ outside
unfolding resolve parts_of relative split_path walk follow start_of is_relative_to strip lstrip
    is_space
escaping = refl

root_itself : resolve (λ p. none) root (λ p. true) (codes "./") true ≡ found root
unfolding resolve parts_of relative split_path walk follow start_of is_relative_to strip lstrip
    is_space
root_itself = refl

rooted : resolve (λ p. none) root (λ p. true) (codes "/.//etc") true ≡ found (codes "etc" ∷ root)
unfolding resolve parts_of relative split_path walk follow start_of is_relative_to strip lstrip
    is_space
rooted = refl

resolve-outside_example : IsEscape links root
unfolding resolve parts_of relative split_path walk follow start_of is_relative_to strip lstrip
    is_space
resolve-outside_example =
    resolve-outside links root (λ p. true) (codes "link/secret.txt") false refl refl
