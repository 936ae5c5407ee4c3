-- ===== src/Workspace.antt =====
-- `Workspace.resolve` of backend/workspace.py: the path that the agent names, inside its workspace. A path
-- is the list of its parts, the last one first.
pub mod Laws
mod Examples
use pi_development_agent.Base.{
  ℕ, Text, codes, strip, nat_Eq, list_Eq, ◌==◌, Bool, true, false, not, ◌&&◌, ◌||◌, List, [], ◌∷◌,
  ◌++◌, starts_with, Option, none, some, if◌then◌else◌,
}

abbrev pub Parts : Type 0
Parts = List Text

-- the loop that takes off leading `/` and `./`
unfoldable pub relative : Text → Text
relative [] = []
relative (c ∷ []) = if c == b'/' then [] else c ∷ []
relative (c ∷ d ∷ text) =
    let behind_one = relative (d ∷ text) in
    let behind_two = relative text in
    if c == b'/' then behind_one else if c == b'.' && d == b'/' then behind_two else c ∷ d ∷ text

-- the parts between slashes; `part` is the one that is being read
unfoldable pub split_path : Text → Text → Parts
split_path part [] = part ∷ []
split_path part (c ∷ text) =
    let next = split_path [] text in
    let on = split_path (part ++ c ∷ []) text in if c == b'/' then part ∷ next else on

abbrev parent : Parts → Parts
parent [] = []
parent (part ∷ above) = above

abbrev pub is_up : Text → Bool
is_up part = part == codes ".."

abbrev is_here : Text → Bool
is_here part = part == [] || part == codes "."

-- What the symbolic links of the disk are: where there is one, `links` has the place that it leads
-- to, itself free of links.
unfoldable pub follow : (Parts → Option Parts) → Parts → Parts
follow links at = elim (links at) [ none ↦ at | some target ↦ target ]

-- `Path.resolve` from a directory on, each link followed as it is met
unfoldable pub walk : (Parts → Option Parts) → Parts → Parts → Parts
walk links at [] = at
walk links at (part ∷ parts) =
    if is_here part
    then walk links at parts
    else if is_up part
    then walk links (parent at) parts
    else walk links (follow links (part ∷ at)) parts

-- `self.root / clean`: an absolute path takes the place of the root
unfoldable pub start_of : Parts → Text → Parts
start_of root clean = if starts_with (codes "/") clean then [] else root

-- `candidate.is_relative_to(root)`
unfoldable pub is_relative_to : Parts → Parts → Bool
is_relative_to root [] = root == []
is_relative_to root (part ∷ above) = root == part ∷ above || is_relative_to root above

pub data Resolved : Type 0 where
  outside missing : Resolved
  found : Parts → Resolved

unfoldable pub parts_of : Text → Parts
parts_of path = split_path [] (relative (strip path))

-- `exists` says what there is on the disk.
unfoldable pub resolve : (Parts → Option Parts) → Parts → (Parts → Bool) → Text → Bool → Resolved
resolve links root exists path must_exist =
    let candidate = walk links (start_of root (relative (strip path))) (parts_of path) in
    if not (is_relative_to root candidate)
    then outside
    else if must_exist && not (exists candidate)
    then missing
    else found candidate
