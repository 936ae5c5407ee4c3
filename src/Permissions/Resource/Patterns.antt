-- ===== src/Permissions/Resource/Patterns.antt =====
-- Which resources the pattern of a grant reaches.
use pi_development_agent.Base.{
  true, Text, [], ◌∷◌, ◌++◌, All, starts_with, ◌==◌, nat_Eq, list_Eq, ◌≡◌, ◌↔◌,
}
use pi_development_agent.Glob.{fnmatchcase, pieces}
use pi_development_agent.Glob.Laws.{
  Matches, matches_iff, IsPlain, fnmatchcase-plain, fnmatchcase-prefix,
}
use pi_development_agent.Permissions.Resource.{resource_matches}

-- A resource matches a pattern exactly when it can be cut into what the pattern's pieces stand for:
-- any text for a `*`, one accepted character for every other piece.
pub resource_matches_iff :
    (pattern resource : Text)
    → (resource_matches pattern resource ≡ true) ↔ Matches (pieces pattern) resource
unfolding resource_matches fnmatchcase
resource_matches_iff pattern resource = matches_iff (pieces pattern) resource

-- A pattern with no `*`, `?` or `[` reaches only the resource that it spells.
pub resource_matches-plain :
    (pattern resource : Text)
    → All IsPlain pattern
    → resource_matches pattern resource ≡ (resource == pattern)
unfolding resource_matches
resource_matches-plain pattern resource plain = fnmatchcase-plain pattern resource plain

-- A pattern that is a plain text and a final `*` reaches exactly the resources that begin with the
-- text, however many `/` follow.
pub resource_matches-prefix :
    (pattern resource : Text)
    → All IsPlain pattern
    → resource_matches (pattern ++ b'*' ∷ []) resource ≡ starts_with pattern resource
unfolding resource_matches
resource_matches-prefix pattern resource plain = fnmatchcase-prefix pattern resource plain
