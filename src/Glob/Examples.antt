-- ===== src/Glob/Examples.antt =====
-- Runs of `fnmatchcase` on small inputs.
use pi_development_agent.Base.{true, false, codes, ◌≡◌, refl, nat_Eq, list_Eq}
use pi_development_agent.Glob.{fnmatchcase}

star_crosses_slashes : fnmatchcase (codes "workspace:a/b.py") (codes "workspace:a*") ≡ true
unfolding fnmatchcase
star_crosses_slashes = refl

sets : fnmatchcase (codes "a-x5") (codes "a-[!a-c][0-9]") ≡ true
unfolding fnmatchcase
sets = refl

set_refuses : fnmatchcase (codes "b") (codes "[!a-c]") ≡ false
unfolding fnmatchcase
set_refuses = refl

open_bracket_is_literal : fnmatchcase (codes "[a") (codes "[?") ≡ true
unfolding fnmatchcase
open_bracket_is_literal = refl
