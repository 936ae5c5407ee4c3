-- ===== src/Permissions/Resource/Examples.antt =====
-- Patterns of grants at concrete resources.
use pi_development_agent.Base.{All, codes, nat_Eq, list_Eq, arith}
use pi_development_agent.Glob.Laws.{IsPlain}

sale-IsPlain : All IsPlain (codes "sale")
sale-IsPlain = (
  (omega arith, omega arith, omega arith),
  (
    (omega arith, omega arith, omega arith),
    ((omega arith, omega arith, omega arith), ((omega arith, omega arith, omega arith), tt)),
  ),
)
