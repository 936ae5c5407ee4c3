-- ===== src/Glob.antt =====
-- `fnmatch.fnmatchcase` of the standard library, as `resource_matches` of backend/permissions.py
-- calls it: `*`, `?`, `[set]`, `[!set]` and literal characters, against the whole text. A pattern is
-- cut into pieces with the bracket rules of `fnmatch.translate`, and matched by trying each split
-- at a `*`. The fuel of `pieces_go` is the length of the pattern: each round takes a character.
pub mod Laws
mod Examples
use pi_development_agent.Base.{
  ℕ, zero, suc, Text, Bool, true, false, not, ◌&&◌, ◌||◌, List, [], ◌∷◌, Option, none, some, leb,
  if◌then◌else◌, ◌==◌, nat_Eq, any, length,
}

pub data Piece : Type 0 where
  star one : Piece
  lit : ℕ → Piece
  set : Bool → List (ℕ × ℕ) → Piece

-- `[seq]` as ranges: `a-b` is one, any other character is the range of itself. A `-` that stands
-- first, last or right behind a range is a character.
ranges : Text → List (ℕ × ℕ)
ranges [] = []
ranges (c ∷ []) = (c, c) ∷ []
ranges (c ∷ d ∷ []) = (c, c) ∷ (d, d) ∷ []
ranges (c ∷ d ∷ h ∷ rest) =
    let range = (c, h) ∷ ranges rest in
    let plain = (c, c) ∷ ranges (d ∷ h ∷ rest) in if d == b'-' then range else plain

-- What stands before the next `]`, and what stands behind it.
upto_bracket : Text → Option (Text × Text)
upto_bracket [] = none
upto_bracket (c ∷ cs) = elim (upto_bracket cs) [
  | none ↦ if c == b']' then some ([], cs) else none
  | some (inside, after) ↦ if c == b']' then some ([], cs) else some (c ∷ inside, after)
]

-- The first character of a set belongs to it, also if it is `]`.
closed : Bool → Text → Option (Piece × Text)
unfolding upto_bracket ranges
closed negated [] = none
closed negated (c ∷ cs) = elim (upto_bracket cs) [
  | none ↦ none
  | some (inside, after) ↦ some (set negated (ranges (c ∷ inside)), after)
]

bracket : Text → Option (Piece × Text)
unfolding closed
bracket [] = none
bracket (c ∷ cs) = if c == b'!' then closed true cs else closed false (c ∷ cs)

-- Where no bracket closes, `[` is a literal character.
pub pieces_go : ℕ → Text → List Piece
pieces_go zero text = []
pieces_go (suc f) [] = []
pieces_go (suc f) (c ∷ cs) =
    let plain = pieces_go f cs in
    let opened : List Piece = elim (bracket cs) [
      | none ↦ lit c ∷ plain
      | some (p, after) ↦ p ∷ pieces_go f after
    ] in
    if c == b'*'
    then star ∷ plain
    else if c == b'?'
    then one ∷ plain
    else if c == b'['
    then opened
    else lit c ∷ plain

pub pieces : Text → List Piece
unfolding pieces_go bracket
pieces pattern = pieces_go (length pattern) pattern

in_range : ℕ → ℕ × ℕ → Bool
in_range c (lo, hi) = leb lo c && leb c hi

pub accepts : Piece → ℕ → Bool
unfolding in_range
accepts star c = false
accepts one c = true
accepts (lit d) c = d == c
accepts (set negated rs) c =
    let inside = any (in_range c) rs in if negated then not inside else inside

pub matches : List Piece → Text → Bool
unfolding accepts
matches [] [] = true
matches [] (c ∷ cs) = false
matches (star ∷ ps) [] = matches ps []
matches (star ∷ ps) (c ∷ cs) = matches ps (c ∷ cs) || matches (star ∷ ps) cs
matches (p ∷ ps) [] = false
matches (p ∷ ps) (c ∷ cs) = accepts p c && matches ps cs

unfoldable pub fnmatchcase : Text → Text → Bool
unfolding pieces matches
fnmatchcase name pattern = matches (pieces pattern) name
