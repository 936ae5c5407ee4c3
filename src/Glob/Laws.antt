-- ===== src/Glob/Laws.antt =====
-- `fnmatchcase` against an independent description of what a pattern means, the fuel of the
-- parser, and the two shapes of pattern that grants are written in: a plain resource, and a
-- plain beginning followed by `*`.
use pi_development_agent.Base.{
  ℕ, zero, suc, ◌≤◌, ◌<◌, Text, Bool, true, false, ◌&&◌, ◌||◌, List, [], ◌∷◌, ◌++◌, some, ◌==◌,
  nat_Eq, list_Eq, length, starts_with, map, All, arith, ◌≡◌, refl, ◌≢◌, ◌↔◌, ◌⊎◌, inl, inr,
  Option-cases,
}
use pi_development_agent.Glob.{
  Piece, star, one, lit, set, upto_bracket, closed, bracket, pieces_go, pieces, accepts, matches,
  fnmatchcase,
}

-- What a pattern means: a `*` stands for any text, every other piece for one character.
pub data Matches : List Piece → Text → Type 0 where
  done : Matches [] []
  skip : {ps : List Piece} (pre s t : Text) → t ≡ pre ++ s → Matches ps s → Matches (star ∷ ps) t
  next :
      {p : Piece} {ps : List Piece} {c : ℕ} {cs : Text}
      → accepts p c ≡ true
      → Matches ps cs
      → Matches (p ∷ ps) (c ∷ cs)

or_cases : (a b : Bool) → (a || b) ≡ true → (a ≡ true) ⊎ (b ≡ true)
or_cases a b h = ground arith

and_left : (a b : Bool) → (a && b) ≡ true → a ≡ true
and_left a b h = ground arith

and_right : (a b : Bool) → (a && b) ≡ true → b ≡ true
and_right a b h = ground arith

skip_more :
    {ps : List Piece} (c : ℕ) {t : Text} → Matches (star ∷ ps) t → Matches (star ∷ ps) (c ∷ t)
unfolding accepts
skip_more c (skip pre s t e m) = skip (c ∷ pre) s (c ∷ t) (ground arith) m
skip_more c (next h m) = cc

matches_sound : (ps : List Piece) (t : Text) → matches ps t ≡ true → Matches ps t
unfolding matches
matches_sound [] [] h = done
matches_sound [] (c ∷ cs) h = cc
matches_sound (star ∷ ps) [] h = skip [] [] [] refl (matches_sound ps [] h)
matches_sound (star ∷ ps) (c ∷ cs) h = elim (or_cases _ _ h) [
  | inl now ↦ skip [] (c ∷ cs) (c ∷ cs) refl (matches_sound ps (c ∷ cs) now)
  | inr later ↦ skip_more c (matches_sound (star ∷ ps) cs later)
]
matches_sound (one ∷ ps) [] h = cc
matches_sound (lit d ∷ ps) [] h = cc
matches_sound (set n rs ∷ ps) [] h = cc
matches_sound (one ∷ ps) (c ∷ cs) h = next refl (matches_sound ps cs h)
matches_sound (lit d ∷ ps) (c ∷ cs) h =
    next (and_left _ _ h) (matches_sound ps cs (and_right _ _ h))
matches_sound (set n rs ∷ ps) (c ∷ cs) h =
    next (and_left _ _ h) (matches_sound ps cs (and_right _ _ h))

-- A `*` goes on over a text that it has been matched past.
star_past :
    (ps : List Piece) (pre s : Text) → matches ps s ≡ true → matches (star ∷ ps) (pre ++ s) ≡ true
unfolding matches
star_past ps [] [] h = h
star_past ps [] (c ∷ s) h = rw h
star_past ps (d ∷ pre) s h = ground (arith, star_past ps pre s h)

matches_complete : {ps : List Piece} {t : Text} → Matches ps t → matches ps t ≡ true
unfolding matches
matches_complete done = refl
matches_complete (skip {ps} pre s t e m) = rw e (star_past ps pre s (matches_complete m))
matches_complete (next {p = star} h m) = cc
matches_complete (next {p = one} h m) = matches_complete m
matches_complete (next {p = lit d} h m) = ground (arith, matches_complete m)
matches_complete (next {p = set n rs} h m) = ground (arith, matches_complete m)

-- The backtracking matcher decides the meaning of its pattern, for every list of pieces and every
-- text.
pub matches_iff : (ps : List Piece) (t : Text) → (matches ps t ≡ true) ↔ Matches ps t
matches_iff ps t = (matches_sound ps t, matches_complete)

upto_shorter :
    (t inside after : Text) → upto_bracket t ≡ some (inside, after) → length after < length t
unfolding upto_bracket
upto_shorter [] inside after h = cc
upto_shorter (c ∷ cs) inside after h = elim (Option-cases (upto_bracket cs)) [
  | inl e ↦ ground arith
  | inr (p, e) ↦ ground (arith, upto_shorter cs p.0 p.1 e)
]

closed_shorter :
    (n : Bool) (t : Text) (p : Piece) (after : Text)
    → closed n t ≡ some (p, after)
    → length after < length t
unfolding closed
closed_shorter n [] p after h = cc
closed_shorter n (c ∷ cs) p after h = elim (Option-cases (upto_bracket cs)) [
  | inl e ↦ ground arith
  | inr (q, e) ↦ ground (arith, upto_shorter cs q.0 q.1 e)
]

bracket_shorter :
    (t : Text) (p : Piece) (after : Text) → bracket t ≡ some (p, after) → length after < length t
unfolding bracket
bracket_shorter [] p after h = cc
bracket_shorter (c ∷ cs) p after h =
    ground (arith, closed_shorter true cs p after, closed_shorter false (c ∷ cs) p after)

fuel_irrelevant : (f g : ℕ) (t : Text) → length t ≤ f → length t ≤ g → pieces_go f t ≡ pieces_go g t
unfolding pieces_go
fuel_irrelevant zero zero t h k = refl
fuel_irrelevant zero (suc g) [] h k = refl
fuel_irrelevant zero (suc g) (c ∷ cs) h k = absurd (omega arith)
fuel_irrelevant (suc f) zero [] h k = refl
fuel_irrelevant (suc f) zero (c ∷ cs) h k = absurd (omega arith)
fuel_irrelevant (suc f) (suc g) [] h k = refl
fuel_irrelevant (suc f) (suc g) (c ∷ cs) h k = elim (Option-cases (bracket cs)) [
  | inl e ↦ ground (arith, fuel_irrelevant f g cs)
  | inr (q, e) ↦
      ground (arith, fuel_irrelevant f g cs, bracket_shorter cs q.0 q.1 e, fuel_irrelevant f g q.1)
]

-- The parser never runs out of fuel: with any fuel that is at least the length of the pattern it
-- gives the same pieces.
pub pieces_fuel : (f : ℕ) (t : Text) → length t ≤ f → pieces_go f t ≡ pieces t
unfolding pieces
pieces_fuel f t h = fuel_irrelevant f (length t) t h (omega arith)

-- A character that has no meaning of its own in a pattern.
abbrev pub IsPlain : ℕ → Type 0
IsPlain c = (c ≢ b'*') × (c ≢ b'?') × (c ≢ b'[')

plain_go :
    (p rest : Text)
    → All IsPlain p
    → pieces_go (length (p ++ rest)) (p ++ rest) ≡ map lit p ++ pieces_go (length rest) rest
unfolding pieces_go
plain_go [] rest h = refl
plain_go (c ∷ p) rest h = ground (arith, plain_go p rest h.1)

plain_only : (p : Text) → All IsPlain p → pieces_go (length p) p ≡ map lit p
unfolding pieces_go
plain_only [] h = refl
plain_only (c ∷ p) h = ground (arith, plain_only p h.1)

match_plain : (p t : Text) → matches (map lit p) t ≡ (t == p)
unfolding matches accepts
match_plain [] [] = refl
match_plain [] (c ∷ t) = refl
match_plain (d ∷ p) [] = refl
match_plain (d ∷ p) (c ∷ t) = ground (arith, match_plain p t)

match_star : (t : Text) → matches (star ∷ []) t ≡ true
unfolding matches
match_star [] = refl
match_star (c ∷ t) = ground (arith, match_star t)

match_prefix : (p t : Text) → matches (map lit p ++ star ∷ []) t ≡ starts_with p t
unfolding matches accepts
match_prefix [] t = match_star t
match_prefix (d ∷ p) [] = refl
match_prefix (d ∷ p) (c ∷ t) = ground (arith, match_prefix p t)

-- A pattern with no special character matches exactly the text that it spells.
pub fnmatchcase-plain : (p t : Text) → All IsPlain p → fnmatchcase t p ≡ (t == p)
unfolding fnmatchcase
fnmatchcase-plain p t h = rw (plain_only p h) (match_plain p t)

-- A plain beginning followed by `*` matches exactly the texts that begin so, whatever characters
-- follow, `/` among them.
pub fnmatchcase-prefix :
    (p t : Text) → All IsPlain p → fnmatchcase t (p ++ b'*' ∷ []) ≡ starts_with p t
unfolding fnmatchcase
fnmatchcase-prefix p t h = rw (plain_go p (b'*' ∷ []) h) (match_prefix p t)
