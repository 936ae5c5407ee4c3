-- ===== src/Runner/Ledger.antt =====
-- The file of the nonces that were used: `run_deploy` appends to it, and `main` reads it when the runner
-- starts, by `str.splitlines`.
use pi_development_agent.Base.{
  ℕ, Text, nat_Eq, leb, ◌==◌, Bool, true, false, not, ◌&&◌, ◌||◌, List, [], ◌∷◌, ◌++◌, all, All,
  append_assoc, append_nil, if◌then◌else◌, arith, ◌≡◌, refl, ap, ◌∙◌, sym,
}

-- where `str.splitlines` ends a line; reading the file has made every CR and CR LF a line feed
unfoldable pub is_line_break : ℕ → Bool
is_line_break c =
    (leb 10 c && leb c 13) || (leb 28 c && leb c 30) || c == 133 || c == 8232 || c == 8233

-- `cut` is the line that is being read
unfoldable pub split_from : Text → Text → List Text
split_from [] [] = []
split_from (c ∷ cut) [] = (c ∷ cut) ∷ []
split_from cut (c ∷ text) =
    let open_line = split_from (cut ++ c ∷ []) text in
    let next_line = split_from [] text in if is_line_break c then cut ∷ next_line else open_line

unfoldable pub read_ledger : Text → List Text
read_ledger text = split_from [] text

unfoldable pub write_nonce : Text → Text → Text
write_nonce nonce ledger = ledger ++ (nonce ++ b'\n' ∷ [])

-- nonces in the order in which they were used
unfoldable pub write_nonces : List Text → Text → Text
write_nonces [] ledger = ledger
write_nonces (n ∷ nonces) ledger = write_nonces nonces (write_nonce n ledger)

abbrev pub IsPlain : Text → Type 0
IsPlain nonce = all (λ c. not (is_line_break c)) nonce ≡ true

-- the lines of some nonces
unfoldable pub lines_text : List Text → Text
lines_text [] = []
lines_text (n ∷ nonces) = n ++ b'\n' ∷ lines_text nonces

IsPlain-head : (c : ℕ) (nonce : Text) → IsPlain (c ∷ nonce) → is_line_break c ≡ false
IsPlain-head c nonce p = ground arith

IsPlain-tail : (c : ℕ) (nonce : Text) → IsPlain (c ∷ nonce) → IsPlain nonce
IsPlain-tail c nonce p = ground arith

split_from-line :
    (cut nonce rest : Text)
    → IsPlain nonce
    → split_from cut (nonce ++ b'\n' ∷ rest) ≡ (cut ++ nonce) ∷ split_from [] rest
unfolding split_from is_line_break
split_from-line [] [] rest p = refl
split_from-line (d ∷ cut) [] rest p =
    ap (λ line. line ∷ split_from [] rest) (sym (append_nil (d ∷ cut)))
split_from-line cut (c ∷ nonce) rest p =
    let inside : is_line_break c ≡ false = IsPlain-head c nonce p in
    ap
      (λ b.
        if b
        then cut ∷ split_from [] (nonce ++ b'\n' ∷ rest)
        else split_from (cut ++ c ∷ []) (nonce ++ b'\n' ∷ rest))
      inside
    ∙ split_from-line (cut ++ c ∷ []) nonce rest (IsPlain-tail c nonce p)
    ∙ ap (λ line. line ∷ split_from [] rest) (append_assoc cut (c ∷ []) nonce)

pub read-lines :
    (nonces : List Text) → All IsPlain nonces → read_ledger (lines_text nonces) ≡ nonces
unfolding lines_text read_ledger split_from
read-lines [] p = refl
read-lines (n ∷ nonces) p =
    split_from-line [] n (lines_text nonces) p.0 ∙ ap (λ t. n ∷ t) (read-lines nonces p.1)

pub write-lines :
    (nonces : List Text) (n : Text)
    → write_nonce n (lines_text nonces) ≡ lines_text (nonces ++ n ∷ [])
unfolding write_nonce lines_text
write-lines [] n = refl
write-lines (m ∷ nonces) n =
    let kept : lines_text nonces ++ (n ++ b'\n' ∷ []) ≡ lines_text (nonces ++ n ∷ []) =
      write-lines nonces n in
    append_assoc m (b'\n' ∷ lines_text nonces) (n ++ b'\n' ∷ []) ∙ ap (λ t. m ++ b'\n' ∷ t) kept

write_nonces-lines :
    (ms nonces : List Text) → write_nonces nonces (lines_text ms) ≡ lines_text (ms ++ nonces)
unfolding write_nonces
write_nonces-lines ms [] = ap lines_text (sym (append_nil ms))
write_nonces-lines ms (n ∷ nonces) =
    ap (write_nonces nonces) (write-lines ms n)
    ∙ write_nonces-lines (ms ++ n ∷ []) nonces
    ∙ ap lines_text (append_assoc ms (n ∷ []) nonces)

-- The nonces that a runner has written, where none of them has a line break in it, are those that
-- the next runner reads, in this order.
pub read_ledger-write_nonces :
    (nonces : List Text) → All IsPlain nonces → read_ledger (write_nonces nonces []) ≡ nonces
unfolding lines_text
read_ledger-write_nonces nonces p =
    ap read_ledger (write_nonces-lines [] nonces) ∙ read-lines nonces p
