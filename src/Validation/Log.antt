-- ===== src/Validation/Log.antt =====
-- `_parse_odoo_log` of bridge_runner/runner.py. A digit is one of the ten of ASCII.
use pi_development_agent.Base.{
  ℕ, ◌+◌, ◌-◌, ◌*◌, leb, ltb, Text, codes, decimal, String, nat_Eq, list_Eq, ◌==◌, contains, Bool,
  not, ◌&&◌, ◌||◌, List, [], ◌∷◌, ◌++◌, any, Option, none, some, if◌then◌else◌,
}

pub record Check : Type 0 where
  pub name : String
  pub passed : Bool
  pub message : Text

abbrev is_digit : ℕ → Bool
is_digit c = leb b'0' c && leb c b'9'

-- the digits that a text begins with, and the rest
abbrev digits : Text → Text × Text
digits [] = ([], [])
digits (c ∷ cs) = let rest = digits cs in if is_digit c then (c ∷ rest.0, rest.1) else ([], c ∷ cs)

-- `\d+`
abbrev number : Text × Text → Option (Text × Text)
number ([], rest) = none
number (d ∷ ds, rest) = some (d ∷ ds, rest)

-- a literal part of a pattern
abbrev behind : Text → Text → Option Text
behind [] text = some text
behind (p ∷ ps) [] = none
behind (p ∷ ps) (c ∷ cs) = let rest = behind ps cs in if p == c then rest else none

abbrev then_ {ℓ κ} : {A : Type ℓ} {B : Type κ} → Option A → (A → Option B) → Option B
then_ none f = none
then_ (some a) f = f a

-- `re.search`: the first place where the pattern fits
abbrev search_from {ℓ} : {A : Type ℓ} → (Text → Option A) → Text → Option A
search_from pattern [] = pattern []
search_from pattern (c ∷ cs) =
    let later = search_from pattern cs in elim (pattern (c ∷ cs)) [ some a ↦ some a | none ↦ later ]

-- `Ran (\d+) tests?`
abbrev ran_pattern : Text → Option Text
ran_pattern text =
    then_ (behind (codes "Ran ") text)
      λ t. then_ (number (digits t)) λ (n, rest). then_ (behind (codes " test") rest) λ _. some n

-- `(\d+) failed, (\d+) error\(s\) of (\d+) tests`
abbrev summary_pattern : Text → Option (Text × Text × Text)
summary_pattern text = then_ (number (digits text)) λ (failed, t).
    then_ (behind (codes " failed, ") t) λ u. then_ (number (digits u)) λ (errors, v).
      then_ (behind (codes " error(s) of ") v) λ w.
        then_ (number (digits w))
          λ (count, rest). then_ (behind (codes " tests") rest) λ _. some (failed, errors, count)

-- `int`
abbrev value_of : ℕ → Text → ℕ
value_of sum [] = sum
value_of sum (d ∷ ds) = value_of (10 * sum + (d - b'0')) ds

abbrev failure_marks : List String
failure_marks = "CRITICAL" ∷ "ERROR odoo.modules" ∷ "Installation failed" ∷ "OperationalError" ∷ []

unfoldable pub install_failed : Text → Bool
install_failed output = any (λ mark. contains (codes mark) output) failure_marks

unfoldable pub unittest_ok : Text → Bool
unittest_ok output =
    contains (codes "Ran ") output
    && contains (codes "errors=0") output
    && contains (codes "failures=0") output
    && not (
        contains (codes "At least one test failed") output
        || contains (codes "FAIL:") output
        || contains (codes "ERROR:") output)

abbrev summary_ok : Bool → Option (Text × Text × Text) → Bool
summary_ok ok none = ok
summary_ok ok (some (failed, errors, count)) = failed == codes "0" && errors == codes "0"

unfoldable pub tests_ok : Text → Bool
tests_ok output = summary_ok (unittest_ok output) (search_from summary_pattern output)

abbrev count_of : Option Text → Option (Text × Text × Text) → ℕ
count_of ran (some (failed, errors, count)) = value_of 0 count
count_of (some n) none = value_of 0 n
count_of none none = 0

unfoldable pub test_count : Text → ℕ
test_count output = count_of (search_from ran_pattern output) (search_from summary_pattern output)

unfoldable pub log_checks : Text → List Check
log_checks output =
    record {
      name = "install_clean";
      passed = not (install_failed output);
      message =
          codes (if install_failed output then "Critical error detected" else "No critical errors");
    }
    ∷ (if ltb 0 (test_count output)
        then record {
          name = "tests_pass";
          passed = tests_ok output;
          message =
              decimal (test_count output)
              ++ codes (if tests_ok output then " tests ran" else " tests ran — failures present");
        }
          ∷ []
        else [])
