-- ===== src/Verification/Checkers/Cas.antt =====
-- src/arxdb/verification/checkers/cas_check.py
pub mod Passes
use arxdb.Base.{
  ℕ, Bool, true, Option, none, some, [], ◌∷◌, nat_beq, if◌then◌else◌, nat_eq, bytes_eq, pair_eq,
}
use arxdb.Base.Result.{Error, Result}
use arxdb.Verification.Schema.{Text, Node, k2}
use arxdb.Verification.Checkers.{
  CheckerResult, not_an_equation, parse_error, sides_not_equal, passing, failing, Run, perform,
  done, attempt, ◌>>=◌, run_bounded, or_timed_out,
}
use arxdb.Verification.Checkers.Backends.{Sympy}

-- `if "=" not in claim`, and otherwise `claim.split("=", 1)`
unfoldable pub cut : ℕ → Text → Option (Text × Text)
cut c [] = none
cut c (d ∷ rest) =
    let later = cut c rest in
    if nat_beq d c
    then some ([], rest)
    else elim later [ none ↦ none | some (before, after) ↦ some (d ∷ before, after) ]

-- `except Exception`
abbrev pub any_exception : Error → Bool
any_exception e = true

module _ ⦃s : Sympy⦄ where
  unfoldable pub parse_sides : Text → Text → Run (s.Expr × s.Expr)
  unfolding perform
  parse_sides lhs_s rhs_s = do
    lhs ← perform (s.parse_expr lhs_s)
    rhs ← perform (s.parse_expr rhs_s)
    done (lhs, rhs)

  unfoldable pub compare_sides : Option (s.Expr × s.Expr) → Run CheckerResult
  unfolding perform
  compare_sides none = done (failing parse_error)
  compare_sides (some (lhs, rhs)) = do
    equal ← perform (s.difference_is_zero lhs rhs)
    done (if equal then passing k2 else failing sides_not_equal)

  unfoldable pub check_equation : Option (Text × Text) → Run CheckerResult
  unfolding parse_sides compare_sides
  check_equation none = done (failing not_an_equation)
  check_equation (some (lhs_s, rhs_s)) = do
    sides ← attempt any_exception (parse_sides lhs_s rhs_s)
    compare_sides sides

  unfoldable pub check : Node → ℕ → Result CheckerResult
  unfolding cut check_equation run_bounded or_timed_out
  check conclusion timeout =
      or_timed_out (run_bounded (check_equation (cut b'=' conclusion.claim)) timeout)
