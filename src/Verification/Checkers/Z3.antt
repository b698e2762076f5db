-- ===== src/Verification/Checkers/Z3.antt =====
-- src/arxdb/verification/checkers/z3_check.py
pub mod Passes
use arxdb.Base.{ℕ, Bool, true, false, Option, none, some, List, [], ◌∷◌, nat_eq, bytes_eq, pair_eq}
use arxdb.Base.Result.{Error, Result, value_error, syntax_error, name_error, type_error}
use arxdb.Verification.Schema.{Text, Node, k3}
use arxdb.Verification.Checkers.{
  CheckerResult, parse_error, counter_model_found, returned_unknown, passing, failing, Run, perform,
  done, raised, attempt, ◌>>=◌, run_bounded, or_timed_out,
}
use arxdb.Verification.Checkers.Backends.{Z3, Satisfiability, unsat, sat, unknown}

-- `except (ValueError, SyntaxError, NameError, TypeError)`
abbrev pub is_parse_failure : Error → Bool
is_parse_failure value_error = true
is_parse_failure syntax_error = true
is_parse_failure name_error = true
is_parse_failure type_error = true
is_parse_failure e = false

unfoldable pub judge : Satisfiability → CheckerResult
judge unsat = passing k3
judge sat = failing counter_model_found
judge unknown = failing returned_unknown

module _ ⦃z : Z3⦄ where
  abbrev pub as_bool : Option z.BoolRef → Run z.BoolRef
  as_bool none = raised value_error
  as_bool (some expr) = done expr

  unfoldable pub parse : Text → Run z.BoolRef
  unfolding perform
  parse claim = do expr ← perform (z.evaluate_formula claim); as_bool expr

  unfoldable pub parse_each : List Node → Run (List z.BoolRef)
  unfolding parse
  parse_each [] = done []
  parse_each (p ∷ ps) = do expr ← parse p.claim; exprs ← parse_each ps; done (expr ∷ exprs)

  unfoldable pub parse_all : List Node → Node → Run (List z.BoolRef × z.BoolRef)
  unfolding parse_each parse
  parse_all premises conclusion = do
    premise_exprs ← parse_each premises
    concl_expr ← parse conclusion.claim
    done (premise_exprs, concl_expr)

  unfoldable pub decide : ℕ → Option (List z.BoolRef × z.BoolRef) → Run CheckerResult
  unfolding perform judge
  decide timeout none = done (failing parse_error)
  decide timeout (some (premise_exprs, concl_expr)) = do
    result ← perform (z.solve timeout premise_exprs concl_expr)
    done (judge result)

  unfoldable pub check_entailment : List Node → Node → ℕ → Run CheckerResult
  unfolding parse_all decide
  check_entailment premises conclusion timeout = do
    exprs ← attempt is_parse_failure (parse_all premises conclusion)
    decide timeout exprs

  unfoldable pub check : List Node → Node → ℕ → Result CheckerResult
  unfolding check_entailment run_bounded or_timed_out
  check premises conclusion timeout =
      or_timed_out (run_bounded (check_entailment premises conclusion timeout) timeout)
