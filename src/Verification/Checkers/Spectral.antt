-- ===== src/Verification/Checkers/Spectral.antt =====
-- src/arxdb/verification/checkers/spectral_check.py: the dispatch on the property; the numbers are
-- those of numpy.
pub mod Passes
use arxdb.Base.{
  ℕ, Bool, true, false, ◌&&◌, Option, none, some, List, [], ◌∷◌, leb, nat_beq, if◌then◌else◌, ◌==◌,
  nat_eq, bytes_eq, pair_eq, length, keep,
}
use arxdb.Base.Strings.{Strings, codes, strip}
use arxdb.Base.Result.{
  Error, Result, value_error, syntax_error, name_error, type_error, zero_division_error,
}
use arxdb.Verification.Schema.{Text, Node, k2}
use arxdb.Verification.Checkers.{
  CheckerResult, malformed_claim, evaluation_error, property_failed, passing, failing, Run, perform,
  done, raised, attempt, ◌>>=◌, run_bounded, or_timed_out,
}
use arxdb.Verification.Checkers.Backends.{Numpy, ℤ, pos, negsuc}
use arxdb.Verification.Checkers.Cas.{cut}

-- `except (ValueError, SyntaxError, NameError, TypeError, ZeroDivisionError)`
abbrev pub is_evaluation_failure : Error → Bool
is_evaluation_failure value_error = true
is_evaluation_failure syntax_error = true
is_evaluation_failure name_error = true
is_evaluation_failure type_error = true
is_evaluation_failure zero_division_error = true
is_evaluation_failure e = false

abbrev pub rank_leq_prefix : Text
rank_leq_prefix = codes "rank_leq:"

-- `text[len(prefix):]` if `text.startswith(prefix)`
unfoldable pub after_prefix : Text → Text → Option Text
after_prefix [] text = some text
after_prefix (c ∷ cs) [] = none
after_prefix (c ∷ cs) (d ∷ ds) = let rest = after_prefix cs ds in if nat_beq c d then rest else none

abbrev pub at_most : ℕ → ℤ → Bool
at_most n (pos k) = leb n k
at_most n (negsuc k) = false

module _ ⦃n : Numpy⦄ where
  unfoldable pub is_square : List ℕ → Bool
  is_square (rows ∷ columns ∷ []) = nat_beq rows columns
  is_square shape = false

  unfoldable pub as_matrix : n.Object → Run n.Array
  unfolding perform is_square
  as_matrix obj = do
    arr ← perform (n.asarray obj)
    (if is_square (n.shape arr) then done arr else raised value_error)

  -- `sv[0] / sv[1] if len(sv) > 1 and sv[1] > 0 else float("inf")`
  unfoldable pub dominance : List n.Float → n.Float
  dominance (first ∷ second ∷ rest) =
      if n.less n.zero_float second then n.quotient first second else n.infinity
  dominance sv = n.infinity

  unfoldable pub check_self_adjoint : n.Array → Run Bool
  unfolding perform
  check_self_adjoint m = do
    hermitian_err ← perform (n.hermitian_err m)
    im_err ← perform (n.max_im_eig m)
    done (n.less hermitian_err n.default_tol && n.less im_err n.default_tol)

  unfoldable pub check_rank : Text → n.Array → Run Bool
  unfolding perform keep
  check_rank text m = do
    k ← perform (n.parse_int text)
    sv ← perform (n.svd m)
    done (at_most (length (keep (n.less n.default_tol) sv)) k)

  unfoldable pub check_other : Text → n.Array → Run Bool
  unfolding perform check_rank dominance after_prefix
  check_other prop m = elim (after_prefix rank_leq_prefix prop) [
    | some k ↦ check_rank k m
    | none ↦
        if prop == codes "low_rank"
        then (do sv ← perform (n.svd m); done (n.less n.ten_float (dominance sv)))
        else raised value_error
  ]

  -- `_check(prop, M, tol)`
  unfoldable pub check_property : Text → n.Array → Run Bool
  unfolding perform check_self_adjoint check_other
  check_property prop m =
      if prop == codes "self_adjoint"
      then check_self_adjoint m
      else if prop == codes "symmetric"
      then (do sym_err ← perform (n.symmetry_err m); done (n.less sym_err n.default_tol))
      else if prop == codes "real_spectrum"
      then (do im_err ← perform (n.max_im_eig m); done (n.less im_err n.default_tol))
      else if prop == codes "complex_spectrum"
      then (do im_err ← perform (n.max_im_eig m); done (n.less n.default_tol im_err))
      else check_other prop m

  unfoldable pub evaluate_property : Text → Text → Run Bool
  unfolding perform as_matrix check_property
  evaluate_property prop expr = do
    obj ← perform (n.evaluate_object expr)
    m ← as_matrix obj
    check_property prop m

  abbrev pub judge_property : Option Bool → CheckerResult
  judge_property none = failing evaluation_error
  judge_property (some true) = passing k2
  judge_property (some false) = failing property_failed

  unfoldable pub check_claim : ⦃u : Strings⦄ → Option (Text × Text) → Run CheckerResult
  unfolding evaluate_property strip
  check_claim none = done (failing malformed_claim)
  check_claim (some (prop, expr)) = do
    holds ← attempt is_evaluation_failure (evaluate_property (strip prop) (strip expr))
    done (judge_property holds)

  unfoldable pub check : ⦃u : Strings⦄ → Node → ℕ → Result CheckerResult
  unfolding strip cut check_claim run_bounded or_timed_out
  check conclusion timeout =
      or_timed_out (run_bounded (check_claim (cut b' ' (strip conclusion.claim))) timeout)
