-- ===== src/Verification/Verifier.antt =====
-- src/arxdb/verification/verifier.py: the verdict and the strength of a proposed edge.
pub mod Evidence
pub mod Outcome
pub mod Strength
use arxdb.Base.{
  ℕ, zero, suc, Bool, true, false, Option, none, some, List, [], if◌then◌else◌, Eq, nat_eq, Bytes,
  bytes_eq, pair_eq,
}
use arxdb.Base.Strings.{Strings}
use arxdb.Base.Result.{Error, Result, ok, err, key_error, ◌>>=◌}
use arxdb.Verification.Schema.{
  Text, Node, EdgeType, Verdict, Kappa, definition, deduction, numerical, spectral, reduction,
  refutation, analogy, citation, pass, soft_flag, hard_veto, k0, k1,
}
use arxdb.Verification.Elenchus.{ElenchusResult, evaluate}
use arxdb.Verification.Checkers.{CheckerResult}
use arxdb.Verification.Checkers.Backends.{Sympy, Z3, Numpy, Lean}
use arxdb.Verification.Checkers.Lean.{given}
use arxdb.Verification.Checkers.Roster
use arxdb.Verification.Checkers.Cas
use arxdb.Verification.Checkers.Z3
use arxdb.Verification.Checkers.Lean
use arxdb.Verification.Checkers.Spectral

pub record VerificationResult : Type 0 where
  pub verdict : Verdict
  pub kappa : Kappa
  pub elenchus : ElenchusResult
  pub checker : Option CheckerResult
  pub edge_type : EdgeType
  pub rule : Text

abbrev pub is_hard_veto : Verdict → Bool
is_hard_veto hard_veto = true
is_hard_veto v = false

-- `VerificationResult.rejected`
abbrev pub is_rejected : VerificationResult → Bool
is_rejected v = is_hard_veto v.verdict

-- `_DEFAULT_KAPPA[edge_type]`
unfoldable pub default_kappa : EdgeType → Result Kappa
default_kappa reduction = ok k1
default_kappa refutation = ok k1
default_kappa analogy = ok k0
default_kappa citation = ok k1
default_kappa t = err key_error

pub data Checker : Type 0 where
  roster_checker lean_checker z3_checker cas_checker spectral_checker : Checker

abbrev pub deduction_checker : Option Bytes → Checker
deduction_checker none = z3_checker
deduction_checker (some source) = lean_checker

unfoldable pub checker_for : EdgeType → Option Bytes → Option Checker
checker_for definition proof_bytes = some roster_checker
checker_for deduction proof_bytes = some (deduction_checker (given proof_bytes))
checker_for numerical proof_bytes = some cas_checker
checker_for spectral proof_bytes = some spectral_checker
checker_for t proof_bytes = none

module _ ⦃u : Strings⦄ ⦃sy : Sympy⦄ ⦃z : Z3⦄ ⦃n : Numpy⦄ ⦃l : Lean⦄ where
  -- `checker.check(premises, conclusion, rule, proof_bytes, timeout_seconds)`
  unfoldable pub run_checker : Checker → List Node → Node → Option Bytes → ℕ → Result CheckerResult
  run_checker roster_checker premises conclusion proof_bytes timeout = Roster.check conclusion
  run_checker lean_checker premises conclusion proof_bytes timeout = Lean.check proof_bytes timeout
  run_checker z3_checker premises conclusion proof_bytes timeout =
      Z3.check premises conclusion timeout
  run_checker cas_checker premises conclusion proof_bytes timeout = Cas.check conclusion timeout
  run_checker spectral_checker premises conclusion proof_bytes timeout =
      Spectral.check conclusion timeout

-- The result for an edge that no checker or the given one has looked at.
abbrev pub outcome :
    ElenchusResult → EdgeType → Text → Verdict → Kappa → Option CheckerResult → VerificationResult
outcome e t r v k c = record {
  verdict = v;
  kappa = k;
  elenchus = e;
  checker = c;
  edge_type = t;
  rule = r;
}

-- A checker that fails rejects, one that passes gives its strength.
unfoldable pub conclude : ElenchusResult → EdgeType → Text → CheckerResult → VerificationResult
conclude e t r result =
    if result.passed
    then outcome e t r e.verdict result.kappa (some result)
    else outcome e t r hard_veto k0 (some result)

module _ ⦃u : Strings⦄ ⦃sy : Sympy⦄ ⦃z : Z3⦄ ⦃n : Numpy⦄ ⦃l : Lean⦄ where
  unfoldable pub check_formally :
      ElenchusResult
      → Option Checker
      → List Node
      → Node
      → Text
      → EdgeType
      → Option Bytes
      → ℕ
      → Result VerificationResult
  unfolding default_kappa conclude
  check_formally e none premises conclusion rule edge_type proof_bytes timeout = do
    k ← default_kappa edge_type
    ok (outcome e edge_type rule e.verdict k none)
  check_formally e (some checker) premises conclusion rule edge_type proof_bytes timeout = do
    result ← run_checker checker premises conclusion proof_bytes timeout
    ok (conclude e edge_type rule result)

  unfoldable pub verify :
      List Node → Node → Text → EdgeType → Option Bytes → ℕ → Result VerificationResult
  unfolding evaluate check_formally checker_for
  verify premises conclusion rule edge_type proof_bytes timeout =
      let e = evaluate premises conclusion rule edge_type in
      if is_hard_veto e.verdict
      then ok (outcome e edge_type rule hard_veto k0 none)
      else check_formally e (checker_for edge_type proof_bytes) premises conclusion rule edge_type
          proof_bytes timeout
