-- ===== src/Verification/Checkers/Lean.antt =====
-- src/arxdb/verification/checkers/lean_check.py. The temporary file is deleted in any case, which
-- leaves no trace in the model.
pub mod Passes
use arxdb.Base.{
  ℕ, Option, none, some, [], ◌∷◌, nat_beq, if◌then◌else◌, nat_eq, Bytes, bytes_eq, pair_eq,
}
use arxdb.Base.Result.{Result, ok, err, os_error, timeout_expired, ◌>>=◌}
use arxdb.Verification.Schema.{Text, k3}
use arxdb.Verification.Checkers.{
  CheckerResult, binary_not_found, no_proof_supplied, lean_timed_out, failed_to_run, proof_rejected,
  passing, failing,
}
use arxdb.Verification.Checkers.Backends.{Lean}

-- `if not proof_bytes`
abbrev pub given : Option Bytes → Option Bytes
given none = none
given (some []) = none
given (some (x ∷ xs)) = some (x ∷ xs)

unfoldable pub judge_exit : Result ℕ → Result CheckerResult
judge_exit (err timeout_expired) = ok (failing lean_timed_out)
judge_exit (err os_error) = ok (failing failed_to_run)
judge_exit (err e) = err e
judge_exit (ok returncode) =
    ok (if nat_beq returncode 0 then passing k3 else failing proof_rejected)

module _ ⦃l : Lean⦄ where
  unfoldable pub check_proof : Text → Option Bytes → ℕ → Result CheckerResult
  unfolding judge_exit
  check_proof binary none timeout = ok (failing no_proof_supplied)
  check_proof binary (some source) timeout = do
    path ← l.write_file source
    judge_exit (l.run_binary binary path timeout)

  unfoldable pub check : Option Bytes → ℕ → Result CheckerResult
  unfolding check_proof
  check proof_bytes timeout = elim l.lean_binary [
    | none ↦ ok (failing binary_not_found)
    | some binary ↦ check_proof binary (given proof_bytes) timeout
  ]
