-- ===== src/Verification/Checkers/Lean/Passes.antt =====
-- What src/arxdb/verification/checkers/lean_check.py has found where it passes.
use arxdb.Base.{
  ℕ, ◌≡◌, refl, inl, inr, true, Option, none, some, arith, Option-cases, nat_eq, Bytes, bytes_eq,
  pair_eq,
}
use arxdb.Base.Result.{bind_ok, timeout_expired, os_error, Result, ok, err}
use arxdb.Verification.Schema.{Text, k3}
use arxdb.Verification.Checkers.{CheckerResult}
use arxdb.Verification.Checkers.Backends.{Lean}
use arxdb.Verification.Checkers.Lean.{given, judge_exit, check_proof, check}

module _ ⦃l : Lean⦄ where
  -- The Lean binary accepted the proof: it ended with the code 0.
  pub record IsChecked (proof_bytes : Option Bytes) (timeout : ℕ) : Type 0 where
    pub binary : Text
    pub source : Bytes
    pub file : Text
    pub is_installed : l.lean_binary ≡ some binary
    pub is_given : given proof_bytes ≡ some source
    pub is_written : l.write_file source ≡ ok file
    pub exit_zero : l.run_binary binary file timeout ≡ ok 0

judge_exit_passed :
    (exit : Result ℕ) (result : CheckerResult)
    → judge_exit exit ≡ ok result
    → result.passed ≡ true
    → (result.kappa ≡ k3) × (exit ≡ ok 0)
unfolding judge_exit
judge_exit_passed (ok code) result h p = ground arith
judge_exit_passed (err timeout_expired) result h p = absurd (cc (h, p))
judge_exit_passed (err os_error) result h p = absurd (cc (h, p))
judge_exit_passed (err _) result h p = absurd (cc h)

module _ ⦃l : Lean⦄ where
  check_proof_passed :
      (binary : Text) (source : Option Bytes) (timeout : ℕ) (result : CheckerResult)
      → check_proof binary source timeout ≡ ok result
      → result.passed ≡ true
      → (result.kappa ≡ k3)
        × (s : Bytes) × (file : Text) × (source ≡ some s)
        × (l.write_file s ≡ ok file)
        × (l.run_binary binary file timeout ≡ ok 0)
  unfolding check_proof
  check_proof_passed binary none timeout result h p = absurd (cc (h, p))
  check_proof_passed binary (some s) timeout result h p =
      let (file, w, h') =
        bind_ok (l.write_file s) (λ f. judge_exit (l.run_binary binary f timeout)) result h in
      let (k, z) = judge_exit_passed (l.run_binary binary file timeout) result h' p in
      (k, s, file, refl, w, z)

  pub check_passed :
      (proof_bytes : Option Bytes) (timeout : ℕ) (result : CheckerResult)
      → check proof_bytes timeout ≡ ok result
      → result.passed ≡ true
      → (result.kappa ≡ k3) × IsChecked proof_bytes timeout
  unfolding check
  check_passed proof_bytes timeout result h p = elim (Option-cases l.lean_binary) [
    | inl missing ↦ absurd (cc (rw missing at h, p))
    | inr (binary, there) ↦
        let (k, s, file, g, w, z) =
          check_proof_passed binary (given proof_bytes) timeout result (rw there at h) p in
        (
          k,
          record {
            binary = binary;
            source = s;
            file = file;
            is_installed = there;
            is_given = g;
            is_written = w;
            exit_zero = z;
          },
        )
  ]
