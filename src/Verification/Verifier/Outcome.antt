-- ===== src/Verification/Verifier/Outcome.antt =====
-- What the result of `verify` in src/arxdb/verification/verifier.py says of an edge.
use arxdb.Base.{
  ℕ, ◌≡◌, refl, sym, ap, ◌∙◌, subst, ◌↔◌, ◌⊎◌, inl, inr, true, false, Option, none, some, List,
  arith, Bool-cases, nat_eq, Bytes, bytes_eq, pair_eq,
}
use arxdb.Base.Strings.{Strings}
use arxdb.Base.Result.{ok, bind_ok}
use arxdb.Verification.Schema.{Text, Node, EdgeType, Verdict, k0, hard_veto}
use arxdb.Verification.Elenchus.{ElenchusResult, evaluate}
use arxdb.Verification.Checkers.{CheckerResult}
use arxdb.Verification.Checkers.Backends.{Sympy, Z3, Numpy, Lean}
use arxdb.Verification.Verifier.{
  VerificationResult, Checker, is_hard_veto, is_rejected, default_kappa, checker_for, run_checker,
  outcome, conclude, check_formally, verify,
}
use arxdb.Verification.Verifier.Evidence.{
  IsWarranted, conclude_accepted, checker_for-IsWarranted, default_kappa-IsWarranted,
}
use arxdb.Verification.Elenchus.Grounds.{IsRejectable}
use arxdb.Verification.Elenchus.Verdicts.{evaluate-verdict}

is_hard_veto_iff : (v : Verdict) → (is_hard_veto v ≡ true) ↔ (v ≡ hard_veto)
is_hard_veto_iff v = ground arith

module _ ⦃u : Strings⦄ ⦃sy : Sympy⦄ ⦃z : Z3⦄ ⦃n : Numpy⦄ ⦃l : Lean⦄ (ps : List Node) (c : Node)
    (r : Text) (t : EdgeType) (proof_bytes : Option Bytes) (timeout : ℕ) where
  check_formally_accepted :
      (e : ElenchusResult) (o : Option Checker) (v : VerificationResult)
      → checker_for t proof_bytes ≡ o
      → check_formally e o ps c r t proof_bytes timeout ≡ ok v
      → is_rejected v ≡ false
      → (v.verdict ≡ e.verdict) × IsWarranted ps c proof_bytes timeout t v.kappa
  unfolding check_formally
  check_formally_accepted e none v o h accepted =
      let (k, d, h') = bind_ok (default_kappa t) (λ k. ok (outcome e t r e.verdict k none)) v h in
      let same : outcome e t r e.verdict k none ≡ v = cc h' in
      (
        sym (ap (λ (x : VerificationResult). x.verdict) same),
        subst (λ (x : VerificationResult). IsWarranted ps c proof_bytes timeout t x.kappa) same
            (default_kappa-IsWarranted ps c proof_bytes timeout t k o d),
      )
  check_formally_accepted e (some who) v o h accepted =
      let (result, ran, h') =
        bind_ok (run_checker who ps c proof_bytes timeout) (λ x. ok (conclude e t r x)) v h in
      let same : conclude e t r result ≡ v = cc h' in
      let (kept, found) =
        conclude_accepted ps c proof_bytes timeout e t r who result ran
          (ap is_rejected same ∙ accepted) in
      (
        sym (ap (λ (x : VerificationResult). x.verdict) same) ∙ kept,
        subst (λ (x : VerificationResult). IsWarranted ps c proof_bytes timeout t x.kappa) same
            (checker_for-IsWarranted ps c proof_bytes timeout t who _ o found),
      )

  -- An edge that `verify` accepts has none of the grounds for a veto, keeps the verdict of
  -- `evaluate`, and has a strength that is warranted by its type: a definition K_INF if its
  -- claim is in the roster and K1 if not, a deduction K3 with a solver that answered unsat or a Lean
  -- run that ended with 0, a numerical edge K2 with an equation that was checked, a spectral edge K2
  -- with a property of a matrix; the types without a checker have their fixed strength, an analogy
  -- K0 and the others K1.
  pub verify_accepted :
      (v : VerificationResult)
      → verify ps c r t proof_bytes timeout ≡ ok v
      → is_rejected v ≡ false
      → (v.verdict ≡ (evaluate ps c r t).verdict)
        × (¬ IsRejectable ps c r t)
        × IsWarranted ps c proof_bytes timeout t v.kappa
  unfolding verify
  verify_accepted v h accepted =
      let e = evaluate ps c r t in
      elim (Bool-cases (is_hard_veto e.verdict)) [
        | inl vetoed ↦ absurd (
            let same : outcome e t r hard_veto k0 none ≡ v = cc (rw vetoed at h) in
            cc (ap is_rejected same, accepted))
        | inr passed ↦
            let (kept, found) =
              check_formally_accepted e (checker_for t proof_bytes) v refl (rw passed at h)
                accepted in
            (
              kept,
              λ ground_of_veto.
                  cc (passed, ap is_hard_veto ((evaluate-verdict ps c r t).0.1 ground_of_veto)),
              found,
            )
      ]

  -- A checker ran to its end and did not pass.
  abbrev pub HasFailedCheck : Type 0
  HasFailedCheck =
      (who : Checker) × (result : CheckerResult) × (checker_for t proof_bytes ≡ some who)
      × (run_checker who ps c proof_bytes timeout ≡ ok result)
      × (result.passed ≡ false)

  check_formally_rejected :
      (e : ElenchusResult) (o : Option Checker) (v : VerificationResult)
      → is_hard_veto e.verdict ≡ false
      → checker_for t proof_bytes ≡ o
      → check_formally e o ps c r t proof_bytes timeout ≡ ok v
      → is_rejected v ≡ true
      → (v.kappa ≡ k0) × HasFailedCheck
  unfolding check_formally conclude
  check_formally_rejected e none v passed o h rejected =
      let (k, d, h') = bind_ok (default_kappa t) (λ k. ok (outcome e t r e.verdict k none)) v h in
      let same : outcome e t r e.verdict k none ≡ v = cc h' in
      absurd (cc (passed, ap is_rejected same, rejected))
  check_formally_rejected e (some who) v passed o h rejected =
      let (result, ran, h') =
        bind_ok (run_checker who ps c proof_bytes timeout) (λ x. ok (conclude e t r x)) v h in
      let same : conclude e t r result ≡ v = cc h' in
      elim (Bool-cases result.passed) [
        | inl good ↦
            let kept : outcome e t r e.verdict result.kappa (some result) ≡ v = rw good at same in
            absurd (cc (passed, ap is_rejected kept, rejected))
        | inr bad ↦
            let failed : outcome e t r hard_veto k0 (some result) ≡ v = rw bad at same in
            (sym (ap (λ (x : VerificationResult). x.kappa) failed), (who, result, o, ran, bad))
      ]

  -- An edge that `verify` rejects has the strength K0, and there is a ground for a veto or the
  -- checker of its type ran and did not pass.
  pub verify_rejected :
      (v : VerificationResult)
      → verify ps c r t proof_bytes timeout ≡ ok v
      → is_rejected v ≡ true
      → (v.kappa ≡ k0) × (IsRejectable ps c r t ⊎ HasFailedCheck)
  unfolding verify
  verify_rejected v h rejected =
      let e = evaluate ps c r t in
      elim (Bool-cases (is_hard_veto e.verdict)) [
        | inl vetoed ↦
            let same : outcome e t r hard_veto k0 none ≡ v = cc (rw vetoed at h) in
            (
              sym (ap (λ (x : VerificationResult). x.kappa) same),
              inl ((evaluate-verdict ps c r t).0.0 ((is_hard_veto_iff e.verdict).0 vetoed)),
            )
        | inr passed ↦
            let (zero_kappa, failed) =
              check_formally_rejected e (checker_for t proof_bytes) v passed refl (rw passed at h)
                rejected in
            (zero_kappa, inr failed)
      ]
