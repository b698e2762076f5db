-- ===== src/Verification/Verifier/Evidence.antt =====
-- What stands behind an edge that src/arxdb/verification/verifier.py accepts.
use arxdb.Base.{
  ℕ, ◌≡◌, refl, subst, inl, inr, true, false, Option, none, some, List, Bool-cases, nat_eq, Bytes,
  bytes_eq, pair_eq,
}
use arxdb.Base.Strings.{Strings, strip}
use arxdb.Base.Result.{ok}
use arxdb.Verification.Schema.{
  Text, Node, EdgeType, Kappa, definition, deduction, numerical, spectral, reduction, refutation,
  analogy, citation, k0, k1, k2, k3,
}
use arxdb.Verification.Elenchus.{ElenchusResult}
use arxdb.Verification.Checkers.{CheckerResult}
use arxdb.Verification.Checkers.Backends.{Sympy, Z3, Numpy, Lean}
use arxdb.Verification.Checkers.Roster.{check_roster}
use arxdb.Verification.Checkers.Cas.{cut}
use arxdb.Verification.Checkers.Lean.{given}
use arxdb.Verification.Checkers.Cas.Passes.{IsIdentity}
use arxdb.Verification.Checkers.Z3.Passes.{IsEntailed}
use arxdb.Verification.Checkers.Lean.Passes.{IsChecked}
use arxdb.Verification.Checkers.Spectral.Passes.{HasProperty}
use arxdb.Verification.Checkers.Cas.Passes as CasPasses
use arxdb.Verification.Checkers.Z3.Passes as Z3Passes
use arxdb.Verification.Checkers.Lean.Passes as LeanPasses
use arxdb.Verification.Checkers.Spectral.Passes as SpectralPasses
use arxdb.Verification.Checkers.Roster
use arxdb.Verification.Verifier.{
  Checker, roster_checker, lean_checker, z3_checker, cas_checker, spectral_checker, is_rejected,
  default_kappa, deduction_checker, checker_for, run_checker, conclude,
}

module _ ⦃u : Strings⦄ ⦃sy : Sympy⦄ ⦃z : Z3⦄ ⦃n : Numpy⦄ ⦃l : Lean⦄ (ps : List Node) (c : Node)
    (proof_bytes : Option Bytes) (timeout : ℕ) where
  -- What a checker has found, with the strength that it gives.
  abbrev pub Found : Checker → Kappa → Type 0
  Found roster_checker k = k ≡ check_roster c
  Found lean_checker k = (k ≡ k3) × IsChecked proof_bytes timeout
  Found z3_checker k = (k ≡ k3) × IsEntailed ps c timeout
  Found cas_checker k = (k ≡ k2) × IsIdentity (cut b'=' c.claim)
  Found spectral_checker k = (k ≡ k2) × HasProperty (cut b' ' (strip c.claim))

  -- What warrants the strength of an accepted edge: for a definition whether its claim is in the
  -- roster, for a deduction, a numerical and a spectral edge what the checker found; the other types
  -- have no checker, and only their fixed strength.
  abbrev pub IsWarranted : EdgeType → Kappa → Type 0
  IsWarranted definition k = Found roster_checker k
  IsWarranted deduction k = Found (deduction_checker (given proof_bytes)) k
  IsWarranted numerical k = Found cas_checker k
  IsWarranted spectral k = Found spectral_checker k
  IsWarranted reduction k = k ≡ k1
  IsWarranted refutation k = k ≡ k1
  IsWarranted analogy k = k ≡ k0
  IsWarranted citation k = k ≡ k1

  run_checker_passed :
      (who : Checker) (result : CheckerResult)
      → run_checker who ps c proof_bytes timeout ≡ ok result
      → result.passed ≡ true
      → Found who result.kappa
  unfolding run_checker
  run_checker_passed roster_checker result h p = unfold Roster.check in cc h
  run_checker_passed lean_checker result h p =
      LeanPasses.check_passed proof_bytes timeout result h p
  run_checker_passed z3_checker result h p = Z3Passes.check_passed ps c timeout result h p
  run_checker_passed cas_checker result h p = CasPasses.check_passed c timeout result h p
  run_checker_passed spectral_checker result h p = SpectralPasses.check_passed c timeout result h p

  pub conclude_accepted :
      (e : ElenchusResult) (t : EdgeType) (r : Text) (who : Checker) (result : CheckerResult)
      → run_checker who ps c proof_bytes timeout ≡ ok result
      → is_rejected (conclude e t r result) ≡ false
      → ((conclude e t r result).verdict ≡ e.verdict) × Found who (conclude e t r result).kappa
  unfolding conclude
  conclude_accepted e t r who result ran accepted = elim (Bool-cases result.passed) [
    | inl good ↦ rw good (refl, run_checker_passed who result ran good)
    | inr bad ↦ absurd (cc (rw bad at accepted))
  ]

  pub checker_for-IsWarranted :
      (t : EdgeType) (who : Checker) (k : Kappa)
      → checker_for t proof_bytes ≡ some who
      → Found who k
      → IsWarranted t k
  unfolding checker_for
  checker_for-IsWarranted definition who k e found =
      let same : who ≡ roster_checker = cc e in subst (λ w. Found w k) same found
  checker_for-IsWarranted deduction who k e found =
      let same : who ≡ deduction_checker (given proof_bytes) = cc e in
      subst (λ w. Found w k) same found
  checker_for-IsWarranted numerical who k e found =
      let same : who ≡ cas_checker = cc e in subst (λ w. Found w k) same found
  checker_for-IsWarranted spectral who k e found =
      let same : who ≡ spectral_checker = cc e in subst (λ w. Found w k) same found
  checker_for-IsWarranted _ who k e found = absurd (cc e)

  pub default_kappa-IsWarranted :
      (t : EdgeType) (k : Kappa)
      → checker_for t proof_bytes ≡ none
      → default_kappa t ≡ ok k
      → IsWarranted t k
  unfolding checker_for default_kappa
  default_kappa-IsWarranted reduction k e d = cc d
  default_kappa-IsWarranted refutation k e d = cc d
  default_kappa-IsWarranted analogy k e d = cc d
  default_kappa-IsWarranted citation k e d = cc d
  default_kappa-IsWarranted _ k e d = absurd (cc e)
