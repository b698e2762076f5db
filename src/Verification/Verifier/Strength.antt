-- ===== src/Verification/Verifier/Strength.antt =====
-- The strength that `verify` in src/arxdb/verification/verifier.py gives to an edge.
use arxdb.Base.{
  ℕ, ◌≤◌, ◌≡◌, refl, sym, ◌∙◌, subst, ◌≢◌, inl, inr, Option, none, some, List, Memᴰ, arith,
  Bool-cases, nat_eq, Bytes, bytes_eq, pair_eq, contains, contains_iff,
}
use arxdb.Base.Strings.{Strings}
use arxdb.Base.Result.{ok}
use arxdb.Verification.Schema.{
  Text, Node, EdgeType, Kappa, definition, deduction, numerical, spectral, reduction, refutation,
  analogy, citation, k0, k1, k2, k3, k_inf,
}
use arxdb.Verification.Kappa.{rank}
use arxdb.Verification.Checkers.Backends.{Sympy, Z3, Numpy, Lean}
use arxdb.Verification.Checkers.Roster.{check_roster, normalize, ground_claims}
use arxdb.Verification.Checkers.Lean.{given}
use arxdb.Verification.Verifier.{VerificationResult, is_rejected, deduction_checker, verify}
use arxdb.Verification.Verifier.Evidence.{IsWarranted, Found}
use arxdb.Verification.Verifier.Outcome.{verify_accepted, verify_rejected}

-- The strength that an edge of a type can get at most.
abbrev pub ceiling : EdgeType → Kappa
ceiling definition = k_inf
ceiling deduction = k3
ceiling numerical = k2
ceiling spectral = k2
ceiling analogy = k0
ceiling _ = k1

low_kappa :
    (X : Type 0) (k j : Kappa) (m : ℕ)
    → k ≡ j
    → rank j ≤ m
    → j ≢ k_inf
    → (rank k ≤ m) × (k ≡ k_inf → X)
low_kappa X k j m e below h = (rw e below, λ q. absurd (h (sym e ∙ q)))

k0_ne : k0 ≢ k_inf
k0_ne = λ h. cc

k1_ne : k1 ≢ k_inf
k1_ne = λ h. cc

k2_ne : k2 ≢ k_inf
k2_ne = λ h. cc

k3_ne : k3 ≢ k_inf
k3_ne = λ h. cc

module _ ⦃u : Strings⦄ ⦃sy : Sympy⦄ ⦃z : Z3⦄ ⦃n : Numpy⦄ ⦃l : Lean⦄ (ps : List Node) (c : Node)
    (proof_bytes : Option Bytes) (timeout : ℕ) where
  deduction_kappa :
      (who : Option Bytes) (k : Kappa)
      → Found ps c proof_bytes timeout (deduction_checker who) k
      → k ≡ k3
  deduction_kappa none k found = found.0
  deduction_kappa (some source) k found = found.0

  -- The strength is at most the ceiling, and the greatest one is a matter of the roster.
  abbrev IsEarned : EdgeType → Kappa → Type 0
  IsEarned t k =
      (rank k ≤ rank (ceiling t))
      × (k ≡ k_inf → (t ≡ definition) × Memᴰ (normalize c.claim) ground_claims)

  check_roster-IsEarned : IsEarned definition (check_roster c)
  unfolding check_roster
  check_roster-IsEarned = elim (Bool-cases (contains ground_claims (normalize c.claim))) [
    | inl listed ↦
        rw listed
          (omega arith, λ _. (refl, (contains_iff ground_claims (normalize c.claim)).0 listed))
    | inr unlisted ↦ rw unlisted (omega arith, λ q. absurd (k1_ne q))
  ]

  IsWarranted-IsEarned :
      (t : EdgeType) (k : Kappa) → IsWarranted ps c proof_bytes timeout t k → IsEarned t k
  IsWarranted-IsEarned definition k e = subst (IsEarned definition) (sym e) check_roster-IsEarned
  IsWarranted-IsEarned deduction k e =
      low_kappa _ k k3 3 (deduction_kappa (given proof_bytes) k e) (omega arith) k3_ne
  IsWarranted-IsEarned numerical k e = low_kappa _ k k2 2 e.0 (omega arith) k2_ne
  IsWarranted-IsEarned spectral k e = low_kappa _ k k2 2 e.0 (omega arith) k2_ne
  IsWarranted-IsEarned analogy k e = low_kappa _ k k0 0 e (omega arith) k0_ne
  IsWarranted-IsEarned reduction k e = low_kappa _ k k1 1 e (omega arith) k1_ne
  IsWarranted-IsEarned refutation k e = low_kappa _ k k1 1 e (omega arith) k1_ne
  IsWarranted-IsEarned citation k e = low_kappa _ k k1 1 e (omega arith) k1_ne

  -- The strength that `verify` gives is at most the ceiling of the type of the edge; and it is
  -- K_INF only for a definition whose normalized claim is in the roster of ground claims.
  pub verify-kappa :
      (r : Text) (t : EdgeType) (v : VerificationResult)
      → verify ps c r t proof_bytes timeout ≡ ok v
      → (rank v.kappa ≤ rank (ceiling t))
        × (v.kappa ≡ k_inf → (t ≡ definition) × Memᴰ (normalize c.claim) ground_claims)
  verify-kappa r t v h = elim (Bool-cases (is_rejected v)) [
    | inl rejected ↦
        low_kappa _ v.kappa k0 (rank (ceiling t))
          (verify_rejected ps c r t proof_bytes timeout v h rejected).0 (omega arith) k0_ne
    | inr accepted ↦
        IsWarranted-IsEarned t v.kappa (verify_accepted ps c r t proof_bytes timeout v h accepted).2
  ]
