-- ===== src/Verification/Checkers/Spectral/Passes.antt =====
-- What src/arxdb/verification/checkers/spectral_check.py has found where it passes.
use arxdb.Base.{
  ℕ, ◌≡◌, refl, ap, ◌∙◌, Bool, true, false, Option, none, some, nat_beq, if◌then◌else◌, nat_eq,
  bytes_eq, pair_eq,
}
use arxdb.Base.Strings.{Strings, strip}
use arxdb.Base.Result.{ok}
use arxdb.Verification.Schema.{Text, Node, k2}
use arxdb.Verification.Checkers.{CheckerResult, handle, run_bounded}
use arxdb.Verification.Checkers.Runs.{handle-some, continue_with_ok, or_timed_out_passed}
use arxdb.Verification.Checkers.Backends.{Numpy}
use arxdb.Verification.Checkers.Cas.{cut}
use arxdb.Verification.Checkers.Spectral.{
  is_evaluation_failure, evaluate_property, judge_property, check_claim, check,
}

module _ ⦃u : Strings⦄ ⦃n : Numpy⦄ where
  -- The property that the claim names was computed for its matrix and holds.
  pub record HasProperty (parts : Option (Text × Text)) : Type 0 where
    pub prop : Text
    pub expr : Text
    pub timer : Option ℕ
    pub names_property : parts ≡ some (prop, expr)
    pub holds : (evaluate_property (strip prop) (strip expr) timer).0 ≡ ok true

  judge_property_passed :
      (o : Option Bool) (result : CheckerResult)
      → judge_property o ≡ result
      → result.passed ≡ true
      → (result.kappa ≡ k2) × (o ≡ some true)
  judge_property_passed none result h p = absurd (cc (h, p))
  judge_property_passed (some true) result h p = (cc h, refl)
  judge_property_passed (some false) result h p = absurd (cc (h, p))

  check_claim_passed :
      (parts : Option (Text × Text)) (timer : Option ℕ) (result : CheckerResult)
      → (check_claim parts timer).0 ≡ ok result
      → result.passed ≡ true
      → (result.kappa ≡ k2) × HasProperty parts
  unfolding check_claim
  check_claim_passed none timer result h p = absurd (cc (h, p))
  check_claim_passed (some (prop, expr)) timer result h p =
      let computed = evaluate_property (strip prop) (strip expr) timer in
      let (o, q, h') = continue_with_ok (handle is_evaluation_failure computed) _ result h in
      let (k, e) = judge_property_passed o result (cc h') p in
      (
        k,
        record {
          prop = prop;
          expr = expr;
          timer = timer;
          names_property = refl;
          holds = handle-some is_evaluation_failure computed true (q ∙ ap ok e);
        },
      )

  pub check_passed :
      (c : Node) (timeout : ℕ) (result : CheckerResult)
      → check c timeout ≡ ok result
      → result.passed ≡ true
      → (result.kappa ≡ k2) × HasProperty (cut b' ' (strip c.claim))
  unfolding check run_bounded
  check_passed c timeout result h p =
      let timer : Option ℕ = if nat_beq timeout 0 then none else some timeout in
      check_claim_passed (cut b' ' (strip c.claim)) timer result
        (or_timed_out_passed (check_claim (cut b' ' (strip c.claim)) timer).0 result h p) p
