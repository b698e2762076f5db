-- ===== src/Verification/Checkers/Cas/Passes.antt =====
-- What src/arxdb/verification/checkers/cas_check.py has found where it passes.
use arxdb.Base.{
  ℕ, ◌≡◌, refl, ap, ◌∙◌, inl, inr, true, Option, none, some, nat_beq, if◌then◌else◌, Bool-cases,
  nat_eq, bytes_eq, pair_eq,
}
use arxdb.Base.Result.{ok}
use arxdb.Verification.Schema.{Text, Node, k2}
use arxdb.Verification.Checkers.{CheckerResult, perform, handle, run_bounded}
use arxdb.Verification.Checkers.Runs.{
  perform_ok, handle-some, continue_with_ok, or_timed_out_passed,
}
use arxdb.Verification.Checkers.Backends.{Sympy}
use arxdb.Verification.Checkers.Cas.{
  cut, parse_sides, compare_sides, check_equation, any_exception, check,
}

module _ ⦃s : Sympy⦄ where
  -- Both sides of the equation were parsed, and their difference simplified to zero.
  pub record IsIdentity (sides : Option (Text × Text)) : Type 0 where
    pub lhs_s : Text
    pub rhs_s : Text
    pub lhs : s.Expr
    pub rhs : s.Expr
    pub is_equation : sides ≡ some (lhs_s, rhs_s)
    pub lhs_parsed : (s.parse_expr lhs_s).outcome ≡ ok lhs
    pub rhs_parsed : (s.parse_expr rhs_s).outcome ≡ ok rhs
    pub no_difference : (s.difference_is_zero lhs rhs).outcome ≡ ok true

  parse_sides_ok :
      (lhs_s rhs_s : Text) (timer : Option ℕ) (lhs rhs : s.Expr)
      → (parse_sides lhs_s rhs_s timer).0 ≡ ok (lhs, rhs)
      → ((s.parse_expr lhs_s).outcome ≡ ok lhs) × ((s.parse_expr rhs_s).outcome ≡ ok rhs)
  unfolding parse_sides
  parse_sides_ok lhs_s rhs_s timer lhs rhs h =
      let (x, hx, h') = continue_with_ok (perform (s.parse_expr lhs_s) timer) _ (lhs, rhs) h in
      let (y, hy, h'') =
        continue_with_ok (perform (s.parse_expr rhs_s) (perform (s.parse_expr lhs_s) timer).1) _
          (lhs, rhs) h' in
      (
        perform_ok (s.parse_expr lhs_s) timer lhs (cc (hx, h'')),
        perform_ok (s.parse_expr rhs_s) (perform (s.parse_expr lhs_s) timer).1 rhs (cc (hy, h'')),
      )

  compare_sides_passed :
      (sides : Option (s.Expr × s.Expr)) (timer : Option ℕ) (result : CheckerResult)
      → (compare_sides sides timer).0 ≡ ok result
      → result.passed ≡ true
      → (result.kappa ≡ k2)
        × (lhs : s.Expr) × (rhs : s.Expr) × (sides ≡ some (lhs, rhs))
        × ((s.difference_is_zero lhs rhs).outcome ≡ ok true)
  unfolding compare_sides
  compare_sides_passed none timer result h p = absurd (cc (h, p))
  compare_sides_passed (some (lhs, rhs)) timer result h p =
      let (equal, q, h') =
        continue_with_ok (perform (s.difference_is_zero lhs rhs) timer) _ result h in
      let r = perform_ok (s.difference_is_zero lhs rhs) timer equal q in
      elim (Bool-cases equal) [
        | inl same ↦ (cc (rw same at h'), lhs, rhs, refl, rw same at r)
        | inr different ↦ absurd (cc (rw different at h', p))
      ]

  check_equation_passed :
      (sides : Option (Text × Text)) (timer : Option ℕ) (result : CheckerResult)
      → (check_equation sides timer).0 ≡ ok result
      → result.passed ≡ true
      → (result.kappa ≡ k2) × IsIdentity sides
  unfolding check_equation
  check_equation_passed none timer result h p = absurd (cc (h, p))
  check_equation_passed (some (lhs_s, rhs_s)) timer result h p =
      let parsed = parse_sides lhs_s rhs_s timer in
      let (sides, q, h') = continue_with_ok (handle any_exception parsed) compare_sides result h in
      let (k, lhs, rhs, e, same) =
        compare_sides_passed sides (handle any_exception parsed).1 result h' p in
      let (l, r) =
        parse_sides_ok lhs_s rhs_s timer lhs rhs
          (handle-some any_exception parsed (lhs, rhs) (q ∙ ap ok e)) in
      (
        k,
        record {
          lhs_s = lhs_s;
          rhs_s = rhs_s;
          lhs = lhs;
          rhs = rhs;
          is_equation = refl;
          lhs_parsed = l;
          rhs_parsed = r;
          no_difference = same;
        },
      )

  pub check_passed :
      (c : Node) (timeout : ℕ) (result : CheckerResult)
      → check c timeout ≡ ok result
      → result.passed ≡ true
      → (result.kappa ≡ k2) × IsIdentity (cut b'=' c.claim)
  unfolding check run_bounded
  check_passed c timeout result h p =
      let timer : Option ℕ = if nat_beq timeout 0 then none else some timeout in
      check_equation_passed (cut b'=' c.claim) timer result
        (or_timed_out_passed (check_equation (cut b'=' c.claim) timer).0 result h p) p
