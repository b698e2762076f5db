-- ===== src/Verification/Checkers/Z3/Passes.antt =====
-- What src/arxdb/verification/checkers/z3_check.py has found where it passes.
use arxdb.Base.{
  ℕ, ◌≡◌, refl, ap, ◌∙◌, subst, true, Option, none, some, List, [], ◌∷◌, map, nat_beq,
  if◌then◌else◌, nat_eq, bytes_eq, pair_eq,
}
use arxdb.Base.Result.{ok}
use arxdb.Verification.Schema.{Text, Node, k3}
use arxdb.Verification.Checkers.{CheckerResult, perform, handle, run_bounded}
use arxdb.Verification.Checkers.Runs.{
  perform_ok, handle-some, continue_with_ok, or_timed_out_passed,
}
use arxdb.Verification.Checkers.Backends.{Z3, unsat, sat, unknown, Satisfiability}
use arxdb.Verification.Checkers.Z3.{
  as_bool, parse, parse_each, parse_all, decide, check_entailment, judge, is_parse_failure, check,
}

judge_passed :
    (a : Satisfiability) (result : CheckerResult)
    → judge a ≡ result
    → result.passed ≡ true
    → (result.kappa ≡ k3) × (a ≡ unsat)
unfolding judge
judge_passed unsat result h p = (cc h, refl)
judge_passed sat result h p = absurd (cc (h, p))
judge_passed unknown result h p = absurd (cc (h, p))

module _ ⦃z : Z3⦄ where
  -- The premises and the conclusion were read as formulas, and the solver found no counter-model.
  pub record IsEntailed (premises : List Node) (conclusion : Node) (timeout : ℕ) : Type 0 where
    pub premise_exprs : List z.BoolRef
    pub concl_expr : z.BoolRef
    pub premises_read :
        map (λ (p : Node). (z.evaluate_formula p.claim).outcome) premises
        ≡ map (λ e. ok (some e)) premise_exprs
    pub conclusion_read : (z.evaluate_formula conclusion.claim).outcome ≡ ok (some concl_expr)
    pub is_unsat : (z.solve timeout premise_exprs concl_expr).outcome ≡ ok unsat

  as_bool_ok :
      (o : Option z.BoolRef) (timer : Option ℕ) (expr : z.BoolRef)
      → (as_bool o timer).0 ≡ ok expr
      → o ≡ some expr
  as_bool_ok none timer expr h = absurd (cc h)
  as_bool_ok (some e) timer expr h = cc h

  parse_ok :
      (claim : Text) (timer : Option ℕ) (expr : z.BoolRef)
      → (parse claim timer).0 ≡ ok expr
      → (z.evaluate_formula claim).outcome ≡ ok (some expr)
  unfolding parse
  parse_ok claim timer expr h =
      let (o, q, h') = continue_with_ok (perform (z.evaluate_formula claim) timer) as_bool expr h in
      perform_ok (z.evaluate_formula claim) timer (some expr)
        (q ∙ ap ok (as_bool_ok o (perform (z.evaluate_formula claim) timer).1 expr h'))

  parse_each_ok :
      (ps : List Node) (timer : Option ℕ) (exprs : List z.BoolRef)
      → (parse_each ps timer).0 ≡ ok exprs
      → map (λ (p : Node). (z.evaluate_formula p.claim).outcome) ps ≡ map (λ e. ok (some e)) exprs
  unfolding parse_each
  parse_each_ok [] timer exprs h =
      let e : [] ≡ exprs = cc h in subst (λ es. [] ≡ map (λ e. ok (some e)) es) e refl
  parse_each_ok (p ∷ ps) timer exprs h =
      let (e, q, h') = continue_with_ok (parse p.claim timer) _ exprs h in
      let (es, q', h'') = continue_with_ok (parse_each ps (parse p.claim timer).1) _ exprs h' in
      let first = parse_ok p.claim timer e q in
      let rest = parse_each_ok ps (parse p.claim timer).1 es q' in
      let all_read : e ∷ es ≡ exprs = cc h'' in
      subst
        (λ xs.
          map (λ (p : Node). (z.evaluate_formula p.claim).outcome) (p ∷ ps)
          ≡ map (λ x. ok (some x)) xs)
        all_read (cc (first, rest))

  parse_all_ok :
      (ps : List Node) (c : Node) (timer : Option ℕ) (exprs : List z.BoolRef) (expr : z.BoolRef)
      → (parse_all ps c timer).0 ≡ ok (exprs, expr)
      → (map (λ (p : Node). (z.evaluate_formula p.claim).outcome) ps ≡ map (λ e. ok (some e)) exprs)
        × ((z.evaluate_formula c.claim).outcome ≡ ok (some expr))
  unfolding parse_all
  parse_all_ok ps c timer exprs expr h =
      let (es, q, h') = continue_with_ok (parse_each ps timer) _ (exprs, expr) h in
      let (e, q', h'') =
        continue_with_ok (parse c.claim (parse_each ps timer).1) _ (exprs, expr) h' in
      (
        parse_each_ok ps timer exprs (cc (q, h'')),
        parse_ok c.claim (parse_each ps timer).1 expr (cc (q', h'')),
      )

  decide_passed :
      (timeout : ℕ) (o : Option (List z.BoolRef × z.BoolRef)) (timer : Option ℕ)
      (result : CheckerResult)
      → (decide timeout o timer).0 ≡ ok result
      → result.passed ≡ true
      → (result.kappa ≡ k3)
        × (exprs : List z.BoolRef) × (expr : z.BoolRef) × (o ≡ some (exprs, expr))
        × ((z.solve timeout exprs expr).outcome ≡ ok unsat)
  unfolding decide judge
  decide_passed timeout none timer result h p = absurd (cc (h, p))
  decide_passed timeout (some (exprs, expr)) timer result h p =
      let (answer, q, h') =
        continue_with_ok (perform (z.solve timeout exprs expr) timer) _ result h in
      let answered = perform_ok (z.solve timeout exprs expr) timer answer q in
      let (k, e) = judge_passed answer result (cc h') p in
      (k, exprs, expr, refl, answered ∙ ap ok e)

  pub check_passed :
      (ps : List Node) (c : Node) (timeout : ℕ) (result : CheckerResult)
      → check ps c timeout ≡ ok result
      → result.passed ≡ true
      → (result.kappa ≡ k3) × IsEntailed ps c timeout
  unfolding check run_bounded check_entailment
  check_passed ps c timeout result h p =
      let timer : Option ℕ = if nat_beq timeout 0 then none else some timeout in
      let read = parse_all ps c timer in
      let (o, q, h') =
        continue_with_ok (handle is_parse_failure read) (decide timeout) result
          (or_timed_out_passed (check_entailment ps c timeout timer).0 result h p) in
      let (k, exprs, expr, e, proved) =
        decide_passed timeout o (handle is_parse_failure read).1 result h' p in
      let (l, r) =
        parse_all_ok ps c timer exprs expr
          (handle-some is_parse_failure read (exprs, expr) (q ∙ ap ok e)) in
      (
        k,
        record {
          premise_exprs = exprs;
          concl_expr = expr;
          premises_read = l;
          conclusion_read = r;
          is_unsat = proved;
        },
      )
