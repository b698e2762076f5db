-- ===== src/Verification/Elenchus/Verdicts.antt =====
-- What the verdict of `evaluate` in src/arxdb/verification/elenchus.py says of an edge.
use arxdb.Base.{
  ◌≡◌, refl, subst, ◌≢◌, ◌↔◌, inl, inr, Bool, false, not, ◌&&◌, ◌||◌, Option, none, some, List, [],
  ◌∷◌, Memᴰ, arith, if◌then◌else◌, is_empty, nat_eq, bytes_eq, pair_eq, all, any,
}
use arxdb.Base.Strings.{is_empty-strip, Strings, strip}
use arxdb.Verification.Schema.{Text, Node, EdgeType, pass, hard_veto, soft_flag}
use arxdb.Verification.Elenchus.{Flag, is_veto, fired, verdict_of, evaluate, is_derivational}
use arxdb.Verification.Elenchus.Grounds.{
  IsRejectable, IsUnnamed, is_foreign_iff, is_leak_iff, is_novel_iff, is_circular_iff,
}
use arxdb.Verification.Elenchus.Vetoes.{
  Vetoes, vetoes, passes, is_foreign, is_leak, is_novel, is_circular, category_error-Vetoes,
  self_model_leak-Vetoes, non_sequitur-Vetoes, empty_rule-none, circularity-Vetoes,
}
use mathlib.Core.List.Memᴰ

any-fired : (os : List (Option Flag)) → any is_veto (fired os) ≡ any vetoes os
unfolding any fired
any-fired [] = refl
any-fired (none ∷ os) = any-fired os
any-fired (some f ∷ os) = rw (any-fired os) refl

is_empty-fired : (os : List (Option Flag)) → is_empty (fired os) ≡ all passes os
unfolding all fired
is_empty-fired [] = refl
is_empty-fired (none ∷ os) = is_empty-fired os
is_empty-fired (some f ∷ os) = refl

verdict-cases :
    (o1 o2 o3 o4 o5 : Option Flag) (a b n e d : Bool)
    → Vetoes o1 a
    → Vetoes o2 b
    → Vetoes o3 n
    → (vetoes o4 ≡ false) × (passes o4 ≡ not e)
    → Vetoes o5 d
    → verdict_of (fired (o1 ∷ o2 ∷ o3 ∷ o4 ∷ o5 ∷ []))
      ≡ (if a || (b || (n || d)) then hard_veto else if e then soft_flag else pass)
unfolding verdict_of any all
verdict-cases o1 o2 o3 o4 o5 a b n e d h1 h2 h3 h4 h5 =
    rw
      (
        any-fired (o1 ∷ o2 ∷ o3 ∷ o4 ∷ o5 ∷ []),
        is_empty-fired (o1 ∷ o2 ∷ o3 ∷ o4 ∷ o5 ∷ []),
        h1.0,
        h1.1,
        h2.0,
        h2.1,
        h3.0,
        h3.1,
        h4.0,
        h4.1,
        h5.0,
        h5.1,
      )
      (ground arith)

module _ ⦃u : Strings⦄ (ps : List Node) (c : Node) (r : Text) (t : EdgeType) where
  abbrev is_vetoed : Bool
  is_vetoed = is_foreign ps c t || (is_leak ps c r t || (is_novel ps c r t || is_circular ps c r t))

  pub evaluate_lem : (evaluate ps c r t).verdict ≡ (
      if is_vetoed
      then hard_veto
      else if is_derivational t && is_empty (strip r)
      then soft_flag
      else pass)
  unfolding evaluate
  evaluate_lem =
      verdict-cases _ _ _ _ _ (is_foreign ps c t) (is_leak ps c r t) (is_novel ps c r t)
        (is_derivational t && is_empty (strip r)) (is_circular ps c r t)
        (category_error-Vetoes ps c r t) (self_model_leak-Vetoes ps c r t)
        (non_sequitur-Vetoes ps c r t) (empty_rule-none ps c r t) (circularity-Vetoes ps c r t)

  -- The verdict of `evaluate` is HARD_VETO exactly if one of four grounds holds: the edge has
  -- premises, none of them has the domain of the conclusion, and it does not cross domains by type;
  -- the conclusion has a hard domain, its claim or the rule has a term of the self-model, and the
  -- edge does not cross domains by type; the edge has premises, is a deduction or numerical, and its
  -- conclusion has a word that no premise has; the edge is a deduction, numerical, spectral or a
  -- reduction, and one of its premises is in an equivalence class with the conclusion. Otherwise the
  -- verdict is SOFT_FLAG exactly if the edge is a deduction or numerical with a blank rule, and PASS
  -- exactly if not.
  pub evaluate-verdict :
      (((evaluate ps c r t).verdict ≡ hard_veto) ↔ IsRejectable ps c r t)
      × (((evaluate ps c r t).verdict ≡ soft_flag) ↔ (¬ IsRejectable ps c r t × IsUnnamed ps c r t))
      × (((evaluate ps c r t).verdict ≡ pass) ↔ (¬ IsRejectable ps c r t × ¬ IsUnnamed ps c r t))
  evaluate-verdict =
      rw (evaluate_lem, is_empty-strip r)
        (ground (
          arith,
          is_foreign_iff ps c r t,
          is_leak_iff ps c r t,
          is_novel_iff ps c r t,
          is_circular_iff ps c r t,
        ))

not_nil-as_set : (ps qs : List Node) → ps ≢ [] → ((p : Node) → Memᴰ p ps → Memᴰ p qs) → qs ≢ []
not_nil-as_set [] qs h f = absurd (h refl)
not_nil-as_set (p ∷ ps) qs h f = λ e. Memᴰ.not-nil (subst (Memᴰ p) e (f p (Memᴰ.head refl)))

module _ ⦃u : Strings⦄ (ps qs : List Node) (c : Node) (r : Text) (t : EdgeType)
    (same : (p : Node) → Memᴰ p ps ↔ Memᴰ p qs) where
  as_set-IsRejectable : IsRejectable ps c r t → IsRejectable qs c r t
  as_set-IsRejectable (inl (h, x, f)) =
      inl (not_nil-as_set ps qs h (λ p. (same p).0), x, λ p m. f p ((same p).1 m))
  as_set-IsRejectable (inr (inl h)) = inr (inl h)
  as_set-IsRejectable (inr (inr (inl (h, x, w, m, f)))) =
      inr (inr (inl (not_nil-as_set ps qs h (λ p. (same p).0), x, w, m, λ p n. f p ((same p).1 n))))
  as_set-IsRejectable (inr (inr (inr (x, p, m, eq, n, b, b')))) =
      inr (inr (inr (x, p, (same p).0 m, eq, n, b, b')))

module _ ⦃u : Strings⦄ (ps qs : List Node) (c : Node) (r : Text) (t : EdgeType) where
  -- The verdict depends on the premises only as a set: not on their order, and not on how often
  -- one is listed.
  pub evaluate_as_set :
      ((p : Node) → Memᴰ p ps ↔ Memᴰ p qs)
      → (evaluate ps c r t).verdict ≡ (evaluate qs c r t).verdict
  evaluate_as_set same =
      let forth = as_set-IsRejectable ps qs c r t same in
      let back = as_set-IsRejectable qs ps c r t (λ p. ((same p).1, (same p).0)) in
      ground (arith, evaluate-verdict ps c r t, evaluate-verdict qs c r t)
