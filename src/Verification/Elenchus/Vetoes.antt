-- ===== src/Verification/Elenchus/Vetoes.antt =====
-- When the predicates of src/arxdb/verification/elenchus.py fire.
use arxdb.Base.{
  any-keep, ◌≡◌, refl, sym, inl, inr, Bool, true, false, not, ◌&&◌, ◌||◌, Option, none, some, List,
  [], ◌∷◌, map, if◌then◌else◌, is_empty, is_empty_iff, Bool-cases, ◌==◌, nat_eq, bytes_eq, pair_eq,
  any, keep, contains,
}
use arxdb.Base.Strings.{Strings, strip}
use arxdb.Verification.Schema.{Text, Node, EdgeType}
use arxdb.Verification.Elenchus.{
  Flag, is_veto, is_cross_domain, is_derivational, is_circularity_type, category_error,
  self_model_leak, non_sequitur, empty_rule, circularity, circularity_flag, first_shared, classify,
  tokens, claim_tokens, claim_and_rule, set_of,
}
use arxdb.Verification.Elenchus.Texts.{hard_domains, self_model_terms}
use arxdb.Verification.Elenchus.Sets.{contains-set_of}

abbrev pub vetoes : Option Flag → Bool
vetoes none = false
vetoes (some f) = is_veto f

abbrev pub passes : Option Flag → Bool
passes none = true
passes (some f) = false

-- The outcome of a predicate that vetoes exactly if a test holds.
abbrev pub Vetoes : Option Flag → Bool → Type 0
Vetoes o b = (vetoes o ≡ b) × (passes o ≡ not b)

guards-Vetoes :
    (a b : Bool) (f : Flag)
    → is_veto f ≡ true
    → Vetoes (if a then none else if b then none else some f) (not a && not b)
guards-Vetoes true b f h = (refl, refl)
guards-Vetoes false true f h = (refl, refl)
guards-Vetoes false false f h = (h, refl)

contains-map :
    (f : Node → Text) (t : Text) (ns : List Node) → contains (map f ns) t ≡ any (λ n. t == f n) ns
unfolding contains any
contains-map f t [] = refl
contains-map f t (n ∷ ns) = rw (contains-map f t ns) refl

-- The domain of the conclusion is the domain of no premise.
abbrev pub is_foreign : List Node → Node → EdgeType → Bool
is_foreign ps c t =
    not (is_empty ps || is_cross_domain t) && not (any (λ (p : Node). c.domain == p.domain) ps)

module _ (ps : List Node) (c : Node) (r : Text) (t : EdgeType) where
  pub category_error-Vetoes : Vetoes (category_error ps c r t) (is_foreign ps c t)
  unfolding category_error
  category_error-Vetoes =
      rw
        (
          sym (contains-map (λ (p : Node). p.domain) c.domain ps),
          sym (contains-set_of c.domain (map (λ (p : Node). p.domain) ps)),
        )
        (guards-Vetoes (is_empty ps || is_cross_domain t)
          (contains (set_of (map (λ (p : Node). p.domain) ps)) c.domain) _ refl)

module _ ⦃u : Strings⦄ (ps : List Node) (c : Node) (r : Text) (t : EdgeType) where
  -- A term of the self-model is a word of the claim or of the rule.
  abbrev pub is_leak : Bool
  is_leak =
      not (not (contains hard_domains c.domain) || is_cross_domain t)
      && any (contains (tokens (claim_and_rule c r))) self_model_terms

  pub self_model_leak-Vetoes : Vetoes (self_model_leak ps c r t) is_leak
  unfolding self_model_leak
  self_model_leak-Vetoes = rw (any-keep (contains (tokens (claim_and_rule c r))) self_model_terms) (
      guards-Vetoes (not (contains hard_domains c.domain) || is_cross_domain t)
        (is_empty (keep (contains (tokens (claim_and_rule c r))) self_model_terms)) _ refl)

  -- The conclusion has a word that no premise has.
  abbrev pub is_novel : Bool
  is_novel =
      not (is_empty ps || not (is_derivational t))
      && any (λ w. not (contains (claim_tokens [] ps) w)) (tokens c.claim)

  pub non_sequitur-Vetoes : Vetoes (non_sequitur ps c r t) is_novel
  unfolding non_sequitur
  non_sequitur-Vetoes =
      rw (any-keep (λ w. not (contains (claim_tokens [] ps) w)) (tokens c.claim)) (
        guards-Vetoes (is_empty ps || not (is_derivational t))
          (is_empty (keep (λ w. not (contains (claim_tokens [] ps) w)) (tokens c.claim))) _ refl)

  pub empty_rule-none :
      (vetoes (empty_rule ps c r t) ≡ false)
      × (passes (empty_rule ps c r t) ≡ not (is_derivational t && is_empty (strip r)))
  unfolding empty_rule
  empty_rule-none = elim (Bool-cases (is_derivational t && is_empty (strip r))) [
    | inl unnamed ↦ rw unnamed (refl, refl)
    | inr named ↦ rw named (refl, refl)
  ]

  -- A premise shares a class with the conclusion.
  abbrev pub is_circular : Bool
  is_circular =
      not (is_empty ps || not (is_circularity_type t))
      && any (λ (p : Node). any (contains (classify p.claim)) (classify c.claim)) ps

module _ ⦃u : Strings⦄ where
  first_shared-Vetoes :
      (cs : List Text) (ps : List Node)
      → Vetoes
          (circularity_flag (first_shared cs ps))
          (any (λ (p : Node). any (contains (classify p.claim)) cs) ps)
  unfolding first_shared any circularity_flag
  first_shared-Vetoes cs [] = (refl, refl)
  first_shared-Vetoes cs (p ∷ ps) =
      elim (Bool-cases (is_empty (keep (contains (classify p.claim)) cs))) [
        | inl apart ↦
            rw (any-keep (contains (classify p.claim)) cs, apart) (first_shared-Vetoes cs ps)
        | inr shared ↦ rw (any-keep (contains (classify p.claim)) cs, shared) (refl, refl)
      ]

  any-no_classes :
      (ps : List Node) → any (λ (p : Node). any (contains (classify p.claim)) []) ps ≡ false
  unfolding any
  any-no_classes [] = refl
  any-no_classes (p ∷ ps) = any-no_classes ps

  pub circularity-Vetoes :
      (ps : List Node) (c : Node) (r : Text) (t : EdgeType)
      → Vetoes (circularity ps c r t) (is_circular ps c r t)
  unfolding circularity
  circularity-Vetoes ps c r t = elim (Bool-cases (is_empty ps || not (is_circularity_type t))) [
    | inl exempt ↦ rw exempt (refl, refl)
    | inr subject ↦ elim (Bool-cases (is_empty (classify c.claim))) [
      | inl none_known ↦
          rw
            (subject, none_known, (is_empty_iff (classify c.claim)).0 none_known, any-no_classes ps)
            (refl, refl)
      | inr known ↦ rw (subject, known) (first_shared-Vetoes (classify c.claim) ps)
    ]
  ]
