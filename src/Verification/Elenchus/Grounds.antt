-- ===== src/Verification/Elenchus/Grounds.antt =====
-- For what reasons the predicates of src/arxdb/verification/elenchus.py veto an edge.
use arxdb.Base.{
  Memᴰ-not_empty, not-any_iff, ◌≡◌, refl, sym, ◌∙◌, subst, ◌≢◌, ◌↔◌, ◌⊎◌, inl, inr, true, false,
  not, List, [], Memᴰ, arith, is_empty_iff, any_iff, Bool-cases, ◌==◌, ==_false_of_ne,
  ne_of_==_false, nat_eq, bytes_eq, pair_eq, all, any, contains, contains_iff,
}
use arxdb.Base.Strings.{Strings, is_space}
use arxdb.Verification.Schema.{Text, Node, EdgeType}
use arxdb.Verification.Elenchus.{
  is_cross_domain, is_derivational, is_circularity_type, classify, tokens, claim_tokens,
  claim_and_rule, equivalence_classes, EquivalenceClass, rh_equivalence,
}
use arxdb.Verification.Elenchus.Texts.{hard_domains, self_model_terms}
use arxdb.Verification.Elenchus.Sets.{contains-claim_tokens, contains-classes_of, Belongs}
use arxdb.Verification.Elenchus.Vetoes.{is_foreign, is_leak, is_novel, is_circular}
use mathlib.Core.List.Memᴰ
use mathlib.Core.Logic.{⊎_elim}

-- What makes an edge one that must not be stored.
module _ ⦃u : Strings⦄ (ps : List Node) (c : Node) (r : Text) (t : EdgeType) where
  -- No premise has the domain of the conclusion.
  abbrev pub HasForeignDomain : Type 0
  HasForeignDomain =
      (ps ≢ []) × (is_cross_domain t ≡ false) × ((p : Node) → Memᴰ p ps → c.domain ≢ p.domain)

  -- A hard domain, with a term of the self-model among the words of the claim and the rule.
  abbrev pub HasLeak : Type 0
  HasLeak =
      Memᴰ c.domain hard_domains
      × (is_cross_domain t ≡ false)
      × (w : Text) × Memᴰ w self_model_terms
      × Memᴰ w (tokens (claim_and_rule c r))

  -- The conclusion has a content word that no premise has.
  abbrev pub HasNovelWord : Type 0
  HasNovelWord =
      (ps ≢ [])
      × (is_derivational t ≡ true)
      × (w : Text) × Memᴰ w (tokens c.claim)
      × ((p : Node) → Memᴰ p ps → ¬ Memᴰ w (tokens p.claim))

  -- A premise and the conclusion state members of one class of equivalent statements.
  abbrev pub IsCircular : Type 0
  IsCircular =
      (is_circularity_type t ≡ true)
      × (p : Node) × Memᴰ p ps
      × (eq : EquivalenceClass) × Memᴰ eq equivalence_classes
      × Belongs eq c.claim
      × Belongs eq p.claim

  -- An edge that must not be stored.
  abbrev pub IsRejectable : Type 0
  IsRejectable = HasForeignDomain ⊎ (HasLeak ⊎ (HasNovelWord ⊎ IsCircular))

  -- An edge that derives without a named rule.
  abbrev pub IsUnnamed : Type 0
  IsUnnamed = (is_derivational t ≡ true) × (all is_space r ≡ true)

  pub is_foreign_iff : (is_foreign ps c t ≡ true) ↔ HasForeignDomain
  is_foreign_iff =
      let absent : (not (any (λ (p : Node). c.domain == p.domain) ps) ≡ true)
          ↔ ((p : Node) → Memᴰ p ps → c.domain ≢ p.domain) =
        (
          λ h p m.
              ne_of_==_false c.domain p.domain
                ((not-any_iff (λ (p : Node). c.domain == p.domain) ps).0 h p m),
          λ h.
              (not-any_iff (λ (p : Node). c.domain == p.domain) ps).1
                (λ p m. ==_false_of_ne c.domain p.domain (h p m)),
        ) in
      ground (arith, is_empty_iff ps, absent)

  pub is_leak_iff : (is_leak ps c r t ≡ true) ↔ HasLeak
  is_leak_iff =
      let words = tokens (claim_and_rule c r) in
      let said : (any (contains words) self_model_terms ≡ true)
          ↔ ((w : Text) × Memᴰ w self_model_terms × Memᴰ w words) =
        (
          λ h.
              let (w, m, q) = (any_iff (contains words) self_model_terms).0 h in
              (w, m, (contains_iff words w).0 q),
          λ (w, m, q).
              (any_iff (contains words) self_model_terms).1 (w, m, (contains_iff words w).1 q),
        ) in
      ground (arith, contains_iff hard_domains c.domain, said)

  pub is_novel_iff : (is_novel ps c r t ≡ true) ↔ HasNovelWord
  unfolding contains
  is_novel_iff =
      let old : (w : Text)
          → (not (contains (claim_tokens [] ps) w) ≡ true)
            ↔ ((p : Node) → Memᴰ p ps → ¬ Memᴰ w (tokens p.claim)) =
        λ w. rw (contains-claim_tokens w [] ps) (
          λ h p m q. absurd (
              cc (
                (contains_iff (tokens p.claim) w).1 q,
                (not-any_iff (λ (p : Node). contains (tokens p.claim) w) ps).0 h p m,
              )),
          λ h. (not-any_iff (λ (p : Node). contains (tokens p.claim) w) ps).1 (λ p m.
              elim (Bool-cases (contains (tokens p.claim) w)) [
                | inl q ↦ absurd (h p m ((contains_iff (tokens p.claim) w).0 q))
                | inr q ↦ q
              ]),
        ) in
      let fresh : (any (λ w. not (contains (claim_tokens [] ps) w)) (tokens c.claim) ≡ true) ↔ (
          (w : Text) × Memᴰ w (tokens c.claim)
          × ((p : Node) → Memᴰ p ps → ¬ Memᴰ w (tokens p.claim))) =
        (
          λ h.
              let (w, m, q) =
                (any_iff (λ w. not (contains (claim_tokens [] ps) w)) (tokens c.claim)).0 h in
              (w, m, (old w).0 q),
          λ (w, m, q).
              (any_iff (λ w. not (contains (claim_tokens [] ps) w)) (tokens c.claim)).1
                (w, m, (old w).1 q),
        ) in
      ground (arith, is_empty_iff ps, fresh)

  pub is_circular_iff : (is_circular ps c r t ≡ true) ↔ IsCircular
  unfolding classify
  is_circular_iff =
      let only : (eq : EquivalenceClass) → Memᴰ eq equivalence_classes → eq ≡ rh_equivalence =
        λ eq m. ⊎_elim (λ e. e) (λ n. absurd (Memᴰ.not-nil n)) (Memᴰ.cases_cons m) in
      let shares : (p : Node)
          → (any (contains (classify p.claim)) (classify c.claim) ≡ true) ↔ (
              (eq : EquivalenceClass) × Memᴰ eq equivalence_classes
              × Belongs eq c.claim
              × Belongs eq p.claim) =
        λ p. (
          λ h.
              let (name, m, q) = (any_iff (contains (classify p.claim)) (classify c.claim)).0 h in
              let (eq, n, _, b) = (contains-classes_of name p.claim equivalence_classes).0 q in
              let (eq', n', _, b') =
                (contains-classes_of name c.claim equivalence_classes).0
                  ((contains_iff (classify c.claim) name).1 m) in
              (eq, n, subst (λ x. Belongs x c.claim) (only eq' n' ∙ sym (only eq n)) b', b),
          λ (eq, n, b', b). (any_iff (contains (classify p.claim)) (classify c.claim)).1 (
            eq.name,
            (contains_iff (classify c.claim) eq.name).0
                ((contains-classes_of eq.name c.claim equivalence_classes).1 (eq, n, refl, b')),
            (contains-classes_of eq.name p.claim equivalence_classes).1 (eq, n, refl, b),
          ),
        ) in
      let found : (any (λ (p : Node). any (contains (classify p.claim)) (classify c.claim)) ps
            ≡ true)
          ↔ ((p : Node) × Memᴰ p ps
              × (eq : EquivalenceClass) × Memᴰ eq equivalence_classes
              × Belongs eq c.claim
              × Belongs eq p.claim) =
        (
          λ h.
              let (p, m, q) =
                (any_iff (λ (p : Node). any (contains (classify p.claim)) (classify c.claim)) ps).0
                  h in
              let (eq, n, b, b') = (shares p).0 q in (p, m, eq, n, b, b'),
          λ (p, m, eq, n, b, b').
              (any_iff (λ (p : Node). any (contains (classify p.claim)) (classify c.claim)) ps).1
                (p, m, (shares p).1 (eq, n, b, b')),
        ) in
      (
        λ h.
            let (p, m, eq, n, b, b') = found.0 (ground arith) in (ground arith, p, m, eq, n, b, b'),
        λ (ty, p, m, eq, n, b, b'). rw (Memᴰ-not_empty ps m, ty) (found.1 (p, m, eq, n, b, b')),
      )
