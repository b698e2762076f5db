-- ===== src/Verification/Elenchus/Sets.antt =====
-- What the sets of tokens and classes in src/arxdb/verification/elenchus.py contain.
use arxdb.Base.{
  any_iff, or_assoc, ◌≡◌, refl, sym, ap, ◌∙◌, subst, ◌↔◌, inl, inr, true, ◌||◌, List, [], ◌∷◌, Memᴰ,
  arith, Bool-cases, ◌==◌, eq_of_==, ne_of_==_false, nat_eq, bytes_eq, pair_eq, any, contains,
  contains-add,
}
use arxdb.Base.Strings.{Strings}
use arxdb.Verification.Schema.{Text, Node}
use arxdb.Verification.Elenchus.{set_of, union, tokens, claim_tokens, EquivalenceClass, classes_of}
use mathlib.Core.Logic.{⊎_elim}
use mathlib.Core.List.Memᴰ

pub contains-set_of : (t : Text) (xs : List Text) → contains (set_of xs) t ≡ contains xs t
unfolding set_of contains
contains-set_of t [] = refl
contains-set_of t (x ∷ xs) = rw (contains-add x t (set_of xs), contains-set_of t xs) refl

pub contains-union :
    (t : Text) (xs ys : List Text) → contains (union xs ys) t ≡ (contains xs t || contains ys t)
unfolding union contains
contains-union t [] ys = refl
contains-union t (x ∷ xs) ys =
    rw (contains-add x t (union xs ys), contains-union t xs ys)
      (sym (or_assoc (t == x) (contains xs t) (contains ys t)))

module _ ⦃u : Strings⦄ where
  pub contains-claim_tokens :
      (t : Text) (seen : List Text) (ps : List Node)
      → contains (claim_tokens seen ps) t
        ≡ (contains seen t || any (λ (p : Node). contains (tokens p.claim) t) ps)
  unfolding claim_tokens any
  contains-claim_tokens t seen [] = ground arith
  contains-claim_tokens t seen (p ∷ ps) =
      rw
        (
          contains-claim_tokens t (union seen (tokens p.claim)) ps,
          contains-union t seen (tokens p.claim),
        )
        (or_assoc (contains seen t) (contains (tokens p.claim) t)
          (any (λ (q : Node). contains (tokens q.claim) t) ps))

  -- The classes of a claim are those one of whose patterns is found in it.
  abbrev pub Belongs : EquivalenceClass → Text → Type 0
  Belongs eq claim = (sig : Text) × Memᴰ sig eq.signatures × (u.search sig claim ≡ true)

  pub contains-classes_of :
      (name claim : Text) (eqs : List EquivalenceClass)
      → (contains (classes_of eqs claim) name ≡ true)
        ↔ ((eq : EquivalenceClass) × Memᴰ eq eqs × (eq.name ≡ name) × Belongs eq claim)
  unfolding classes_of contains any
  contains-classes_of name claim [] = (λ h. cc, λ h. absurd (Memᴰ.not-nil h.1))
  contains-classes_of name claim (eq ∷ eqs) =
      elim (Bool-cases (any (λ sig. u.search sig claim) eq.signatures)) [
        | inl found ↦
            rw (found, contains-add eq.name name (classes_of eqs claim))
              (elim (Bool-cases (name == eq.name)) [
                | inl same ↦ rw same (
                  λ _. (
                    eq,
                    Memᴰ.head refl,
                    sym (eq_of_== name eq.name same),
                    (any_iff (λ sig. u.search sig claim) eq.signatures).0 found,
                  ),
                  λ _. refl,
                )
                | inr apart ↦ rw apart (
                  λ h.
                      let (x, m, q, b) = (contains-classes_of name claim eqs).0 h in
                      (x, Memᴰ.tail m, q, b),
                  λ (x, m, q, b).
                      ⊎_elim
                        (λ e. absurd (
                          ne_of_==_false name eq.name apart
                            (sym q ∙ ap (λ (c : EquivalenceClass). c.name) e)))
                        (λ r. (contains-classes_of name claim eqs).1 (x, r, q, b))
                        (Memᴰ.cases_cons m),
                )
              ])
        | inr missing ↦ rw missing (
          λ h.
              let (x, m, q, b) = (contains-classes_of name claim eqs).0 h in (x, Memᴰ.tail m, q, b),
          λ (x, m, q, b).
              ⊎_elim
                (λ e. absurd (
                  cc (
                    missing,
                    (any_iff (λ sig. u.search sig claim) eq.signatures).1
                        (subst (λ c. Belongs c claim) e b),
                  )))
                (λ r. (contains-classes_of name claim eqs).1 (x, r, q, b)) (Memᴰ.cases_cons m),
        )
      ]
