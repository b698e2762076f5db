-- ===== src/Query/Path/Gaps.antt =====
-- What `path_discovery` in src/arxdb/query/path.py reports for one node.
use arxdb.Base.{
  ◌≡◌, refl, ap, ◌∙◌, ◌↔◌, ◌⊎◌, inl, inr, Bool, false, List, [], ◌∷◌, Memᴰ, is_empty, Bool-cases,
  nat_eq, bytes_eq, pair_eq,
}
use arxdb.Storage.Hashing.{Hash}
use arxdb.Verification.Schema.{Edge}
use arxdb.Query.Reachability.{Item}
use arxdb.Query.Path.{MissingEdge, blocking_of, gaps_of, gaps_at, leaf_gap}
use mathlib.Core.List.Memᴰ
use mathlib.Core.Logic.{⊎_elim}

module _ (established : Hash → Bool) (n : Hash) where
  -- The report of an edge into the node that lacks a premise.
  abbrev pub blocked_gap : Edge → MissingEdge
  blocked_gap e = record {
    conclusion = n;
    premises = e.premises;
    blocking_nodes = blocking_of established e;
    rule = e.rule;
  }

  abbrev pub IsBlocked : List Item → MissingEdge → Type 0
  IsBlocked es m =
      (h : Hash) × (e : Edge) × Memᴰ (h, e) es
      × (is_empty (blocking_of established e) ≡ false)
      × (m ≡ blocked_gap e)

  -- No edge leads to the node, or one does that lacks a premise.
  abbrev pub IsGap : List Item → MissingEdge → Type 0
  IsGap es m = ((es ≡ []) × (m ≡ leaf_gap n)) ⊎ IsBlocked es m

  Memᴰ-gaps_of :
      (es : List Item) (m : MissingEdge) → Memᴰ m (gaps_of established n es) ↔ IsBlocked es m
  unfolding gaps_of
  Memᴰ-gaps_of [] m = (λ q. absurd (Memᴰ.not-nil q), λ (h, e, q, b, same). absurd (Memᴰ.not-nil q))
  Memᴰ-gaps_of ((h, e) ∷ es) m =
      let later = Memᴰ-gaps_of es m in
      let widen : IsBlocked es m → IsBlocked ((h, e) ∷ es) m =
        λ (g, d, q, b, same). (g, d, Memᴰ.tail q, b, same) in
      elim (Bool-cases (is_empty (blocking_of established e))) [
        | inl free ↦ rw free (
          λ q. widen (later.0 q),
          λ (g, d, q, b, same).
              ⊎_elim
                (λ (x : _ ≡ _).
                  absurd
                    (cc (free, b, ap (λ (y : Item). is_empty (blocking_of established y.1)) x)))
                (λ r. later.1 (g, d, r, b, same)) (Memᴰ.cases_cons q),
        )
        | inr blocked ↦ rw blocked (
          λ q.
              ⊎_elim (λ x. (h, e, Memᴰ.head refl, blocked, x)) (λ r. widen (later.0 r))
                (Memᴰ.cases_cons q),
          λ (g, d, q, b, same).
              ⊎_elim (λ (x : _ ≡ _). Memᴰ.head (same ∙ ap (λ (y : Item). blocked_gap y.1) x))
                (λ r. Memᴰ.tail (later.1 (g, d, r, b, same))) (Memᴰ.cases_cons q),
        )
      ]

  pub Memᴰ-gaps_at :
      (es : List Item) (m : MissingEdge) → Memᴰ m (gaps_at established n es) ↔ IsGap es m
  unfolding gaps_at
  Memᴰ-gaps_at [] m = (
    λ q. ⊎_elim (λ x. inl (refl, x)) (λ r. absurd (Memᴰ.not-nil r)) (Memᴰ.cases_cons q),
    ⊎_elim (λ (_, x). Memᴰ.head x) (λ (h, e, q, b, same). absurd (Memᴰ.not-nil q)),
  )
  Memᴰ-gaps_at (x ∷ xs) m = (
    λ q. inr ((Memᴰ-gaps_of (x ∷ xs) m).0 q),
    ⊎_elim (λ (nothing, _). absurd (cc nothing)) (λ b. (Memᴰ-gaps_of (x ∷ xs) m).1 b),
  )
