-- ===== src/Query/Reachability/Answer.antt =====
-- The query answers what its specification says.
use arxdb.Base.{
  ℕ, ◌≤◌, ◌≡◌, refl, subst, ◌↔◌, inl, inr, true, false, Option, none, some, List, [], arith, leb,
  Option-cases, nat_eq, bytes_eq, pair_eq, leb-true_of_le,
}
use arxdb.Base.Result.{ok}
use arxdb.Base.Dict.{Dict, get}
use arxdb.Storage.Hashing.{Hash}
use arxdb.Storage.Serialization.{Cbor}
use arxdb.Storage.Facade.{Storage}
use arxdb.Verification.Schema.{Kappa}
use arxdb.Verification.Kappa.{rank, rank_injective}
use arxdb.Query.Reachability.{Item}
use arxdb.Query.Reachability.Spec.{Proved, Shallow}
use arxdb.Query.Reachability.Lookups.{AtLeast}
use arxdb.Query.Reachability.Lowering.{AtMost}
use arxdb.Query.Reachability.Correct.{fixpoint_correct, fixpoint_keys}
use arxdb.Query.Reachability.ProofTree.{collect_proof_tree_total}
use arxdb.Query.Reachability.Reachable.{
  ReachabilityResult, derivation_edges, edge_map_of, found, answer, reachable,
}

-- The strength is the best that a proof tree has.
abbrev pub IsBest : List Item → List Hash → Hash → Kappa → Type 0
IsBest es extra n k = Proved es extra k n × ((j : Kappa) → Proved es extra j n → rank j ≤ rank k)

-- The depth is the least that a proof tree has.
abbrev pub IsLeast : List Item → List Hash → Hash → ℕ → Type 0
IsLeast es extra n d = Shallow es extra d n × ((j : ℕ) → Shallow es extra j n → d ≤ j)

module _ (es : List Item) (extra : List Hash) (n : Hash) where
  pub IsBest-iff :
      (kappa : Dict Hash Kappa)
      → ((k : Kappa) → AtLeast kappa n (rank k) ↔ Proved es extra k n)
      → (k : Kappa) → (get kappa n ≡ some k) ↔ IsBest es extra n k
  IsBest-iff kappa spec k = (
    λ g. (
      (spec k).0 (k, g, omega arith),
      λ j tree.
          let (i, g', le) = (spec j).1 tree in
          let same : i ≡ k = cc (g, g') in subst (λ x. rank j ≤ rank x) same le,
    ),
    λ (tree, top).
        let (i, g, le) = (spec k).1 tree in
        let le' = top i ((spec i).0 (i, g, omega arith)) in
        let same : i ≡ k = rank_injective i k (omega arith) in
        subst (λ x. get kappa n ≡ some x) same g,
  )

  pub IsLeast-iff :
      (depth : Dict Hash ℕ)
      → ((d : ℕ) → AtMost depth n d ↔ Shallow es extra d n)
      → (d : ℕ) → (get depth n ≡ some d) ↔ IsLeast es extra n d
  IsLeast-iff depth spec d = (
    λ g. (
      (spec d).0 (d, g, omega arith),
      λ j tree.
          let (i, g', le) = (spec j).1 tree in
          let same : i ≡ d = cc (g, g') in subst (λ x. x ≤ j) same le,
    ),
    λ (tree, low).
        let (i, g, le) = (spec d).1 tree in
        let le' = low i ((spec i).0 (i, g, omega arith)) in
        let same : i ≡ d = omega arith in subst (λ x. get depth n ≡ some x) same g,
  )

module _ ⦃c : Cbor⦄ where
  -- `reachable` returns, without an exception. `established` says whether the target has a proof
  -- tree of derivation edges that are `min_kappa` or stronger, from the extra seeds; `kappa` is `k`
  -- exactly if `k` is the best strength of its proof trees, and `depth` is `d` exactly if `d` is
  -- their least depth.
  pub reachable_correct :
      (target : Hash) (s : Storage) (min_kappa : Kappa) (extra : List Hash)
      (active : Option (List Hash))
      → (r : ReachabilityResult) × (reachable target s min_kappa extra active ≡ some (ok r))
        × ((r.established ≡ true) ↔ Proved (derivation_edges s active) extra min_kappa target)
        × ((k : Kappa) → (r.kappa ≡ some k) ↔ IsBest (derivation_edges s active) extra target k)
        × ((d : ℕ) → (r.depth ≡ some d) ↔ IsLeast (derivation_edges s active) extra target d)
  unfolding reachable answer found
  reachable_correct target s min_kappa extra active =
      let es = derivation_edges s active in
      let (t, ends, strong, low) = fixpoint_correct es extra in
      let same = fixpoint_keys es extra t ends target in
      let best = IsBest-iff es extra target t.kappa (λ k. strong k target) in
      let least = IsLeast-iff es extra target t.depth (λ d. low d target) in
      elim (Option-cases (get t.kappa target)) [
        | inl z ↦
            let z' = same.0 z in
            let r : ReachabilityResult = record {
              target = target;
              established = false;
              kappa = none;
              depth = none;
              proof_tree_edges = [];
            } in
            (
              r,
              rw (ends, reachable) (rw (z, answer) refl),
              (
                λ h. absurd (cc h),
                λ tree. let (k, g, _) = (strong min_kappa target).1 tree in absurd (cc (g, z)),
              ),
              λ k. subst (λ o. (o ≡ some k) ↔ IsBest es extra target k) z (best k),
              λ d. subst (λ o. (o ≡ some d) ↔ IsLeast es extra target d) z' (least d),
            )
        | inr (k, z) ↦ elim (Option-cases (get t.depth target)) [
          | inl w ↦ absurd (cc (same.1 w, z))
          | inr (d, w) ↦
              let (tree_edges, done) =
                collect_proof_tree_total target t.best_edge (edge_map_of [] es) in
              let r : ReachabilityResult = record {
                target = target;
                established = leb (rank min_kappa) (rank k);
                kappa = some k;
                depth = some d;
                proof_tree_edges = tree_edges;
              } in
              (
                r,
                rw (ends, reachable) (rw (z, answer) (rw (w, done, found) refl)),
                (
                  λ h. (strong min_kappa target).0 (k, z, ground (arith, h)),
                  λ tree.
                      let (i, g, le) = (strong min_kappa target).1 tree in
                      let e : i ≡ k = cc (g, z) in
                      leb-true_of_le (rank min_kappa) (rank k)
                        (subst (λ x. rank min_kappa ≤ rank x) e le),
                ),
                λ j. subst (λ o. (o ≡ some j) ↔ IsBest es extra target j) z (best j),
                λ j. subst (λ o. (o ≡ some j) ↔ IsLeast es extra target j) w (least j),
              )
        ]
      ]
