-- ===== src/Query/Path/Discovery.antt =====
-- What the answer of `path_discovery` in src/arxdb/query/path.py means.
use arxdb.Base.{
  ℕ, ◌≤◌, ◌≡◌, refl, sym, ◌∙◌, subst, ◌↔◌, inl, inr, Bool, true, false, none, some, List, [], Memᴰ,
  arith, Bool-cases, Option-cases, nat_eq, bytes_eq, pair_eq, leb-true_of_le,
}
use arxdb.Base.Result.{ok}
use arxdb.Base.Dict.{Dict, get}
use arxdb.Storage.Hashing.{Hash}
use arxdb.Storage.Serialization.{Cbor}
use arxdb.Storage.Facade.{Storage}
use arxdb.Verification.Schema.{Edge, Kappa}
use arxdb.Verification.Kappa.{rank}
use arxdb.Query.Reachability.{Fix, fixpoint}
use arxdb.Query.Reachability.Reachable.{derivation_edges, edge_map_of}
use arxdb.Query.Reachability.Spec.{Proved}
use arxdb.Query.Reachability.Lookups.{AtLeast}
use arxdb.Query.Reachability.Answer.{IsBest, IsLeast, IsBest-iff, IsLeast-iff}
use arxdb.Query.Reachability.Correct.{fixpoint_correct, fixpoint_keys}
use arxdb.Query.Path.{
  MissingEdge, PathResult, is_established, candidates, missing_for, path_fuel, established_result,
  missing_result, discover, path_discovery,
}
use arxdb.Query.Path.Candidates.{Memᴰ-candidates}
use arxdb.Query.Path.Ends.{missing_for_total}
use arxdb.Query.Path.Frontier.{Needed, explore_frontier}
use arxdb.Query.Path.Gaps.{IsGap, Memᴰ-gaps_at}

-- `n in established` says that the value of `n` is at least the threshold.
is_established_iff :
    (kappa : Dict Hash Kappa) (k : Kappa) (n : Hash)
    → (is_established kappa k n ≡ true) ↔ AtLeast kappa n (rank k)
unfolding is_established
is_established_iff kappa k n = elim (Option-cases (get kappa n)) [
  | inl z ↦ rw (z, is_established) (λ h. cc, λ (j, g, le). absurd (cc g))
  | inr (i, z) ↦
      rw (z, is_established)
        (
          λ h. (i, refl, ground (arith, h)),
          λ (j, g, le).
              let same : j ≡ i = cc g in
              leb-true_of_le (rank k) (rank i) (subst (λ x. rank k ≤ rank x) same le),
        )
]

module _ ⦃c : Cbor⦄ (target : Hash) (s : Storage) (min_kappa : Kappa) where
  -- The answer at a fixpoint: what it says of the target, and the frontier.
  abbrev pub IsAnswer : Fix → PathResult → Type 0
  IsAnswer t r =
      (r.established ≡ is_established t.kappa min_kappa target)
      × (r.kappa ≡ get t.kappa target)
      × (r.depth ≡ get t.depth target)
      × (r.established ≡ true → r.missing_edges ≡ [])
      × (r.established ≡ false
          → missing_for s (is_established t.kappa min_kappa)
              (edge_map_of [] (derivation_edges s none)) target
            ≡ some r.missing_edges)

  discover_total :
      (t : Fix)
      → fixpoint (derivation_edges s none) [] ≡ some t
      → (r : PathResult) × (discover target s min_kappa (derivation_edges s none) t ≡ some (ok r))
        × IsAnswer t r
  unfolding discover get
  discover_total t ends =
      let es = derivation_edges s none in
      let known = is_established t.kappa min_kappa in
      elim (Bool-cases (is_established t.kappa min_kappa target)) [
        | inl here ↦
            let (k, g, _) = (is_established_iff t.kappa min_kappa target).0 here in
            elim (Option-cases (get t.depth target)) [
              | inl z ↦ absurd (cc ((fixpoint_keys es [] t ends target).1 z, g))
              | inr (d, z) ↦
                  let r : PathResult = record {
                    target = target;
                    established = true;
                    depth = some d;
                    kappa = get t.kappa target;
                    missing_edges = [];
                  } in
                  (
                    r,
                    rw (here, discover) (rw (z, established_result) refl),
                    (sym here, refl, sym z, λ _. refl, λ h. cc),
                  )
            ]
        | inr far ↦
            let (missing, done) = missing_for_total known s (edge_map_of [] es) target in
            let r : PathResult = record {
              target = target;
              established = false;
              depth = get t.depth target;
              kappa = get t.kappa target;
              missing_edges = missing;
            } in
            (
              r,
              rw (far, done, missing_result, discover) refl,
              (sym far, refl, refl, λ h. cc, λ _. done),
            )
      ]

  -- `path_discovery` returns, without an exception. `established` says whether the target has a
  -- proof tree of derivation edges that are `min_kappa` or stronger; `kappa` is `k` exactly if `k` is
  -- the best strength of its proof trees, and `depth` is `d` exactly if `d` is their least depth.
  pub path_discovery_correct :
      (r : PathResult) × (path_discovery target s min_kappa ≡ some (ok r))
      × ((r.established ≡ true) ↔ Proved (derivation_edges s none) [] min_kappa target)
      × ((k : Kappa) → (r.kappa ≡ some k) ↔ IsBest (derivation_edges s none) [] target k)
      × ((d : ℕ) → (r.depth ≡ some d) ↔ IsLeast (derivation_edges s none) [] target d)
  unfolding path_discovery
  path_discovery_correct =
      let es = derivation_edges s none in
      let (t, ends, strong, low) = fixpoint_correct es [] in
      let (r, done, (here, same_kappa, same_depth, _, _)) = discover_total t ends in
      let best = IsBest-iff es [] target t.kappa (λ k. strong k target) in
      let least = IsLeast-iff es [] target t.depth (λ d. low d target) in
      let known = is_established_iff t.kappa min_kappa target in
      (
        r,
        rw (ends, path_discovery) done,
        (
          λ h. (strong min_kappa target).0 (known.0 (sym here ∙ h)),
          λ tree. here ∙ known.1 ((strong min_kappa target).1 tree),
        ),
        λ k. subst (λ o. (o ≡ some k) ↔ IsBest es [] target k) (sym same_kappa) (best k),
        λ d. subst (λ o. (o ≡ some d) ↔ IsLeast es [] target d) (sym same_depth) (least d),
      )

  -- The gaps between what is established at `min_kappa` and the target.
  abbrev pub IsFrontier : (Hash → Bool) → List MissingEdge → Type 0
  IsFrontier established missing =
      (m : MissingEdge)
      → Memᴰ m missing ↔ (
          (n : Hash) × Needed established (candidates s (edge_map_of [] (derivation_edges s none)))
            target n
          × IsGap established n (candidates s (edge_map_of [] (derivation_edges s none)) n) m)

  -- The candidates at a node are the edges that derive and are registered with it as conclusion.
  abbrev pub CandidatesDerive : Type 0
  CandidatesDerive =
      (n h : Hash) (e : Edge)
      → Memᴰ (h, e) (candidates s (edge_map_of [] (derivation_edges s none)) n)
        ↔ (Memᴰ (h, n) s.graph.edges × Memᴰ (h, e) (derivation_edges s none))

  -- What `path_discovery` returns lists no gap for an established target. For another target it
  -- lists exactly the gaps at the needed nodes, which are the target and the premises not
  -- established of candidate edges into needed nodes: a node that no candidate leads to, and a
  -- candidate with a premise that is not established. Established are the nodes with a proof tree
  -- of edges that are `min_kappa` or stronger; candidates into a node are exactly the edges that
  -- derive and that are registered with it as their conclusion.
  pub path_discovery-IsFrontier :
      (r : PathResult)
      → path_discovery target s min_kappa ≡ some (ok r)
      → (established : Hash → Bool) × ((n : Hash)
          → (established n ≡ true) ↔ Proved (derivation_edges s none) [] min_kappa n)
        × (r.established ≡ true → r.missing_edges ≡ [])
        × (r.established ≡ false → IsFrontier established r.missing_edges)
        × CandidatesDerive
  unfolding path_discovery
  path_discovery-IsFrontier r h =
      let es = derivation_edges s none in
      let (t, ends, strong, low) = fixpoint_correct es [] in
      let (r', done, (_, _, _, at_target, below)) = discover_total t ends in
      let same : r' ≡ r = cc (done, rw (ends, path_discovery) at h) in
      let known = is_established t.kappa min_kappa in
      let incoming = candidates s (edge_map_of [] es) in
      let frontier : r'.established ≡ false → IsFrontier known r'.missing_edges = λ far m.
        let listed =
          explore_frontier known incoming target (path_fuel s (edge_map_of [] es)) r'.missing_edges
            (unfold missing_for in below far) m in
        (
          λ q.
              let (n, needed, gap) = listed.0 q in
              (n, needed, (Memᴰ-gaps_at known n (incoming n) m).0 gap),
          λ (n, needed, gap). listed.1 (n, needed, (Memᴰ-gaps_at known n (incoming n) m).1 gap),
        ) in
      (
        known,
        λ n. (
          λ q. (strong min_kappa n).0 ((is_established_iff t.kappa min_kappa n).0 q),
          λ tree. (is_established_iff t.kappa min_kappa n).1 ((strong min_kappa n).1 tree),
        ),
        subst (λ (x : PathResult). x.established ≡ true → x.missing_edges ≡ []) same at_target,
        subst (λ (x : PathResult). x.established ≡ false → IsFrontier known x.missing_edges) same
            frontier,
        Memᴰ-candidates s,
      )
