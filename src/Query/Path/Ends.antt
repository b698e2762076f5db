-- ===== src/Query/Path/Ends.antt =====
-- The loop of `path_discovery` in src/arxdb/query/path.py ends with the fuel that it is given.
use arxdb.Base.{
  ℕ, zero, suc, ◌+◌, ◌<◌, ◌≤◌, ◌≡◌, refl, sym, ap, subst, inl, inr, Bool, false, not, some, List,
  [], ◌∷◌, ◌++◌, arith, if◌then◌else◌, Bool-cases, Option-cases, ◌==◌, eq_of_==, nat_eq, bytes_eq,
  pair_eq, bytes_leb, length, keep, contains, sum_over,
}
use arxdb.Base.Dict.{Dict, get}
use arxdb.Storage.Hashing.{Hash}
use arxdb.Storage.GraphIndex.{insert_hash, sort_hashes, select_edges, incoming_edges}
use arxdb.Storage.Facade.{Storage}
use arxdb.Verification.Schema.{Edge}
use arxdb.Query.Reachability.Reachable.{push, premises_of}
use arxdb.Query.Reachability.ProofTree.{length-push}
use arxdb.Query.Path.{
  MissingEdge, with_edges, candidates, blocking_of, gaps_at, push_blocking, explore, row_premises,
  path_fuel, missing_for,
}

-- The premises that registered edges into nodes not yet visited can still push.
unfoldable pending : Dict Hash Edge → List (Hash × Hash) → List Hash → ℕ
unfolding contains
pending edge_map [] visited = 0
pending edge_map ((h, c) ∷ rows) visited =
    (if contains visited c then 0 else length (premises_of edge_map h))
    + pending edge_map rows visited

pending-none :
    (edge_map : Dict Hash Edge) (rows : List (Hash × Hash))
    → pending edge_map rows [] ≡ row_premises edge_map rows
unfolding pending row_premises contains
pending-none edge_map [] = refl
pending-none edge_map ((h, c) ∷ rows) =
    ap (◌+◌ (length (premises_of edge_map h))) (pending-none edge_map rows)

length-keep : {A : Type 0} (p : A → Bool) (xs : List A) → length (keep p xs) ≤ length xs
unfolding keep
length-keep p [] = omega arith
length-keep p (x ∷ xs) =
    let rest = length-keep p xs in
    elim (Bool-cases (p x)) [ inl t ↦ rw t (omega arith) | inr f ↦ rw f (omega arith) ]

sum_over-insert_hash :
    (f : Hash → ℕ) (h : Hash) (hs : List Hash) → sum_over f (insert_hash h hs) ≡ f h + sum_over f hs
unfolding insert_hash
sum_over-insert_hash f h [] = refl
sum_over-insert_hash f h (g ∷ gs) =
    let rest = sum_over-insert_hash f h gs in
    elim (Bool-cases (bytes_leb h g)) [ inl t ↦ rw t refl | inr f ↦ rw f (omega arith) ]

sum_over-sort_hashes : (f : Hash → ℕ) (hs : List Hash) → sum_over f (sort_hashes hs) ≡ sum_over f hs
unfolding sort_hashes
sum_over-sort_hashes f [] = refl
sum_over-sort_hashes f (h ∷ hs) =
    omega (arith, sum_over-insert_hash f h (sort_hashes hs), sum_over-sort_hashes f hs)

module _ (established : Hash → Bool) (edge_map : Dict Hash Edge) where
  abbrev pushed_by : Hash → ℕ
  pushed_by h = length (premises_of edge_map h)

  length-push_blocking :
      (hs stack : List Hash)
      → length (push_blocking established (with_edges edge_map hs) stack)
        ≤ sum_over pushed_by hs + length stack
  unfolding with_edges push_blocking premises_of
  length-push_blocking [] stack = omega arith
  length-push_blocking (h ∷ hs) stack = elim (Option-cases (get edge_map h)) [
    | inl z ↦ rw (z, with_edges) (omega (arith, length-push_blocking hs stack))
    | inr (e, z) ↦
        let size : pushed_by h ≡ length e.premises = rw (z, premises_of) refl in
        let kept : length (blocking_of established e) ≤ length e.premises =
          unfold blocking_of in length-keep (λ p. not (established p)) e.premises in
        rw (z, with_edges)
          (omega (
            arith,
            length-push_blocking hs (push (blocking_of established e) stack),
            length-push (blocking_of established e) stack,
            kept,
            size,
          ))
  ]

  pending-visit :
      (rows : List (Hash × Hash)) (visited : List Hash) (node : Hash)
      → contains visited node ≡ false
      → sum_over pushed_by (select_edges (λ c. c == node) rows)
          + pending edge_map rows (node ∷ visited)
        ≡ pending edge_map rows visited
  unfolding select_edges pending contains
  pending-visit [] visited node new = refl
  pending-visit ((h, c) ∷ rows) visited node new =
      let rest = pending-visit rows visited node new in
      elim (Bool-cases (c == node)) [
        | inl same ↦
            let fresh : contains visited c ≡ false =
              subst (λ x. contains visited x ≡ false) (sym (eq_of_== c node same)) new in
            rw (same, fresh) (omega arith)
        | inr other ↦ rw other (omega arith)
      ]

module _ (established : Hash → Bool) (s : Storage) (edge_map : Dict Hash Edge) where
  visit-less :
      (node : Hash) (stack visited : List Hash)
      → contains visited node ≡ false
      → length (push_blocking established (candidates s edge_map node) stack)
          + pending edge_map s.graph.edges (node ∷ visited)
        ≤ length stack + pending edge_map s.graph.edges visited
  unfolding candidates incoming_edges
  visit-less node stack visited new =
      let rows = select_edges (λ c. c == node) s.graph.edges in
      omega (
        arith,
        length-push_blocking established edge_map (sort_hashes rows) stack,
        sum_over-sort_hashes (pushed_by established edge_map) rows,
        pending-visit established edge_map s.graph.edges visited node new,
      )

  explore_total :
      (fuel : ℕ) (stack visited : List Hash) (missing : List MissingEdge)
      → length stack + pending edge_map s.graph.edges visited < fuel
      → (result : List MissingEdge) × (explore established
            (candidates s edge_map)
            fuel
            stack
            visited
            missing
          ≡ some result)
  unfolding explore
  explore_total zero stack visited missing h = absurd (omega arith)
  explore_total (suc fuel) [] visited missing h = (missing, refl)
  explore_total (suc fuel) (node ∷ stack) visited missing h =
      elim (Bool-cases (contains visited node)) [
        | inl old ↦
            let (result, done) = explore_total fuel stack visited missing (omega arith) in
            (result, rw (old, explore) done)
        | inr new ↦
            let less = visit-less node stack visited new in
            let (result, done) =
              explore_total fuel (push_blocking established (candidates s edge_map node) stack)
                (node ∷ visited) (missing ++ gaps_at established node (candidates s edge_map node))
                (omega arith) in
            (result, rw (new, explore) done)
      ]

  -- The loop over the stack ends with its fuel, whatever the storage, the map of the edges and the
  -- set of established nodes are.
  pub missing_for_total :
      (target : Hash)
      → (result : List MissingEdge) × (missing_for s established edge_map target ≡ some result)
  unfolding missing_for
  missing_for_total target =
      explore_total (path_fuel s edge_map) (target ∷ []) [] []
        (omega (arith, pending-none edge_map s.graph.edges))
