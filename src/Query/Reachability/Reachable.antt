-- ===== src/Query/Reachability/Reachable.antt =====
-- src/arxdb/query/reachability.py: the edges that derive, the proof tree and the query itself.
use arxdb.Base.{
  ℕ, zero, suc, ◌+◌, Bool, true, false, Option, none, some, List, [], ◌∷◌, leb, if◌then◌else◌,
  nat_eq, bytes_eq, pair_eq, bytes_leb, length, contains,
}
use arxdb.Base.Result.{Result, ok, err, key_error}
use arxdb.Base.Dict.{Dict, get, set}
use arxdb.Storage.Hashing.{Hash, hex}
use arxdb.Storage.Serialization.{Cbor}
use arxdb.Storage.GraphIndex.{all_edges}
use arxdb.Storage.Facade.{Storage}
use arxdb.Verification.Schema.{
  Edge, EdgeType, Kappa, Verdict, refutation, pass, soft_flag, hard_veto,
}
use arxdb.Verification.Kappa.{rank}
use arxdb.Query.Resolve.{resolve_edge}
use arxdb.Query.Reachability.{Item, Fix, fixpoint}

pub record ReachabilityResult : Type 0 where
  pub target : Hash
  pub established : Bool
  pub kappa : Option Kappa
  pub depth : Option ℕ
  pub proof_tree_edges : List Hash

-- `active_edges is None or h in active_edges`
abbrev pub is_active : Option (List Hash) → Hash → Bool
is_active none h = true
is_active (some active_edges) h = contains active_edges h

-- `e.type == EdgeType.REFUTATION`
abbrev pub is_refutation : EdgeType → Bool
is_refutation refutation = true
is_refutation _ = false

-- `e.verdict in (Verdict.PASS, Verdict.SOFT_FLAG)`
abbrev pub is_accepted : Verdict → Bool
is_accepted pass = true
is_accepted soft_flag = true
is_accepted hard_veto = false

module _ ⦃c : Cbor⦄ where
  -- What one turn of the loop appends, with its `continue`s.
  unfoldable pub derivation_item : Storage → Option (List Hash) → Hash → Option Item
  unfolding contains
  derivation_item s active_edges h =
      if is_active active_edges h
      then elim (resolve_edge h s) [
        | none ↦ none
        | some e ↦
            if is_refutation e.type
            then none
            else if is_accepted e.verdict
            then some (h, e)
            else none
      ]
      else none

  unfoldable pub derivation_items : Storage → Option (List Hash) → List Hash → List Item
  derivation_items s active_edges [] = []
  derivation_items s active_edges (h ∷ hs) =
      let rest = derivation_items s active_edges hs in
      elim (derivation_item s active_edges h) [ none ↦ rest | some x ↦ x ∷ rest ]

  unfoldable pub derivation_edges : Storage → Option (List Hash) → List Item
  unfolding derivation_items all_edges
  derivation_edges s active_edges = derivation_items s active_edges (all_edges s.graph)

-- `{h: e for h, e in derivation_edges}`
unfoldable pub edge_map_of : Dict Hash Edge → List Item → Dict Hash Edge
edge_map_of m [] = m
edge_map_of m ((h, e) ∷ es) = edge_map_of (set m h e) es

-- `stack.extend(ps)`, with the top of the stack first.
unfoldable pub push : List Hash → List Hash → List Hash
push [] stack = stack
push (p ∷ ps) stack = push ps (p ∷ stack)

unfoldable pub premises_of : Dict Hash Edge → Hash → List Hash
premises_of edge_map h = elim (get edge_map h) [ none ↦ [] | some e ↦ e.premises ]

-- The loop of `_collect_proof_tree`; `none` means that the fuel ran out.
unfoldable pub collect :
    ℕ → Dict Hash Hash → Dict Hash Edge → List Hash → List Hash → Option (List Hash)
unfolding push premises_of contains
collect zero best_edge edge_map stack edges = none
collect (suc fuel) best_edge edge_map [] edges = some edges
collect (suc fuel) best_edge edge_map (node ∷ stack) edges = elim (get best_edge node) [
  | none ↦ collect fuel best_edge edge_map stack edges
  | some h ↦ elim (contains edges h) [
    | true ↦ collect fuel best_edge edge_map stack edges
    | false ↦ collect fuel best_edge edge_map (push (premises_of edge_map h) stack) (h ∷ edges)
  ]
]

-- `sorted(edges, key=lambda x: x.hex())`
unfoldable pub insert_by_hex : Hash → List Hash → List Hash
unfolding hex bytes_leb
insert_by_hex h [] = h ∷ []
insert_by_hex h (g ∷ gs) =
    let later = g ∷ insert_by_hex h gs in if bytes_leb (hex h) (hex g) then h ∷ g ∷ gs else later

unfoldable pub sort_by_hex : List Hash → List Hash
unfolding insert_by_hex
sort_by_hex [] = []
sort_by_hex (h ∷ hs) = insert_by_hex h (sort_by_hex hs)

unfoldable pub premise_count : Dict Hash Edge → ℕ
premise_count [] = 0
premise_count ((h, e) ∷ m) = length e.premises + premise_count m

-- Each turn pops a node, and the premises of an edge are pushed once.
abbrev pub tree_fuel : Dict Hash Edge → ℕ
tree_fuel edge_map = premise_count edge_map + 2

unfoldable pub collect_proof_tree : Hash → Dict Hash Hash → Dict Hash Edge → Option (List Hash)
unfolding collect sort_by_hex premise_count
collect_proof_tree target best_edge edge_map =
    elim (collect (tree_fuel edge_map) best_edge edge_map (target ∷ []) []) [
      | none ↦ none
      | some edges ↦ some (sort_by_hex edges)
    ]

-- The answer for a target of strength `k`: `depth[target]` may raise.
unfoldable pub found :
    Hash → Kappa → Fix → Dict Hash Edge → Kappa → Option (Result ReachabilityResult)
unfolding collect_proof_tree
found target min_kappa t edge_map k = elim (get t.depth target) [
  | none ↦ some (err key_error)
  | some d ↦ elim (collect_proof_tree target t.best_edge edge_map) [
    | none ↦ none
    | some edges ↦ some (
        ok (record {
          target = target;
          established = leb (rank min_kappa) (rank k);
          kappa = some k;
          depth = some d;
          proof_tree_edges = edges;
        }))
  ]
]

-- `if target not in kappa: return ReachabilityResult(target, False, None, None, ())`
unfoldable pub answer : Hash → Kappa → Fix → Dict Hash Edge → Option (Result ReachabilityResult)
unfolding found
answer target min_kappa t edge_map = elim (get t.kappa target) [
  | none ↦ some (
      ok (record {
        target = target;
        established = false;
        kappa = none;
        depth = none;
        proof_tree_edges = [];
      }))
  | some k ↦ found target min_kappa t edge_map k
]

module _ ⦃c : Cbor⦄ where
  unfoldable pub reachable :
      Hash → Storage → Kappa → List Hash → Option (List Hash) → Option (Result ReachabilityResult)
  unfolding derivation_edges fixpoint answer edge_map_of
  reachable target s min_kappa extra_seeds active_edges =
      let es = derivation_edges s active_edges in
      elim (fixpoint es extra_seeds) [
        | none ↦ none
        | some t ↦ answer target min_kappa t (edge_map_of [] es)
      ]
