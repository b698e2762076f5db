-- ===== src/Query/Path.antt =====
-- src/arxdb/query/path.py: the least depth of a derivation, or what is missing for one.
pub mod Candidates
pub mod Ends
pub mod Frontier
pub mod Gaps
pub mod Discovery
use arxdb.Base.{
  ℕ, zero, suc, ◌+◌, Bool, true, false, not, Option, none, some, List, [], ◌∷◌, ◌++◌, leb,
  if◌then◌else◌, is_empty, Eq, nat_eq, bytes_eq, pair_eq, length, keep, contains,
}
use arxdb.Base.Result.{Result, ok, err, key_error}
use arxdb.Base.Dict.{Dict, get}
use arxdb.Storage.Hashing.{Hash}
use arxdb.Storage.Serialization.{Cbor}
use arxdb.Storage.GraphIndex.{incoming_edges}
use arxdb.Storage.Facade.{Storage}
use arxdb.Verification.Schema.{Text, Edge, Kappa}
use arxdb.Verification.Kappa.{rank}
use arxdb.Query.Reachability.{Item, Fix, fixpoint}
use arxdb.Query.Reachability.Reachable.{derivation_edges, edge_map_of, push, premises_of}

pub record MissingEdge : Type 0 where
  pub conclusion : Hash
  pub premises : List Hash
  pub blocking_nodes : List Hash
  pub rule : Text

pub record PathResult : Type 0 where
  pub target : Hash
  pub established : Bool
  pub depth : Option ℕ
  pub kappa : Option Kappa
  pub missing_edges : List MissingEdge

-- `n in established`
unfoldable pub is_established : Dict Hash Kappa → Kappa → Hash → Bool
is_established kappa min_kappa n = elim (get kappa n) [
  | none ↦ false
  | some k ↦ leb (rank min_kappa) (rank k)
]

-- `[(h, edge_map[h]) for h in hs if h in edge_map]`
unfoldable pub with_edges : Dict Hash Edge → List Hash → List Item
with_edges edge_map [] = []
with_edges edge_map (h ∷ hs) =
    let rest = with_edges edge_map hs in
    elim (get edge_map h) [ none ↦ rest | some e ↦ (h, e) ∷ rest ]

unfoldable pub candidates : Storage → Dict Hash Edge → Hash → List Item
unfolding with_edges incoming_edges
candidates s edge_map node = with_edges edge_map (incoming_edges s.graph node)

unfoldable pub blocking_of : (Hash → Bool) → Edge → List Hash
unfolding keep
blocking_of established e = keep (λ p. not (established p)) e.premises

-- What the loop over the candidates appends to `missing`.
unfoldable pub gaps_of : (Hash → Bool) → Hash → List Item → List MissingEdge
unfolding blocking_of
gaps_of established node [] = []
gaps_of established node ((h, e) ∷ es) =
    let rest = gaps_of established node es in
    let blocking = blocking_of established e in
    if is_empty blocking
    then rest
    else record {
      conclusion = node;
      premises = e.premises;
      blocking_nodes = blocking;
      rule = e.rule;
    }
      ∷ rest

abbrev pub leaf_gap : Hash → MissingEdge
leaf_gap node = record { conclusion = node; premises = []; blocking_nodes = []; rule = [] }

unfoldable pub gaps_at : (Hash → Bool) → Hash → List Item → List MissingEdge
unfolding gaps_of
gaps_at established node [] = leaf_gap node ∷ []
gaps_at established node (x ∷ xs) = gaps_of established node (x ∷ xs)

-- What the loop over the candidates appends to `stack`.
unfoldable pub push_blocking : (Hash → Bool) → List Item → List Hash → List Hash
unfolding push blocking_of
push_blocking established [] stack = stack
push_blocking established ((h, e) ∷ es) stack =
    push_blocking established es (push (blocking_of established e) stack)

-- The loop over the stack; `none` means that the fuel ran out.
unfoldable pub explore :
    (Hash → Bool)
    → (Hash → List Item)
    → ℕ
    → List Hash
    → List Hash
    → List MissingEdge
    → Option (List MissingEdge)
unfolding push_blocking gaps_at contains
explore established incoming zero stack visited missing = none
explore established incoming (suc fuel) [] visited missing = some missing
explore established incoming (suc fuel) (node ∷ stack) visited missing =
    elim (contains visited node) [
      | true ↦ explore established incoming fuel stack visited missing
      | false ↦
          explore established incoming fuel (push_blocking established (incoming node) stack)
            (node ∷ visited) (missing ++ gaps_at established node (incoming node))
    ]

unfoldable pub row_premises : Dict Hash Edge → List (Hash × Hash) → ℕ
unfolding premises_of
row_premises edge_map [] = 0
row_premises edge_map ((h, c) ∷ rows) = length (premises_of edge_map h) + row_premises edge_map rows

-- Each turn pops a node, and the premises of a registered edge are pushed once.
abbrev pub path_fuel : Storage → Dict Hash Edge → ℕ
path_fuel s edge_map = row_premises edge_map s.graph.edges + 2

unfoldable pub missing_for :
    Storage → (Hash → Bool) → Dict Hash Edge → Hash → Option (List MissingEdge)
unfolding explore candidates row_premises
missing_for s established edge_map target =
    explore established (candidates s edge_map) (path_fuel s edge_map) (target ∷ []) [] []

-- `PathResult(target, True, depth[target], kappa[target], ())`
unfoldable pub established_result : Hash → Fix → Result PathResult
established_result target t = elim (get t.depth target) [
  | none ↦ err key_error
  | some d ↦ ok (record {
    target = target;
    established = true;
    depth = some d;
    kappa = get t.kappa target;
    missing_edges = [];
  })
]

unfoldable pub missing_result : Hash → Fix → Option (List MissingEdge) → Option (Result PathResult)
missing_result target t none = none
missing_result target t (some missing) = some (
    ok (record {
      target = target;
      established = false;
      depth = get t.depth target;
      kappa = get t.kappa target;
      missing_edges = missing;
    }))

module _ ⦃c : Cbor⦄ where
  unfoldable pub discover : Hash → Storage → Kappa → List Item → Fix → Option (Result PathResult)
  unfolding is_established established_result missing_result missing_for edge_map_of
  discover target s min_kappa es t =
      if is_established t.kappa min_kappa target
      then some (established_result target t)
      else missing_result target t
          (missing_for s (is_established t.kappa min_kappa) (edge_map_of [] es) target)

  unfoldable pub path_discovery : Hash → Storage → Kappa → Option (Result PathResult)
  unfolding derivation_edges fixpoint discover
  path_discovery target s min_kappa =
      let es = derivation_edges s none in
      elim (fixpoint es []) [ none ↦ none | some t ↦ discover target s min_kappa es t ]
