-- ===== src/Query/Refutation.antt =====
-- src/arxdb/query/refutation.py: the attack graph of the stored edges and its labelling. A set is a
-- list without repetitions; the loop on the labels runs on fuel, a round for each edge and one more.
pub mod Grounded
pub mod Attacks
pub mod Contention
pub mod Grouping
pub mod Attackers
pub mod Least
pub mod Active
use arxdb.Base.{
  ◌+◌, Bool, true, false, not, ◌&&◌, ◌||◌, Option, none, some, List, [], ◌∷◌, ◌++◌, if◌then◌else◌,
  nat_eq, bytes_eq, pair_eq, length, all, keep, contains, add,
}
use arxdb.Base.Loop.{until_stable, sweep}
use arxdb.Base.Dict.{Dict, get, set, has, keys}
use arxdb.Storage.Hashing.{Hash}
use arxdb.Storage.Serialization.{Cbor}
use arxdb.Storage.GraphIndex.{all_edges}
use arxdb.Storage.Facade.{Storage}
use arxdb.Verification.Schema.{Text, Node, Edge}
use arxdb.Query.Resolve.{resolve_node, resolve_edge}
use arxdb.Query.Reachability.Reachable.{is_refutation}

pub record ActiveSubgraph : Type 0 where
  pub in_edges : List Hash
  pub out_edges : List Hash
  pub undecided_edges : List Hash

-- The two dicts of sets.
pub record AttackGraph : Type 0 where
  pub attackers : Dict Hash (List Hash)
  pub attacked_by : Dict Hash (List Hash)

-- `d.get(h, set())`
abbrev pub members : Dict Hash (List Hash) → Hash → List Hash
members d h = elim (get d h) [ none ↦ [] | some hs ↦ hs ]

-- `attackers[h].add(t)` and `attacked_by[t].add(h)`
unfoldable pub attack : Hash → Hash → AttackGraph → AttackGraph
unfolding add contains
attack h t g = record {
  attackers = set g.attackers h (add t (members g.attackers h));
  attacked_by = set g.attacked_by t (add h (members g.attacked_by t));
}

-- `{h: set() for h in edges}`
unfoldable pub no_attacks : List Hash → Dict Hash (List Hash)
no_attacks [] = []
no_attacks (h ∷ hs) = (h, []) ∷ no_attacks hs

unfoldable pub add_refutations : Dict Hash Edge → Dict Hash Edge → AttackGraph → AttackGraph
unfolding attack
add_refutations edges [] g = g
add_refutations edges ((h, e) ∷ rest) g =
    add_refutations edges rest
      (if is_refutation e.type && has edges e.conclusion then attack h e.conclusion g else g)

-- `for h2 in neg`
unfoldable pub contend_with : Hash → List Hash → AttackGraph → AttackGraph
unfolding attack
contend_with h1 [] g = g
contend_with h1 (h2 ∷ neg) g = contend_with h1 neg (attack h2 h1 (attack h1 h2 g))

-- `for h1 in pos`
unfoldable pub contend : List Hash → List Hash → AttackGraph → AttackGraph
unfolding contend_with
contend [] neg g = g
contend (h1 ∷ pos) neg g = contend pos neg (contend_with h1 neg g)

-- `[h for h, pol in items if pol == polarity]`
unfoldable pub of_polarity : Bool → List (Hash × Bool) → List Hash
of_polarity polarity [] = []
of_polarity polarity ((h, pol) ∷ items) =
    let rest = of_polarity polarity items in
    if (if polarity then pol else not pol) then h ∷ rest else rest

abbrev pub Groups : Type 0
Groups = Dict (Text × Text) (List (Hash × Bool))

-- `by_prop.setdefault((n.claim, n.domain), []).append((h, n.polarity))`
unfoldable pub add_to_group : Hash → Node → Groups → Groups
add_to_group h n groups =
    let old : List (Hash × Bool) = elim (get groups (n.claim, n.domain)) [
      | none ↦ []
      | some items ↦ items
    ] in
    set groups (n.claim, n.domain) (old ++ (h, n.polarity) ∷ [])

unfoldable pub contend_groups : Groups → AttackGraph → AttackGraph
unfolding contend of_polarity
contend_groups [] g = g
contend_groups ((prop, items) ∷ groups) g =
    contend_groups groups (contend (of_polarity true items) (of_polarity false items) g)

-- The labels so far.
pub record Labels : Type 0 where
  pub in_edges : List Hash
  pub out_edges : List Hash

-- `for t in attackers[h]`
unfoldable pub defeat : List Hash → List Hash → List Hash
unfolding contains
defeat [] out_edges = out_edges
defeat (t ∷ ts) out_edges = defeat ts (if contains out_edges t then out_edges else t ∷ out_edges)

-- The body of the labelling loop.
unfoldable pub label : AttackGraph → Hash → Labels → Labels × Bool
unfolding all contains defeat
label g h s =
    if contains s.in_edges h || contains s.out_edges h
    then (s, false)
    else if all (contains s.out_edges) (members g.attacked_by h)
    then (
      record { in_edges = h ∷ s.in_edges; out_edges = defeat (members g.attackers h) s.out_edges },
      true,
    )
    else (s, false)

module _ ⦃c : Cbor⦄ where
  unfoldable pub resolved : Storage → List Hash → Dict Hash Edge
  resolved s [] = []
  resolved s (h ∷ hs) =
      let rest = resolved s hs in elim (resolve_edge h s) [ none ↦ rest | some e ↦ (h, e) ∷ rest ]

  unfoldable pub by_prop : Storage → Dict Hash Edge → Groups → Groups
  unfolding add_to_group
  by_prop s [] groups = groups
  by_prop s ((h, e) ∷ rest) groups =
      by_prop s rest
        (elim (resolve_node e.conclusion s) [ none ↦ groups | some n ↦ add_to_group h n groups ])

  unfoldable pub attack_graph : Storage → Dict Hash Edge → AttackGraph
  unfolding add_refutations by_prop contend_groups no_attacks
  attack_graph s edges =
      let none_yet = no_attacks (keys edges) in
      let start : AttackGraph = record { attackers = none_yet; attacked_by = none_yet } in
      contend_groups (by_prop s edges []) (add_refutations edges edges start)

  unfoldable pub compute_active_subgraph : Storage → Option ActiveSubgraph
  unfolding all_edges attack_graph until_stable sweep label keep contains
  compute_active_subgraph s =
      let edges = resolved s (all_edges s.graph) in
      let g = attack_graph s edges in
      elim (until_stable (length (keys edges) + 1) (sweep (label g) (keys edges))
        (record { in_edges = []; out_edges = [] })) [
          | none ↦ none
          | some labels ↦ some (record {
            in_edges = labels.in_edges;
            out_edges = labels.out_edges;
            undecided_edges =
                keep (λ h. not (contains labels.in_edges h || contains labels.out_edges h))
                  (keys edges);
          })
        ]
