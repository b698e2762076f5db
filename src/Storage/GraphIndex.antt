-- ===== src/Storage/GraphIndex.antt =====
-- src/arxdb/storage/graph_index.py: the three tables and their queries. A table is a list of rows,
-- and `ORDER BY` is an insertion sort.
pub mod Rows
pub mod Edges
pub mod Listing
use arxdb.Base.{
  ℕ, zero, suc, Bool, ◌&&◌, Option, none, some, List, [], ◌∷◌, ◌++◌, map, leb, nat_beq,
  if◌then◌else◌, Eq, ◌==◌, nat_eq, bytes_eq, pair_eq, bytes_leb, any, keep, contains, add,
}
use arxdb.Base.Dict.{Dict, get, set_default, keys}
use arxdb.Storage.Hashing.{Hash}

pub record PremiseRow : Type 0 where
  pub edge_hash : Hash
  pub premise_hash : Hash
  pub position : ℕ

pub record GraphIndex : Type 0 where
  pub nodes : List Hash
  pub edges : Dict Hash Hash
  pub premises : List PremiseRow

abbrev pub empty_index : GraphIndex
empty_index = record { nodes = []; edges = []; premises = [] }

unfoldable pub insert_hash : Hash → List Hash → List Hash
unfolding bytes_leb
insert_hash h [] = h ∷ []
insert_hash h (g ∷ gs) =
    let later = g ∷ insert_hash h gs in if bytes_leb h g then h ∷ g ∷ gs else later

-- `ORDER BY edge_hash` and `ORDER BY node_hash`
unfoldable pub sort_hashes : List Hash → List Hash
unfolding insert_hash
sort_hashes [] = []
sort_hashes (h ∷ hs) = insert_hash h (sort_hashes hs)

unfoldable pub insert_row : PremiseRow → List PremiseRow → List PremiseRow
insert_row r [] = r ∷ []
insert_row r (q ∷ qs) =
    let later = q ∷ insert_row r qs in if leb r.position q.position then r ∷ q ∷ qs else later

-- `ORDER BY position`
unfoldable pub sort_rows : List PremiseRow → List PremiseRow
unfolding insert_row
sort_rows [] = []
sort_rows (r ∷ rs) = insert_row r (sort_rows rs)

unfoldable pub register_node : GraphIndex → Hash → GraphIndex
unfolding add contains
register_node g node_hash = record g { nodes = add node_hash g.nodes }

unfoldable pub add_nodes : List Hash → List Hash → List Hash
unfolding add contains
add_nodes [] nodes = nodes
add_nodes (p ∷ ps) nodes = add_nodes ps (add p nodes)

-- The primary key `(edge_hash, position)` is taken.
abbrev pub same_key : PremiseRow → PremiseRow → Bool
same_key r q = r.edge_hash == q.edge_hash && nat_beq r.position q.position

-- `INSERT OR IGNORE INTO premises`
unfoldable pub add_row : PremiseRow → List PremiseRow → List PremiseRow
unfolding any
add_row r rows = if any (same_key r) rows then rows else rows ++ r ∷ []

-- `for position, p in enumerate(premises)`
unfoldable pub add_rows : Hash → ℕ → List Hash → List PremiseRow → List PremiseRow
unfolding add_row
add_rows e position [] rows = rows
add_rows e position (p ∷ ps) rows =
    add_rows e (suc position) ps
      (add_row (record { edge_hash = e; premise_hash = p; position = position }) rows)

unfoldable pub register_edge : GraphIndex → Hash → List Hash → Hash → GraphIndex
unfolding add_nodes add_rows add contains
register_edge g edge_hash premises conclusion = record {
  nodes = add_nodes premises (add conclusion g.nodes);
  edges = set_default g.edges edge_hash conclusion;
  premises = add_rows edge_hash 0 premises g.premises;
}

-- The hashes of the edges that a test on their conclusion selects.
unfoldable pub select_edges : (Hash → Bool) → Dict Hash Hash → List Hash
select_edges test [] = []
select_edges test ((h, c) ∷ rows) =
    let rest = select_edges test rows in if test c then h ∷ rest else rest

unfoldable pub incoming_edges : GraphIndex → Hash → List Hash
unfolding select_edges sort_hashes
incoming_edges g node_hash = sort_hashes (select_edges (λ c. c == node_hash) g.edges)

unfoldable pub outgoing_edges : GraphIndex → Hash → List Hash
unfolding keep sort_hashes
outgoing_edges g node_hash =
    sort_hashes
      (map (λ (r : PremiseRow). r.edge_hash) (keep (λ r. r.premise_hash == node_hash) g.premises))

unfoldable pub rows_of : List PremiseRow → Hash → List PremiseRow
unfolding keep
rows_of rows edge_hash = keep (λ r. r.edge_hash == edge_hash) rows

-- The premises in order and the conclusion, from the row of the edge and its premise rows.
unfoldable pub connect : Option Hash → List PremiseRow → Option (List Hash × Hash)
unfolding sort_rows
connect none rows = none
connect (some conclusion) rows =
    some (map (λ (r : PremiseRow). r.premise_hash) (sort_rows rows), conclusion)

unfoldable pub get_connectivity : GraphIndex → Hash → Option (List Hash × Hash)
unfolding rows_of connect
get_connectivity g edge_hash = connect (get g.edges edge_hash) (rows_of g.premises edge_hash)

unfoldable pub all_nodes : GraphIndex → List Hash
unfolding sort_hashes
all_nodes g = sort_hashes g.nodes

unfoldable pub all_edges : GraphIndex → List Hash
unfolding sort_hashes
all_edges g = sort_hashes (keys g.edges)
