-- ===== src/Examples/Graph.antt =====
-- The theorems on the graph index at an index of one edge.
use arxdb.Base.{◌≡◌, refl, ◌≢◌, some, [], ◌∷◌, nat_eq, bytes_eq, pair_eq}
use arxdb.Base.Tests.{bytes_beq}
use arxdb.Base.Dict.{get, set}
use mathlib.Core.List.Memᴰ
use arxdb.Storage.Hashing.{Hash}
use arxdb.Examples.Packages.{toy_blake3, toy_cbor, toy_ed25519}
use arxdb.Storage.GraphIndex.{GraphIndex, empty_index, register_edge, get_connectivity}
use arxdb.Storage.GraphIndex.Edges.{IsConsistent, register_edge_new}

empty_index-IsConsistent : IsConsistent empty_index
empty_index-IsConsistent r m = absurd (Memᴰ.not-nil m)

abbrev one_edge : GraphIndex
one_edge = register_edge empty_index (1 ∷ []) ((2 ∷ []) ∷ (3 ∷ []) ∷ []) (4 ∷ [])

one_edge-IsConsistent : IsConsistent one_edge
unfolding get
one_edge-IsConsistent =
    (register_edge_new empty_index (1 ∷ []) ((2 ∷ []) ∷ (3 ∷ []) ∷ []) (4 ∷ [])
      empty_index-IsConsistent refl).2

register_edge_new_example :
    (get_connectivity (register_edge one_edge (5 ∷ []) ((4 ∷ []) ∷ []) (6 ∷ [])) (5 ∷ [])
      ≡ some ((4 ∷ []) ∷ [], 6 ∷ []))
    × ((h : Hash)
        → (5 ∷ []) ≢ h
        → get_connectivity (register_edge one_edge (5 ∷ []) ((4 ∷ []) ∷ []) (6 ∷ [])) h
          ≡ get_connectivity one_edge h)
    × IsConsistent (register_edge one_edge (5 ∷ []) ((4 ∷ []) ∷ []) (6 ∷ []))
unfolding get set bytes_beq register_edge
register_edge_new_example =
    register_edge_new one_edge (5 ∷ []) ((4 ∷ []) ∷ []) (6 ∷ []) one_edge-IsConsistent refl
