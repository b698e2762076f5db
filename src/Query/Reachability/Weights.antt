-- ===== src/Query/Reachability/Weights.antt =====
-- Counting the nodes with a depth, and weighing them, for the depth loop of `_fixpoint` in
-- src/arxdb/query/reachability.py.
use arxdb.Base.{
  ℕ, ◌<◌, ◌≤◌, ◌≡◌, true, none, some, arith, Option-cases, ==_iff, ==_refl, nat_eq, bytes_eq,
  pair_eq,
}
use arxdb.Base.Dict.{Dict, get, get-set}
use arxdb.Storage.Hashing.{Hash}
use arxdb.Query.Reachability.{shallower}
use arxdb.Query.Reachability.Lowering.{lower}

-- One if the node has a depth.
unfoldable pub present : Dict Hash ℕ → Hash → ℕ
present depth n = elim (get depth n) [ none ↦ 0 | some _ ↦ 1 ]

pub present-le : (depth : Dict Hash ℕ) (n : Hash) → present depth n ≤ 1
unfolding present
present-le depth n = ground arith

pub present-lower :
    (depth : Dict Hash ℕ) (node : Hash) (d : ℕ) (n : Hash)
    → present depth n ≤ present (lower depth node d) n
unfolding present lower shallower
present-lower depth node d n =
    ground (arith, get-set depth node n d, ==_iff node n, Option-cases (get depth n))

pub present-lower_new :
    (depth : Dict Hash ℕ) (node : Hash) (d : ℕ)
    → get depth node ≡ none
    → present depth node < present (lower depth node d) node
unfolding present lower shallower
present-lower_new depth node d h = ground (arith, get-set depth node node d, ==_refl node)

-- The depth of a node, or more than any depth.
unfoldable pub weight : ℕ → Dict Hash ℕ → Hash → ℕ
weight top depth n = elim (get depth n) [ none ↦ top | some d ↦ d ]

pub weight-lower-le :
    (top : ℕ) (depth : Dict Hash ℕ) (node : Hash) (d : ℕ) (n : Hash)
    → d ≤ top
    → weight top (lower depth node d) n ≤ weight top depth n
unfolding weight lower shallower
weight-lower-le top depth node d n h =
    ground (arith, get-set depth node n d, ==_iff node n, Option-cases (get depth n))

pub weight-lower-lt :
    (top : ℕ) (depth : Dict Hash ℕ) (node : Hash) (d : ℕ)
    → d < top
    → shallower depth node d ≡ true
    → weight top (lower depth node d) node < weight top depth node
unfolding weight lower shallower
weight-lower-lt top depth node d h q = ground (arith, get-set depth node node d, ==_refl node)
