-- ===== src/Query/Refutation/Active.antt =====
-- The active subgraph of src/arxdb/query/refutation.py as a whole.
use arxdb.Base.{◌↔◌, List, Memᴰ, nat_eq, bytes_eq, pair_eq}
use arxdb.Storage.Hashing.{Hash}
use arxdb.Storage.Facade.{Storage}
use arxdb.Query.Refutation.{ActiveSubgraph, AttackGraph}
use arxdb.Query.Refutation.Attackers.{Attacks}
use arxdb.Query.Refutation.Least.{IsIn, IsOut}

-- The three parts of the active subgraph, in terms of what the rules derive.
abbrev pub IsGrounded : AttackGraph → List Hash → ActiveSubgraph → Type 0
IsGrounded g hs r =
    (h : Hash)
    → (Memᴰ h r.in_edges ↔ IsIn g hs h)
      × (Memᴰ h r.out_edges ↔ IsOut g hs h)
      × (Memᴰ h r.undecided_edges ↔ (Memᴰ h hs × ¬ IsIn g hs h × ¬ IsOut g hs h))
      × ¬ (Memᴰ h r.in_edges × Memᴰ h r.out_edges)
