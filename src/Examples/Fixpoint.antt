-- ===== src/Examples/Fixpoint.antt =====
-- The theorems on the fixpoint at a graph with a cycle: an axiom, a deduction from it, and back.
use arxdb.Base.{ℕ, ◌≡◌, refl, ◌↔◌, none, some, List, [], ◌∷◌, nat_eq, bytes_eq, pair_eq}
use arxdb.Base.Tests.{bytes_beq}
use arxdb.Base.Dict.{get, set}
use arxdb.Storage.Hashing.{Hash}
use arxdb.Examples.Packages.{toy_blake3, toy_cbor, toy_ed25519}
use arxdb.Verification.Schema.{Edge, Kappa, k1, k2, k_inf, deduction, pass}
use arxdb.Verification.Kappa.{rank}
use arxdb.Query.Reachability.{Item, Fix, fixpoint}
use arxdb.Query.Reachability.Spec.{Proved, Shallow}
use arxdb.Query.Reachability.Lookups.{AtLeast}
use arxdb.Query.Reachability.Lowering.{AtMost}
use arxdb.Query.Reachability.Correct.{fixpoint_correct}

abbrev edge : List Hash → Hash → Kappa → Edge
edge ps c k = record {
  type = deduction;
  premises = ps;
  conclusion = c;
  rule = [];
  proof_hash = none;
  verdict = pass;
  kappa = k;
  signer_pubkey = [];
}

-- `1` is given at κ1, `2` follows from it at κ2, `1` from `2` at κ∞, and `3` from `2` and `9`.
abbrev cycle : List Item
cycle =
    (51 ∷ [], edge [] (1 ∷ []) k1)
    ∷ (52 ∷ [], edge ((1 ∷ []) ∷ []) (2 ∷ []) k2)
    ∷ (53 ∷ [], edge ((2 ∷ []) ∷ []) (1 ∷ []) k_inf)
    ∷ (54 ∷ [], edge ((2 ∷ []) ∷ (9 ∷ []) ∷ []) (3 ∷ []) k2)
    ∷ []

fixpoint_correct_example :
    (t : Fix) × (fixpoint cycle ((9 ∷ []) ∷ []) ≡ some t)
    × ((k : Kappa) (n : Hash) → AtLeast t.kappa n (rank k) ↔ Proved cycle ((9 ∷ []) ∷ []) k n)
    × ((d : ℕ) (n : Hash) → AtMost t.depth n d ↔ Shallow cycle ((9 ∷ []) ∷ []) d n)
fixpoint_correct_example = fixpoint_correct cycle ((9 ∷ []) ∷ [])

abbrev cycle_fix : Fix
cycle_fix = record {
  kappa = (1 ∷ [], k1) ∷ (9 ∷ [], k_inf) ∷ (2 ∷ [], k1) ∷ (3 ∷ [], k1) ∷ [];
  depth = (1 ∷ [], 0) ∷ (9 ∷ [], 0) ∷ (2 ∷ [], 1) ∷ (3 ∷ [], 2) ∷ [];
  best_edge = (1 ∷ [], 51 ∷ []) ∷ (2 ∷ [], 52 ∷ []) ∷ (3 ∷ [], 54 ∷ []) ∷ [];
}

fixpoint-cycle : fixpoint cycle ((9 ∷ []) ∷ []) ≡ some cycle_fix
unfolding fixpoint get set bytes_beq
fixpoint-cycle = refl
