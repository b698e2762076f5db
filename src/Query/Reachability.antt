-- ===== src/Query/Reachability.antt =====
-- src/arxdb/query/reachability.py: `_seed`, the two loops of `_fixpoint`, and `_collect_proof_tree`.
-- A loop runs on fuel, and `none` means that the fuel ran out.
pub mod Spec
pub mod Lookups
pub mod Strength
pub mod Seeding
pub mod Strongest
pub mod Lowering
pub mod Weights
pub mod Shallowest
pub mod SeededDepth
pub mod DepthComplete
pub mod Correct
pub mod Reachable
pub mod Derivations
pub mod ProofTree
pub mod Answer
use arxdb.Base.{
  is_empty, ℕ, zero, suc, ◌+◌, ◌*◌, Bool, true, false, Option, none, some, List, [], ◌∷◌, ltb,
  if◌then◌else◌, Eq, nat_eq, bytes_eq, pair_eq, length,
}
use arxdb.Base.Loop.{until_stable, sweep}
use arxdb.Base.Dict
use arxdb.Base.Dict.{Dict, get, set, has}
use arxdb.Storage.Hashing.{Hash}
use arxdb.Verification.Schema.{Edge, Kappa, k_inf}
use arxdb.Verification.Kappa.{rank, weakest}

-- An edge with its hash, an item of `derivation_edges`.
abbrev pub Item : Type 0
Item = Hash × Edge

-- The three dicts of `_fixpoint`.
pub record Fix : Type 0 where
  pub kappa : Dict Hash Kappa
  pub depth : Dict Hash ℕ
  pub best_edge : Dict Hash Hash

abbrev pub no_fix : Fix
no_fix = record { kappa = []; depth = []; best_edge = [] }

-- `node not in kappa or rank(k) > rank(kappa[node])`
unfoldable pub stronger : Dict Hash Kappa → Hash → Kappa → Bool
stronger kappa node k = elim (get kappa node) [ none ↦ true | some old ↦ ltb (rank old) (rank k) ]

unfoldable pub raise : Dict Hash Kappa → Hash → Kappa → Dict Hash Kappa
unfolding stronger
raise kappa node k = if stronger kappa node k then set kappa node k else kappa

unfoldable pub seed : Fix → Hash → Kappa → Option Hash → Fix
unfolding raise
seed s node k edge = record {
  kappa = raise s.kappa node k;
  depth = set s.depth node 0;
  best_edge = elim edge [ none ↦ s.best_edge | some h ↦ set s.best_edge node h ];
}

-- `if len(e.premises) == 0: _seed(...)`
unfoldable pub seed_leaf : Item → Fix → Fix
unfolding seed
seed_leaf (h, e) s = if is_empty e.premises then seed s e.conclusion e.kappa (some h) else s

unfoldable pub seed_edges : List Item → Fix → Fix
unfolding seed_leaf
seed_edges [] s = s
seed_edges (x ∷ es) s = seed_edges es (seed_leaf x s)

unfoldable pub seed_extra : List Hash → Fix → Fix
unfolding seed
seed_extra [] s = s
seed_extra (n ∷ ns) s = seed_extra ns (seed s n k_inf none)

-- `d[p]` for every `p`, behind the test `all(p in d for p in premises)`.
unfoldable pub lookups {ℓ} : {V : Type ℓ} → Dict Hash V → List Hash → Option (List V)
lookups d [] = some []
lookups d (p ∷ ps) = elim (get d p) [
  | none ↦ none
  | some v ↦ elim (lookups d ps) [ none ↦ none | some vs ↦ some (v ∷ vs) ]
]

unfoldable pub kappa_update : Item → Kappa → Fix → Fix × Bool
unfolding stronger
kappa_update (h, e) path_kappa s =
    if stronger s.kappa e.conclusion path_kappa
    then (
      record s {
        kappa = set s.kappa e.conclusion path_kappa;
        best_edge = set s.best_edge e.conclusion h;
      },
      true,
    )
    else (s, false)

-- The body of the κ loop.
unfoldable pub kappa_visit : Item → Fix → Fix × Bool
unfolding lookups weakest kappa_update
kappa_visit (h, e) s =
    if is_empty e.premises then (s, false) else elim (lookups s.kappa e.premises) [
      | none ↦ (s, false)
      | some ks ↦ kappa_update (h, e) (weakest e.kappa ks) s
    ]

-- `max(xs)` of a list that is not empty
unfoldable pub max_from : ℕ → List ℕ → ℕ
max_from m [] = m
max_from m (x ∷ xs) = max_from (if ltb m x then x else m) xs

unfoldable pub max_depth : List ℕ → ℕ
unfolding max_from
max_depth [] = 0
max_depth (x ∷ xs) = max_from x xs

-- `e.conclusion not in depth or d < depth[e.conclusion]`
unfoldable pub shallower : Dict Hash ℕ → Hash → ℕ → Bool
shallower depth node d = elim (get depth node) [ none ↦ true | some old ↦ ltb d old ]

unfoldable pub depth_update : Item → ℕ → Fix → Fix × Bool
unfolding shallower
depth_update (h, e) d s =
    if shallower s.depth e.conclusion d
    then (record s { depth = set s.depth e.conclusion d }, true)
    else (s, false)

-- The body of the depth loop.
unfoldable pub depth_visit : Item → Fix → Fix × Bool
unfolding lookups max_depth depth_update
depth_visit (h, e) s =
    if is_empty e.premises
    then (s, false)
    else if has s.kappa e.conclusion
    then elim (lookups s.depth e.premises) [
      | none ↦ (s, false)
      | some ds ↦ depth_update (h, e) (1 + max_depth ds) s
    ]
    else (s, false)

-- Each round but the last raises the κ of one of at most `length es` conclusions.
abbrev pub kappa_fuel : List Item → ℕ
kappa_fuel es = 5 * length es + 1

-- Each round but the last lowers the depth of a conclusion, which is never above `length es`.
abbrev pub depth_fuel : List Item → ℕ
depth_fuel es = (length es + 1) * length es + 1

unfoldable pub seeded : List Item → List Hash → Fix
unfolding seed_edges seed_extra
seeded es extra_seeds = seed_extra extra_seeds (seed_edges es no_fix)

unfoldable pub fixpoint : List Item → List Hash → Option Fix
unfolding until_stable sweep kappa_visit depth_visit seeded
fixpoint es extra_seeds =
    elim (until_stable (kappa_fuel es) (sweep kappa_visit es) (seeded es extra_seeds)) [
      | none ↦ none
      | some s ↦ until_stable (depth_fuel es) (sweep depth_visit es) s
    ]
