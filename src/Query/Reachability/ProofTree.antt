-- ===== src/Query/Reachability/ProofTree.antt =====
-- The loop of `_collect_proof_tree` ends with the fuel that it is given.
use arxdb.Base.{
  ℕ, zero, suc, ◌+◌, ◌<◌, ◌≤◌, ◌≡◌, refl, sym, ap, subst, inl, inr, false, some, List, [], ◌∷◌,
  arith, if◌then◌else◌, Bool-cases, Option-cases, ◌==◌, eq_of_==, nat_eq, bytes_eq, pair_eq, length,
  contains,
}
use arxdb.Base.Dict.{Dict, get}
use arxdb.Storage.Hashing.{Hash}
use arxdb.Verification.Schema.{Edge}
use arxdb.Query.Reachability.Reachable.{
  push, premises_of, premise_count, collect, sort_by_hex, collect_proof_tree, tree_fuel,
}

-- The premises that edges not yet in the tree can still push.
unfoldable pending : Dict Hash Edge → List Hash → ℕ
unfolding contains
pending [] edges = 0
pending ((h, e) ∷ m) edges = (if contains edges h then 0 else length e.premises) + pending m edges

pending-cons :
    (m : Dict Hash Edge) (h : Hash) (edges : List Hash) → pending m (h ∷ edges) ≤ pending m edges
unfolding pending contains
pending-cons [] h edges = omega arith
pending-cons ((j, e) ∷ m) h edges =
    let rest = pending-cons m h edges in
    elim (Bool-cases (j == h)) [ inl t ↦ rw t (omega arith) | inr f ↦ rw f (omega arith) ]

premises_of-cons :
    (j : Hash) (e : Edge) (m : Dict Hash Edge) (h : Hash)
    → premises_of ((j, e) ∷ m) h ≡ (if j == h then e.premises else premises_of m h)
unfolding premises_of get
premises_of-cons j e m h = elim (Bool-cases (j == h)) [
  | inl t ↦ rw (t, premises_of) refl
  | inr f ↦ rw (f, premises_of) refl
]

pending-premises_of :
    (m : Dict Hash Edge) (h : Hash) (edges : List Hash)
    → contains edges h ≡ false
    → pending m (h ∷ edges) + length (premises_of m h) ≤ pending m edges
unfolding pending contains
pending-premises_of [] h edges new = unfold premises_of get in omega arith
pending-premises_of ((j, e) ∷ m) h edges new =
    let rest = pending-premises_of m h edges new in
    let less = pending-cons m h edges in
    elim (Bool-cases (j == h)) [
      | inl t ↦
          let fresh : contains edges j ≡ false =
            subst (λ x. contains edges x ≡ false) (sym (eq_of_== j h t)) new in
          rw (premises_of-cons j e m h, t, fresh) (omega arith)
      | inr f ↦ rw (premises_of-cons j e m h, f) (omega arith)
    ]

pending-none : (m : Dict Hash Edge) → pending m [] ≡ premise_count m
unfolding pending contains premise_count
pending-none [] = refl
pending-none ((h, e) ∷ m) = ap (◌+◌ (length e.premises)) (pending-none m)

pub length-push : (ps stack : List Hash) → length (push ps stack) ≡ length ps + length stack
unfolding push
length-push [] stack = omega arith
length-push (p ∷ ps) stack = omega (arith, length-push ps (p ∷ stack))

collect_total :
    (best_edge : Dict Hash Hash) (edge_map : Dict Hash Edge) (fuel : ℕ) (stack edges : List Hash)
    → length stack + pending edge_map edges < fuel
    → (result : List Hash) × (collect fuel best_edge edge_map stack edges ≡ some result)
unfolding collect
collect_total best_edge edge_map zero stack edges h = absurd (omega arith)
collect_total best_edge edge_map (suc fuel) [] edges h = (edges, refl)
collect_total best_edge edge_map (suc fuel) (node ∷ stack) edges h =
    let (skipped, skip) = collect_total best_edge edge_map fuel stack edges (omega arith) in
    elim (Option-cases (get best_edge node)) [
      | inl z ↦ (skipped, rw (z, collect) skip)
      | inr (e, z) ↦ elim (Bool-cases (contains edges e)) [
        | inl old ↦ (skipped, rw (z, old, collect) skip)
        | inr new ↦
            let less = pending-premises_of edge_map e edges new in
            let size = length-push (premises_of edge_map e) stack in
            let (result, more) =
              collect_total best_edge edge_map fuel (push (premises_of edge_map e) stack)
                (e ∷ edges) (omega arith) in
            (result, rw (z, new, collect) more)
      ]
    ]

pub collect_proof_tree_total :
    (target : Hash) (best_edge : Dict Hash Hash) (edge_map : Dict Hash Edge)
    → (result : List Hash) × (collect_proof_tree target best_edge edge_map ≡ some result)
unfolding collect_proof_tree
collect_proof_tree_total target best_edge edge_map =
    let count = pending-none edge_map in
    let (edges, done) =
      collect_total best_edge edge_map (tree_fuel edge_map) (target ∷ []) [] (omega arith) in
    (sort_by_hex edges, rw (done, collect_proof_tree) refl)
