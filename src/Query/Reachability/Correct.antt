-- ===== src/Query/Reachability/Correct.antt =====
-- `_fixpoint` against its specification.
use arxdb.Base.{
  ℕ, ◌≡◌, refl, sym, ap, ◌∙◌, subst, ◌≢◌, ◌↔◌, inl, inr, Bool, false, none, some, List,
  Option-cases, nat_eq, bytes_eq, pair_eq,
}
use arxdb.Base.Loop.{until_stable, sweep, sweep_loop}
use arxdb.Base.Dict.{get}
use arxdb.Storage.Hashing.{Hash}
use arxdb.Verification.Schema.{Kappa, k0}
use arxdb.Verification.Kappa.{rank}
use arxdb.Query.Reachability.{Item, Fix, seeded, depth_visit, depth_fuel, fixpoint}
use arxdb.Query.Reachability.Spec.{Proved, Shallow}
use arxdb.Query.Reachability.Lookups.{AtLeast}
use arxdb.Query.Reachability.Strength.{IsStrong, Proved-weaken}
use arxdb.Query.Reachability.Strongest.{kappa_loop}
use arxdb.Query.Reachability.Lowering.{
  AtMost, depth_update-kappa, depth_update-same, depth_visit-cases,
}
use arxdb.Query.Reachability.Shallowest.{
  IsLow, Shallow-weaken, depth_measure, depth_visit-IsLow, depth_visit-less, depth_measure-lt_fuel,
}
use arxdb.Query.Reachability.SeededDepth.{seeded-IsLow}
use arxdb.Query.Reachability.DepthComplete.{
  IsLow-same, Shallow-Proved, Proved-Shallow, depth_stable_complete,
}

depth_visit-kappa : (x : Item) (s : Fix) → (depth_visit x s).0.kappa ≡ s.kappa
depth_visit-kappa x s = elim (depth_visit-cases x s) [
  | inl (q, _) ↦ ap (λ (r : Fix × Bool). r.0.kappa) q
  | inr (ds, _, v) ↦ ap (λ (r : Fix × Bool). r.0.kappa) v ∙ depth_update-kappa x _ s
]

depth_visit-same : (x : Item) (s : Fix) → (depth_visit x s).1 ≡ false → (depth_visit x s).0 ≡ s
depth_visit-same x s stop = elim (depth_visit-cases x s) [
  | inl (q, _) ↦ rw q
  | inr (ds, _, v) ↦ rw v (depth_update-same x _ s (rw v at stop))
]

module _ (es : List Item) (extra : List Hash) where
  -- The result of the two loops.
  pub record IsFixpoint (t : Fix) : Type 0 where
    pub strong : IsStrong es extra t
    pub low : IsLow es extra t
    pub strongest : (k : Kappa) (n : Hash) → Proved es extra k n → AtLeast t.kappa n (rank k)
    pub shallowest : (d : ℕ) (n : Hash) → Shallow es extra d n → AtMost t.depth n d

  depth_loop :
      (s : Fix)
      → s.depth ≡ (seeded es extra).depth
      → ((n : Hash) → Proved es extra k0 n → get s.kappa n ≢ none)
      → (t : Fix) × (until_stable (depth_fuel es) (sweep depth_visit es) s ≡ some t)
        × (t.kappa ≡ s.kappa)
        × IsLow es extra t
        × ((d : ℕ) (n : Hash) → Shallow es extra d n → AtMost t.depth n d)
  unfolding depth_measure
  depth_loop s same known =
      let low = IsLow-same es extra (seeded es extra) s same (seeded-IsLow es extra) in
      let bound = depth_measure-lt_fuel es extra s low in
      let (t, ends, (inv, kept), stop) =
        sweep_loop depth_visit (λ u. IsLow es extra u × (u.kappa ≡ s.kappa))
          (depth_measure es extra) es
          (λ x u m p. (depth_visit-IsLow es extra x u m p.0, depth_visit-kappa x u ∙ p.1))
          depth_visit-same (λ x u m p. depth_visit-less es extra x u m p.0) (depth_fuel es) s bound
          (low, refl) in
      (
        t,
        ends,
        kept,
        inv,
        λ d n tree.
            depth_stable_complete es extra t inv
              (λ m p z. known m p (subst (λ w. get w m ≡ none) kept z)) stop tree,
      )

  pub fixpoint_total : (t : Fix) × (fixpoint es extra ≡ some t) × IsFixpoint t
  unfolding fixpoint
  fixpoint_total =
      let (s, ends, inv, same, complete) = kappa_loop es extra in
      let known : (n : Hash) → Proved es extra k0 n → get s.kappa n ≢ none =
        λ n p z. let (k, g, _) = complete k0 n p in cc (g, z) in
      let (t, ends', kept, low, full) = depth_loop s same known in
      (
        t,
        rw (ends, fixpoint) ends',
        record {
          strong = record {
            sound = λ n k g. inv.sound n k (subst (λ w. get w n ≡ some k) kept g);
            leaves = λ h e m z.
                subst (λ w. AtLeast w e.conclusion (rank e.kappa)) (sym kept) (inv.leaves h e m z);
            extras = λ n m. subst (λ w. AtLeast w n 4) (sym kept) (inv.extras n m);
          };
          low = low;
          strongest = λ k n p. subst (λ w. AtLeast w n (rank k)) (sym kept) (complete k n p);
          shallowest = full;
        },
      )

  -- Both loops of `_fixpoint` end. Afterwards the value of a node in `kappa` is `k` or more exactly
  -- if the node has a proof tree, from the extra seeds, all of whose edges have strength `k` or
  -- more; and its value in `depth` is `d` or less exactly if it has a proof tree of depth `d`.
  pub fixpoint_correct :
      (t : Fix) × (fixpoint es extra ≡ some t)
      × ((k : Kappa) (n : Hash) → AtLeast t.kappa n (rank k) ↔ Proved es extra k n)
      × ((d : ℕ) (n : Hash) → AtMost t.depth n d ↔ Shallow es extra d n)
  fixpoint_correct =
      let (t, ends, fix) = fixpoint_total in
      (
        t,
        ends,
        λ k n. (
          λ (j, g, le). Proved-weaken es extra k j le (fix.strong.sound n j g),
          fix.strongest k n,
        ),
        λ d n. (
          λ (j, g, le). Shallow-weaken es extra j d le (fix.low.sound n j g),
          fix.shallowest d n,
        ),
      )

  keys_agree :
      (t : Fix) → IsFixpoint t → (n : Hash) → (get t.kappa n ≡ none) ↔ (get t.depth n ≡ none)
  keys_agree t fix n = (
    λ z. elim (Option-cases (get t.depth n)) [
      | inl w ↦ w
      | inr (d, g) ↦
          let (k, g', _) = fix.strongest k0 n (Shallow-Proved es extra (fix.low.sound n d g)) in
          cc (g', z)
    ],
    λ z. elim (Option-cases (get t.kappa n)) [
      | inl w ↦ w
      | inr (k, g) ↦
          let (d, tree) = Proved-Shallow es extra (fix.strong.sound n k g) in
          let (j, g', _) = fix.shallowest d n tree in cc (g', z)
    ],
  )

  -- In what `_fixpoint` returns, a node that has a strength has a depth, and the other way round.
  pub fixpoint_keys :
      (t : Fix)
      → fixpoint es extra ≡ some t
      → (n : Hash) → (get t.kappa n ≡ none) ↔ (get t.depth n ≡ none)
  fixpoint_keys t h n =
      let (s, ends, fix) = fixpoint_total in
      let same : s ≡ t = cc (ends, h) in keys_agree t (subst IsFixpoint same fix) n
