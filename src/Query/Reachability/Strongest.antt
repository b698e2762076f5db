-- ===== src/Query/Reachability/Strongest.antt =====
-- The κ loop: it ends, and the value of a node is the strongest of its proof trees.
use arxdb.Base.{
  is_empty_iff, is_empty, ℕ, ◌≤◌, ◌≡◌, refl, sym, ap, ◌∙◌, subst, ◌≢◌, inl, inr, Bool, false, some,
  List, [], Memᴰ, arith, Bool-cases, nat_eq, bytes_eq, pair_eq, sum_over-bound,
}
use arxdb.Base.Loop.{until_stable, sweep, sweep_loop}
use arxdb.Base.Dict.{get}
use arxdb.Storage.Hashing.{Hash}
use arxdb.Verification.Schema.{Edge, Kappa}
use arxdb.Verification.Kappa.{rank, weakest, weakest-glb, rank-le-k_inf}
use arxdb.Query.Reachability.{
  Item, Fix, stronger, raise, seeded, kappa_update, kappa_visit, kappa_fuel,
}
use arxdb.Query.Reachability.Spec.{Proved, assumed, derived}
use arxdb.Query.Reachability.Lookups.{lookups-some, lookups_total, AtLeast, raise-AtLeast}
use arxdb.Query.Reachability.Strength.{
  IsStrong, kappa_update-kappa, kappa_update-same, kappa_visit-cases, kappa_visit-IsStrong,
  kappa_visit-same, kappa_measure, kappa_visit-less, gap, gap-le,
}
use arxdb.Query.Reachability.Seeding.{seeded-IsStrong}

-- At the end every edge whose premises have strength `r` has passed it on.
kappa_stable-edge :
    (t : Fix) (h : Hash) (e : Edge) (r : ℕ)
    → (kappa_visit (h, e) t).1 ≡ false
    → e.premises ≢ []
    → r ≤ rank e.kappa
    → ((p : Hash) → Memᴰ p e.premises → AtLeast t.kappa p r)
    → AtLeast t.kappa e.conclusion r
kappa_stable-edge t h e r stop some_premise below each =
    let (ks, q) = lookups_total t.kappa e.premises (λ p m. let (k, g, _) = each p m in (k, g)) in
    let k = weakest e.kappa ks in
    let visited : kappa_visit (h, e) t ≡ kappa_update (h, e) k t = elim (kappa_visit-cases h e t) [
      | inl (_, inl none_there) ↦ absurd (some_premise none_there)
      | inl (_, inr missing) ↦ cc (missing, q)
      | inr (ks', q', v) ↦ cc (q, q', v)
    ] in
    let still = kappa_update-same (h, e) k t (rw visited at stop) in
    let fixed : t.kappa ≡ raise t.kappa e.conclusion k =
      ap (λ (z : Fix). z.kappa) (sym still) ∙ kappa_update-kappa h e k t in
    let strong : r ≤ rank k = weakest-glb r e.kappa ks below (λ j mj.
      let (p, mp, g) = (lookups-some t.kappa e.premises ks q).1 j mj in
      let (j', g', high) = each p mp in
      let same : j' ≡ j = cc (g, g') in subst (λ z. r ≤ rank z) same high) in
    let (j, g, high) = raise-AtLeast t.kappa e.conclusion k in
    (j, subst (λ d. get d e.conclusion ≡ some j) (sym fixed) g, omega arith)

kappa_update-depth : (x : Item) (k : Kappa) (s : Fix) → (kappa_update x k s).0.depth ≡ s.depth
unfolding kappa_update
kappa_update-depth (h, e) k s = elim (Bool-cases (stronger s.kappa e.conclusion k)) [
  | inl t ↦ rw (t, kappa_update)
  | inr f ↦ rw (f, kappa_update)
]

kappa_visit-depth : (x : Item) (s : Fix) → (kappa_visit x s).0.depth ≡ s.depth
kappa_visit-depth (h, e) s = elim (kappa_visit-cases h e s) [
  | inl (q, _) ↦ ap (λ (r : Fix × Bool). r.0.depth) q
  | inr (ks, _, v) ↦
      ap (λ (r : Fix × Bool). r.0.depth) v ∙ kappa_update-depth (h, e) (weakest e.kappa ks) s
]

module _ (es : List Item) (extra : List Hash) where
  kappa_stable-complete :
      (t : Fix) (k : Kappa)
      → IsStrong es extra t
      → ((x : Item) → Memᴰ x es → (kappa_visit x t).1 ≡ false)
      → {n : Hash} → Proved es extra k n
      → AtLeast t.kappa n (rank k)
  kappa_stable-complete t k inv stop (assumed {n} m) =
      let (j, g, high) = inv.extras n m in (j, g, omega (arith, rank-le-k_inf k))
  kappa_stable-complete t k inv stop (derived {n} h e m r c ps) =
      let each =
        λ (p : Hash) (mp : Memᴰ p e.premises). kappa_stable-complete t k inv stop (ps p mp) in
      let at : AtLeast t.kappa e.conclusion (rank k) = elim (Bool-cases (is_empty e.premises)) [
        | inl z ↦
            let (j, g, high) = inv.leaves h e m ((is_empty_iff e.premises).0 z) in
            (j, g, omega arith)
        | inr f ↦
            kappa_stable-edge t h e (rank k) (stop (h, e) m)
              (λ z. cc (f, (is_empty_iff e.premises).1 z)) r each
      ] in
      subst (λ z. AtLeast t.kappa z (rank k)) (sym c) at

  -- The loop ends within its fuel, in a state whose values are those of the strongest proof trees.
  pub kappa_loop :
      (t : Fix) × (until_stable (kappa_fuel es) (sweep kappa_visit es) (seeded es extra) ≡ some t)
      × IsStrong es extra t
      × (t.depth ≡ (seeded es extra).depth)
      × ((k : Kappa) (n : Hash) → Proved es extra k n → AtLeast t.kappa n (rank k))
  unfolding kappa_measure
  kappa_loop =
      let start = seeded es extra in
      let bound =
        sum_over-bound (λ (x : Item). gap start.kappa x.1.conclusion) 5 es
          (λ x. gap-le start.kappa x.1.conclusion) in
      let (t, ends, (inv, kept), stop) =
        sweep_loop kappa_visit (λ s. IsStrong es extra s × (s.depth ≡ start.depth))
          (kappa_measure es) es
          (λ x s m p. (kappa_visit-IsStrong es extra x s m p.0, kappa_visit-depth x s ∙ p.1))
          kappa_visit-same (λ x s m p. kappa_visit-less es extra x s m p.0) (kappa_fuel es) start
          (omega arith) (seeded-IsStrong es extra, refl) in
      (t, ends, inv, kept, λ k n p. kappa_stable-complete t k inv stop p)
