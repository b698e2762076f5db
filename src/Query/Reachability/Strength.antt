-- ===== src/Query/Reachability/Strength.antt =====
-- One visit of the κ loop: it keeps the invariant, and a change lowers the measure.
use arxdb.Base.{
  is_empty_iff, is_empty, ℕ, ◌-◌, ◌<◌, ◌≤◌, ◌≡◌, refl, sym, subst, ◌⊎◌, inl, inr, true, false, none,
  some, List, [], Memᴰ, arith, Bool-cases, Option-cases, ==_iff, ==_refl, nat_eq, bytes_eq, pair_eq,
  sum_over, sum_over-lt,
}
use arxdb.Base.Dict.{Dict, get, get-set}
use arxdb.Storage.Hashing.{Hash}
use arxdb.Verification.Schema.{Edge, Kappa, k_inf}
use arxdb.Verification.Kappa.{rank, weakest, weakest-le}
use arxdb.Query.Reachability.{Item, Fix, stronger, raise, lookups, kappa_update, kappa_visit}
use arxdb.Query.Reachability.Spec.{Proved, assumed, derived}
use arxdb.Query.Reachability.Lookups.{lookups-some, AtLeast, AtLeast-raise, get-raise}

pub kappa_update-kappa :
    (h : Hash) (e : Edge) (k : Kappa) (s : Fix)
    → (kappa_update (h, e) k s).0.kappa ≡ raise s.kappa e.conclusion k
unfolding kappa_update raise
kappa_update-kappa h e k s = elim (Bool-cases (stronger s.kappa e.conclusion k)) [
  | inl t ↦ rw (t, kappa_update)
  | inr f ↦ rw (f, kappa_update)
]

pub kappa_update-same :
    (x : Item) (k : Kappa) (s : Fix) → (kappa_update x k s).1 ≡ false → (kappa_update x k s).0 ≡ s
unfolding kappa_update
kappa_update-same (h, e) k s = elim (Bool-cases (stronger s.kappa e.conclusion k)) [
  | inl t ↦ rw (t) (λ q. cc)
  | inr f ↦ rw (f) (λ q. refl)
]

-- A visit does nothing, or it offers the strength of the edge to its conclusion.
pub kappa_visit-cases :
    (h : Hash) (e : Edge) (s : Fix)
    → ((kappa_visit (h, e) s ≡ (s, false))
        × ((e.premises ≡ []) ⊎ (lookups s.kappa e.premises ≡ none)))
      ⊎ ((ks : List Kappa) × (lookups s.kappa e.premises ≡ some ks)
          × (kappa_visit (h, e) s ≡ kappa_update (h, e) (weakest e.kappa ks) s))
unfolding kappa_visit
kappa_visit-cases h e s = elim (Bool-cases (is_empty e.premises)) [
  | inl t ↦ inl (rw (t, kappa_visit), inl ((is_empty_iff e.premises).0 t))
  | inr f ↦ elim (Option-cases (lookups s.kappa e.premises)) [
    | inl n ↦ inl (rw (f, n, kappa_visit), inr n)
    | inr (ks, q) ↦ inr (ks, q, rw (f, q, kappa_visit))
  ]
]

pub kappa_visit-same : (x : Item) (s : Fix) → (kappa_visit x s).1 ≡ false → (kappa_visit x s).0 ≡ s
kappa_visit-same (h, e) s stop = elim (kappa_visit-cases h e s) [
  | inl (q, _) ↦ rw q
  | inr (ks, q, v) ↦ rw v (kappa_update-same (h, e) (weakest e.kappa ks) s (rw v at stop))
]

-- How far the value of a node is from the top.
pub gap : Dict Hash Kappa → Hash → ℕ
gap d n = elim (get d n) [ none ↦ 5 | some k ↦ 4 - rank k ]

pub gap-le : (d : Dict Hash Kappa) (n : Hash) → gap d n ≤ 5
unfolding gap
gap-le d n = ground arith

gap-raise-le :
    (d : Dict Hash Kappa) (node : Hash) (k : Kappa) (n : Hash) → gap (raise d node k) n ≤ gap d n
unfolding gap raise stronger
gap-raise-le d node k n =
    ground (arith, get-set d node n k, ==_iff node n, Option-cases (get d node))

gap-raise-lt :
    (d : Dict Hash Kappa) (node : Hash) (k : Kappa)
    → stronger d node k ≡ true
    → gap (raise d node k) node < gap d node
unfolding gap raise stronger
gap-raise-lt d node k h = ground (arith, get-set d node node k, ==_refl node)

kappa_update-stronger :
    (h : Hash) (e : Edge) (k : Kappa) (s : Fix)
    → (kappa_update (h, e) k s).1 ≡ true
    → stronger s.kappa e.conclusion k ≡ true
unfolding kappa_update
kappa_update-stronger h e k s q = elim (Bool-cases (stronger s.kappa e.conclusion k)) [
  | inl t ↦ t
  | inr f ↦ cc (rw f at q)
]

unfoldable pub kappa_measure : List Item → Fix → ℕ
kappa_measure es s = sum_over (λ x. gap s.kappa x.1.conclusion) es

module _ (es : List Item) (extra : List Hash) where
  -- Each value is earned by a proof tree, and leaves and assumptions have theirs.
  pub record IsStrong (s : Fix) : Type 0 where
    pub sound : (n : Hash) (k : Kappa) → get s.kappa n ≡ some k → Proved es extra k n
    pub leaves :
        (h : Hash) (e : Edge)
        → Memᴰ (h, e) es
        → e.premises ≡ []
        → AtLeast s.kappa e.conclusion (rank e.kappa)
    pub extras : (n : Hash) → Memᴰ n extra → AtLeast s.kappa n (rank k_inf)

  -- A raise by a proof tree keeps the invariant, whatever else of the state changes.
  raise-IsStrong :
      (s t : Fix) (node : Hash) (k : Kappa)
      → t.kappa ≡ raise s.kappa node k
      → Proved es extra k node
      → IsStrong s
      → IsStrong t
  raise-IsStrong s t node k e p h = record {
    sound = λ n j q. elim (get-raise s.kappa node k n j (subst (λ d. get d n ≡ some j) e q)) [
      | inl old ↦ h.sound n j old
      | inr (at, new) ↦
          subst (λ z. Proved es extra z n) (sym new) (subst (Proved es extra k) (sym at) p)
    ];
    leaves = λ a edge m z.
        subst (λ d. AtLeast d edge.conclusion (rank edge.kappa)) (sym e)
          (AtLeast-raise s.kappa node k edge.conclusion (rank edge.kappa) (h.leaves a edge m z));
    extras = λ n m.
        subst (λ d. AtLeast d n (rank k_inf)) (sym e)
          (AtLeast-raise s.kappa node k n (rank k_inf) (h.extras n m));
  }

  pub Proved-weaken :
      (j k : Kappa) → rank j ≤ rank k → {n : Hash} → Proved es extra k n → Proved es extra j n
  Proved-weaken j k less (assumed m) = assumed m
  Proved-weaken j k less (derived h e m r c ps) =
      derived h e m (omega arith) c (λ p mp. Proved-weaken j k less (ps p mp))

  -- What an edge derives from proof trees of its premises.
  derived-weakest :
      (h : Hash) (e : Edge) (s : Fix) (ks : List Kappa)
      → Memᴰ (h, e) es
      → lookups s.kappa e.premises ≡ some ks
      → IsStrong s
      → Proved es extra (weakest e.kappa ks) e.conclusion
  derived-weakest h e s ks m q inv =
      let (below, each) = weakest-le e.kappa ks in
      let (values, _) = lookups-some s.kappa e.premises ks q in
      derived h e m below refl (λ p mp.
        let (v, ev, mv) = values p mp in
        Proved-weaken (weakest e.kappa ks) v (each v mv) (inv.sound p v ev))

  pub kappa_visit-IsStrong :
      (x : Item) (s : Fix) → Memᴰ x es → IsStrong s → IsStrong (kappa_visit x s).0
  kappa_visit-IsStrong (h, e) s m inv = elim (kappa_visit-cases h e s) [
    | inl (q, _) ↦ rw q inv
    | inr (ks, q, v) ↦ rw v (
        raise-IsStrong s (kappa_update (h, e) (weakest e.kappa ks) s).0 e.conclusion
          (weakest e.kappa ks) (kappa_update-kappa h e (weakest e.kappa ks) s)
          (derived-weakest h e s ks m q inv) inv)
  ]

  pub kappa_visit-less :
      (x : Item) (s : Fix)
      → Memᴰ x es
      → IsStrong s
      → (kappa_visit x s).1 ≡ true
      → kappa_measure es (kappa_visit x s).0 < kappa_measure es s
  unfolding kappa_measure
  kappa_visit-less (h, e) s m inv go = elim (kappa_visit-cases h e s) [
    | inl (q, _) ↦ cc (rw q at go)
    | inr (ks, q, v) ↦
        let k = weakest e.kappa ks in
        rw (v, kappa_update-kappa h e k s)
          (sum_over-lt (λ (y : Item). gap (raise s.kappa e.conclusion k) y.1.conclusion)
            (λ (y : Item). gap s.kappa y.1.conclusion) es
            (λ y my. gap-raise-le s.kappa e.conclusion k y.1.conclusion) (h, e) m
            (gap-raise-lt s.kappa e.conclusion k (kappa_update-stronger h e k s (rw v at go))))
  ]
