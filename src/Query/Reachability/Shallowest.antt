-- ===== src/Query/Reachability/Shallowest.antt =====
-- The depth loop: it ends, and the depth of a node is that of its shallowest proof tree.
use arxdb.Base.{
  ℕ, zero, suc, ◌+◌, ◌<◌, ◌≤◌, ◌≡◌, refl, sym, subst, inl, inr, true, none, some, List, [], Memᴰ,
  arith, Option-cases, nat_eq, bytes_eq, pair_eq, length, sum_over, sum_over-le, sum_over-lt,
  sum_over-bound,
}
use arxdb.Base.Dict.{Dict, get}
use arxdb.Storage.Hashing.{Hash}
use arxdb.Verification.Schema.{Edge}
use arxdb.Query.Reachability.{
  depth_fuel, Item, Fix, lookups, shallower, max_depth, depth_update, depth_visit,
}
use arxdb.Query.Reachability.Spec.{Shallow, assumed, given, derived}
use arxdb.Query.Reachability.Lookups.{lookups-some}
use arxdb.Query.Reachability.Lowering.{
  max_depth-le, le-max_depth, lower, AtMost, AtMost-lower, get-lower, depth_update-depth,
  depth_update-shallower, depth_visit-cases,
}
use arxdb.Query.Reachability.Weights.{
  present, present-le, present-lower, present-lower_new, weight, weight-lower-le, weight-lower-lt,
}

module _ (es : List Item) (extra : List Hash) where
  unfoldable pub count : Dict Hash ℕ → ℕ
  count depth = sum_over (λ x. present depth x.1.conclusion) es

  count-le : (depth : Dict Hash ℕ) → count depth ≤ length es
  unfolding count
  count-le depth =
      let b =
        sum_over-bound (λ (x : Item). present depth x.1.conclusion) 1 es
          (λ x. present-le depth x.1.conclusion) in
      omega arith

  -- Each depth is that of a proof tree and at most the number of edges whose conclusion has one.
  pub record IsLow (s : Fix) : Type 0 where
    pub sound : (n : Hash) (d : ℕ) → get s.depth n ≡ some d → Shallow es extra d n
    pub leaves :
        (h : Hash) (e : Edge) → Memᴰ (h, e) es → e.premises ≡ [] → AtMost s.depth e.conclusion 0
    pub extras : (n : Hash) → Memᴰ n extra → AtMost s.depth n 0
    pub small : (n : Hash) (d : ℕ) → get s.depth n ≡ some d → d ≤ count s.depth

  pub Shallow-weaken : (c d : ℕ) → c ≤ d → {n : Hash} → Shallow es extra c n → Shallow es extra d n
  Shallow-weaken c d le (assumed m) = assumed m
  Shallow-weaken c d le (given h e m z q) = given h e m z q
  Shallow-weaken c zero le (derived {d = b} h e m q ps) = absurd (omega arith)
  Shallow-weaken c (suc d) le (derived {d = b} h e m q ps) =
      derived h e m q (λ p mp. Shallow-weaken b d (omega arith) (ps p mp))

  -- The depth that an edge offers is that of a tree, and fits under the count after the update.
  offered :
      (h : Hash) (e : Edge) (s : Fix) (ds : List ℕ)
      → Memᴰ (h, e) es
      → lookups s.depth e.premises ≡ some ds
      → IsLow s
      → Shallow es extra (suc (max_depth ds)) e.conclusion × (max_depth ds ≤ count s.depth)
  offered h e s ds m q inv =
      let (values, back) = lookups-some s.depth e.premises ds q in
      (
        derived h e m refl (λ p mp.
            let (v, ev, mv) = values p mp in
            Shallow-weaken v (max_depth ds) (le-max_depth ds v mv) (inv.sound p v ev)),
        max_depth-le ds (count s.depth) (λ v mv. let (p, mp, ev) = back v mv in inv.small p v ev),
      )

  count-lower :
      (depth : Dict Hash ℕ) (h : Hash) (e : Edge) (d : ℕ)
      → Memᴰ (h, e) es
      → (count depth ≤ count (lower depth e.conclusion d))
        × (get depth e.conclusion ≡ none → count depth < count (lower depth e.conclusion d))
  unfolding count
  count-lower depth h e d m = (
    sum_over-le (λ (x : Item). present depth x.1.conclusion)
        (λ (x : Item). present (lower depth e.conclusion d) x.1.conclusion) es
        (λ x _. present-lower depth e.conclusion d x.1.conclusion),
    λ z.
        sum_over-lt (λ (x : Item). present depth x.1.conclusion)
          (λ (x : Item). present (lower depth e.conclusion d) x.1.conclusion) es
          (λ x _. present-lower depth e.conclusion d x.1.conclusion) (h, e) m
          (present-lower_new depth e.conclusion d z),
  )

  -- A depth that is new at its node is at most the new count.
  fits :
      (h : Hash) (e : Edge) (s : Fix) (d : ℕ)
      → Memᴰ (h, e) es
      → d ≤ count s.depth
      → IsLow s
      → shallower s.depth e.conclusion (suc d) ≡ true
      → suc d ≤ count (lower s.depth e.conclusion (suc d))
  unfolding shallower
  fits h e s d m le inv q =
      let (grows, strictly) = count-lower s.depth h e (suc d) m in
      elim (Option-cases (get s.depth e.conclusion)) [
        | inl z ↦ omega (arith, strictly z)
        | inr (old, g) ↦ let bound = inv.small e.conclusion old g in ground arith
      ]

  lower-IsLow :
      (h : Hash) (e : Edge) (s t : Fix) (d : ℕ)
      → Memᴰ (h, e) es
      → Shallow es extra (suc d) e.conclusion
      → d ≤ count s.depth
      → t.depth ≡ lower s.depth e.conclusion (suc d)
      → IsLow s
      → IsLow t
  lower-IsLow h e s t d m tree le q inv = record {
    sound = λ n j g.
        elim (get-lower s.depth e.conclusion (suc d) n j (subst (λ z. get z n ≡ some j) q g)) [
          | inl old ↦ inv.sound n j old
          | inr (at, new, _) ↦
              subst (λ z. Shallow es extra z n) (sym new)
                (subst (Shallow es extra (suc d)) (sym at) tree)
        ];
    leaves = λ a x mx z.
        subst (λ w. AtMost w x.conclusion 0) (sym q)
          (AtMost-lower s.depth e.conclusion (suc d) x.conclusion 0 (inv.leaves a x mx z));
    extras = λ n mn.
        subst (λ w. AtMost w n 0) (sym q)
          (AtMost-lower s.depth e.conclusion (suc d) n 0 (inv.extras n mn));
    small = λ n j g.
        subst (λ w. j ≤ count w) (sym q)
          (elim (get-lower s.depth e.conclusion (suc d) n j (subst (λ z. get z n ≡ some j) q g)) [
            | inl old ↦
                let a = inv.small n j old in
                let b = (count-lower s.depth h e (suc d) m).0 in omega arith
            | inr (at, new, t) ↦ let a = fits h e s d m le inv t in rw new a
          ]);
  }

  pub depth_visit-IsLow : (x : Item) (s : Fix) → Memᴰ x es → IsLow s → IsLow (depth_visit x s).0
  depth_visit-IsLow (h, e) s m inv = elim (depth_visit-cases (h, e) s) [
    | inl (q, _) ↦ rw q inv
    | inr (ds, q, v) ↦
        let (tree, le) = offered h e s ds m q inv in
        let one : 1 + max_depth ds ≡ suc (max_depth ds) = omega arith in
        rw (v, one)
          (lower-IsLow h e s (depth_update (h, e) (suc (max_depth ds)) s).0 (max_depth ds) m tree le
            (depth_update-depth (h, e) (suc (max_depth ds)) s) inv)
  ]

  unfoldable pub depth_measure : Fix → ℕ
  depth_measure s = sum_over (λ x. weight (suc (length es)) s.depth x.1.conclusion) es

  pub depth_visit-less :
      (x : Item) (s : Fix)
      → Memᴰ x es
      → IsLow s
      → (depth_visit x s).1 ≡ true
      → depth_measure (depth_visit x s).0 < depth_measure s
  unfolding depth_measure
  depth_visit-less (h, e) s m inv go = elim (depth_visit-cases (h, e) s) [
    | inl (q, _) ↦ cc (rw q at go)
    | inr (ds, q, v) ↦
        let (tree, le) = offered h e s ds m q inv in
        let d = suc (max_depth ds) in
        let one : 1 + max_depth ds ≡ d = omega arith in
        let v' : depth_visit (h, e) s ≡ depth_update (h, e) d s = rw (← one) v in
        let changes = depth_update-shallower (h, e) d s (rw v' at go) in
        let room = fits h e s (max_depth ds) m le inv changes in
        let most = count-le (lower s.depth e.conclusion d) in
        rw (v', depth_update-depth (h, e) d s)
          (sum_over-lt
            (λ (y : Item). weight (suc (length es)) (lower s.depth e.conclusion d) y.1.conclusion)
            (λ (y : Item). weight (suc (length es)) s.depth y.1.conclusion) es
            (λ y _.
              weight-lower-le (suc (length es)) s.depth e.conclusion d y.1.conclusion (omega arith))
            (h, e) m
            (weight-lower-lt (suc (length es)) s.depth e.conclusion d (omega arith) changes))
  ]

  pub depth_measure-lt_fuel : (s : Fix) → IsLow s → depth_measure s < depth_fuel es
  unfolding depth_measure weight
  depth_measure-lt_fuel s inv =
      let each = λ (n : Hash).
        elim (Option-cases (get s.depth n))
          as (λ _. weight (suc (length es)) s.depth n ≤ suc (length es)) [
            | inl z ↦ ground arith
            | inr (d, g) ↦ let a = inv.small n d g in let b = count-le s.depth in ground arith
          ] in
      let bound =
        sum_over-bound (λ (x : Item). weight (suc (length es)) s.depth x.1.conclusion)
          (suc (length es)) es (λ x. each x.1.conclusion) in
      omega arith
