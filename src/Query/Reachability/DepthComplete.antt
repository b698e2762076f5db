-- ===== src/Query/Reachability/DepthComplete.antt =====
-- The depth loop ends complete.
use arxdb.Base.{
  is_empty_iff, is_empty, ℕ, suc, ◌+◌, ◌≤◌, ◌≡◌, refl, sym, ap, ◌∙◌, subst, ◌≢◌, inl, inr, false,
  none, some, List, [], ◌∷◌, Memᴰ, arith, Bool-cases, nat_eq, bytes_eq, pair_eq,
}
use mathlib.Core.Logic.{⊎_elim}
use mathlib.Core.List.Memᴰ
use arxdb.Base.Dict.{get}
use arxdb.Storage.Hashing.{Hash}
use arxdb.Verification.Schema.{Edge, Kappa, k0}
use arxdb.Query.Reachability.{Item, Fix, max_depth, depth_update, depth_visit}
use arxdb.Query.Reachability.Spec.{Proved, Shallow, assumed, given, derived}
use arxdb.Query.Reachability.Lookups.{lookups-some, lookups_total}
use arxdb.Query.Reachability.Lowering.{
  max_depth-le, lower, AtMost, lower-AtMost, depth_update-depth, depth_update-same,
  depth_visit-cases,
}
use arxdb.Query.Reachability.Shallowest.{IsLow, count, Shallow-weaken}

module _ (es : List Item) (extra : List Hash) where
  pub IsLow-same : (s t : Fix) → t.depth ≡ s.depth → IsLow es extra s → IsLow es extra t
  IsLow-same s t q inv = record {
    sound = λ n d g. inv.sound n d (subst (λ z. get z n ≡ some d) q g);
    leaves = λ h e m z. subst (λ w. AtMost w e.conclusion 0) (sym q) (inv.leaves h e m z);
    extras = λ n m. subst (λ w. AtMost w n 0) (sym q) (inv.extras n m);
    small = λ n d g.
        subst (λ w. d ≤ count es extra w) (sym q)
          (inv.small n d (subst (λ z. get z n ≡ some d) q g));
  }

  pub Shallow-Proved : {d : ℕ} {n : Hash} → Shallow es extra d n → Proved es extra k0 n
  Shallow-Proved (assumed m) = assumed m
  Shallow-Proved (given h e m z q) =
      derived h e m (omega arith) q (λ p mp. absurd (Memᴰ.not-nil (subst (Memᴰ p) z mp)))
  Shallow-Proved (derived h e m q ps) =
      derived h e m (omega arith) q (λ p mp. Shallow-Proved (ps p mp))

  all-Shallow :
      (ps : List Hash)
      → ((p : Hash) → Memᴰ p ps → (d : ℕ) × Shallow es extra d p)
      → (d : ℕ) × ((p : Hash) → Memᴰ p ps → Shallow es extra d p)
  all-Shallow [] h = (0, λ p m. absurd (Memᴰ.not-nil m))
  all-Shallow (q ∷ ps) h =
      let (a, first) = h q (Memᴰ.head refl) in
      let (b, rest) = all-Shallow ps (λ p m. h p (Memᴰ.tail m)) in
      (
        a + b,
        λ p m.
            ⊎_elim
              (λ e.
                Shallow-weaken es extra a (a + b) (omega arith)
                  (subst (Shallow es extra a) (sym e) first))
              (λ t. Shallow-weaken es extra b (a + b) (omega arith) (rest p t)) (Memᴰ.cases_cons m),
      )

  pub Proved-Shallow : {k : Kappa} {n : Hash} → Proved es extra k n → (d : ℕ) × Shallow es extra d n
  Proved-Shallow (assumed m) = (0, assumed m)
  Proved-Shallow (derived h e m r q ps) =
      let (d, each) = all-Shallow e.premises (λ p mp. Proved-Shallow (ps p mp)) in
      (suc d, derived h e m q each)

  -- At the end every edge whose premises have depth `d` or less has offered `d + 1`.
  depth_stable-edge :
      (u : Fix) (h : Hash) (e : Edge) (d : ℕ)
      → (depth_visit (h, e) u).1 ≡ false
      → e.premises ≢ []
      → get u.kappa e.conclusion ≢ none
      → ((p : Hash) → Memᴰ p e.premises → AtMost u.depth p d)
      → AtMost u.depth e.conclusion (suc d)
  depth_stable-edge u h e d stop some_premise strong each =
      let (ds, q) = lookups_total u.depth e.premises (λ p m. let (j, g, _) = each p m in (j, g)) in
      let b = 1 + max_depth ds in
      let visited : depth_visit (h, e) u ≡ depth_update (h, e) b u =
        elim (depth_visit-cases (h, e) u) [
          | inl (_, inl z) ↦ absurd (some_premise z)
          | inl (_, inr (inl z)) ↦ absurd (strong z)
          | inl (_, inr (inr z)) ↦ cc (z, q)
          | inr (ds', q', v) ↦ cc (q, q', v)
        ] in
      let still = depth_update-same (h, e) b u (rw visited at stop) in
      let fixed : u.depth ≡ lower u.depth e.conclusion b =
        ap (λ (z : Fix). z.depth) (sym still) ∙ depth_update-depth (h, e) b u in
      let low : max_depth ds ≤ d = max_depth-le ds d (λ v mv.
        let (p, mp, g) = (lookups-some u.depth e.premises ds q).1 v mv in
        let (j, g', le) = each p mp in
        let same : j ≡ v = cc (g, g') in subst (λ z. z ≤ d) same le) in
      let (j, g, le) = lower-AtMost u.depth e.conclusion b in
      (j, subst (λ w. get w e.conclusion ≡ some j) (sym fixed) g, omega arith)

  pub depth_stable_complete :
      (u : Fix)
      → IsLow es extra u
      → ((n : Hash) → Proved es extra k0 n → get u.kappa n ≢ none)
      → ((x : Item) → Memᴰ x es → (depth_visit x u).1 ≡ false)
      → {d : ℕ} {n : Hash} → Shallow es extra d n
      → AtMost u.depth n d
  depth_stable_complete u inv known stop (assumed {d} {n} m) =
      let (j, g, le) = inv.extras n m in (j, g, omega arith)
  depth_stable_complete u inv known stop (given {d} {n} h e m z q) =
      let (j, g, le) = inv.leaves h e m z in
      (j, subst (λ w. get u.depth w ≡ some j) (sym q) g, omega arith)
  depth_stable_complete u inv known stop (derived {d} {n} h e m q ps) =
      let each =
        λ (p : Hash) (mp : Memᴰ p e.premises). depth_stable_complete u inv known stop (ps p mp) in
      let tree : Proved es extra k0 e.conclusion =
        derived h e m (omega arith) refl (λ p mp. Shallow-Proved (ps p mp)) in
      let at : AtMost u.depth e.conclusion (suc d) = elim (Bool-cases (is_empty e.premises)) [
        | inl z ↦
            let (j, g, le) = inv.leaves h e m ((is_empty_iff e.premises).0 z) in (j, g, omega arith)
        | inr f ↦
            depth_stable-edge u h e d (stop (h, e) m) (λ z. cc (f, (is_empty_iff e.premises).1 z))
              (known e.conclusion tree) each
      ] in
      subst (λ w. AtMost u.depth w (suc d)) (sym q) at
