-- ===== src/Query/Reachability/SeededDepth.antt =====
-- The depth loop starts in its invariant: the seeds have depth 0.
use arxdb.Base.{
  is_empty_iff, is_empty, ℕ, ◌≡◌, refl, sym, subst, inl, inr, Option, none, some, List, [], ◌∷◌,
  Memᴰ, arith, Bool-cases, ◌==◌, ==_refl, eq_of_==, nat_eq, bytes_eq, pair_eq,
}
use mathlib.Core.Logic.{⊎_elim}
use mathlib.Core.List.Memᴰ
use arxdb.Base.Dict.{get, get-set}
use arxdb.Storage.Hashing.{Hash}
use arxdb.Verification.Schema.{Kappa, k_inf}
use arxdb.Query.Reachability.{Item, Fix, no_fix, seed, seed_leaf, seed_edges, seed_extra, seeded}
use arxdb.Query.Reachability.Spec.{Shallow, assumed, given}
use arxdb.Query.Reachability.Shallowest.{IsLow, Shallow-weaken}

-- Seeding gives depth 0, and keeps what has it.
seed_leaf-zero :
    (x : Item) (s : Fix) (n : Hash) → get s.depth n ≡ some 0 → get (seed_leaf x s).depth n ≡ some 0
unfolding seed_leaf seed
seed_leaf-zero (a, e) s n h = elim (Bool-cases (is_empty e.premises)) [
  | inl t ↦ rw (t, get-set) (ground arith)
  | inr f ↦ rw f h
]

seed_edges-zero :
    (todo : List Item) (s : Fix) (n : Hash)
    → get s.depth n ≡ some 0
    → get (seed_edges todo s).depth n ≡ some 0
unfolding seed_edges
seed_edges-zero [] s n h = h
seed_edges-zero (x ∷ todo) s n h = seed_edges-zero todo (seed_leaf x s) n (seed_leaf-zero x s n h)

seed_extra-zero :
    (todo : List Hash) (s : Fix) (n : Hash)
    → get s.depth n ≡ some 0
    → get (seed_extra todo s).depth n ≡ some 0
unfolding seed_extra seed
seed_extra-zero [] s n h = h
seed_extra-zero (x ∷ todo) s n h =
    seed_extra-zero todo (seed s x k_inf none) n (rw get-set (ground arith))

seed_leaf-depth :
    (x : Item) (s : Fix) → x.1.premises ≡ [] → get (seed_leaf x s).depth x.1.conclusion ≡ some 0
unfolding seed_leaf seed
seed_leaf-depth (a, e) s z = rw ((is_empty_iff e.premises).1 z, get-set, ==_refl e.conclusion)

seed_edges-depth :
    (todo : List Item) (s : Fix) (x : Item)
    → Memᴰ x todo
    → x.1.premises ≡ []
    → get (seed_edges todo s).depth x.1.conclusion ≡ some 0
unfolding seed_edges
seed_edges-depth [] s x m z = absurd (Memᴰ.not-nil m)
seed_edges-depth (y ∷ todo) s x m z =
    ⊎_elim
      (λ q.
        seed_edges-zero todo (seed_leaf y s) x.1.conclusion (
          subst (λ w. get (seed_leaf w s).depth x.1.conclusion ≡ some 0) q (seed_leaf-depth x s z)))
      (λ t. seed_edges-depth todo (seed_leaf y s) x t z) (Memᴰ.cases_cons m)

seed_extra-depth :
    (todo : List Hash) (s : Fix) (n : Hash) → Memᴰ n todo → get (seed_extra todo s).depth n ≡ some 0
unfolding seed_extra seed
seed_extra-depth [] s n m = absurd (Memᴰ.not-nil m)
seed_extra-depth (x ∷ todo) s n m =
    ⊎_elim
      (λ q.
        seed_extra-zero todo (seed s x k_inf none) n (
          subst (λ w. get (seed s x k_inf none).depth w ≡ some 0) (sym q)
            (rw (get-set, ==_refl x))))
      (λ t. seed_extra-depth todo (seed s x k_inf none) n t) (Memᴰ.cases_cons m)

module _ (es : List Item) (extra : List Hash) where
  abbrev AllZero : Fix → Type 0
  AllZero s = (n : Hash) (d : ℕ) → get s.depth n ≡ some d → (d ≡ 0) × Shallow es extra 0 n

  seed-AllZero :
      (s : Fix) (n : Hash) (k : Kappa) (edge : Option Hash)
      → Shallow es extra 0 n
      → AllZero s
      → AllZero (seed s n k edge)
  unfolding seed
  seed-AllZero s n k edge tree h m d q = elim (Bool-cases (n == m)) [
    | inl t ↦
        let same = eq_of_== n m t in
        let z : d ≡ 0 = ground (arith, get-set s.depth n m 0) in
        (z, subst (Shallow es extra 0) same tree)
    | inr f ↦ h m d (ground (arith, get-set s.depth n m 0))
  ]

  seed_leaf-AllZero : (x : Item) (s : Fix) → Memᴰ x es → AllZero s → AllZero (seed_leaf x s)
  unfolding seed_leaf
  seed_leaf-AllZero (a, e) s m h = elim (Bool-cases (is_empty e.premises)) [
    | inl t ↦
        let leaf : Shallow es extra 0 e.conclusion =
          given a e m ((is_empty_iff e.premises).0 t) refl in
        rw t (seed-AllZero s e.conclusion e.kappa (some a) leaf h)
    | inr f ↦ rw f h
  ]

  seed_edges-AllZero :
      (todo : List Item) (s : Fix)
      → ((x : Item) → Memᴰ x todo → Memᴰ x es)
      → AllZero s
      → AllZero (seed_edges todo s)
  unfolding seed_edges
  seed_edges-AllZero [] s w h = h
  seed_edges-AllZero (x ∷ todo) s w h =
      seed_edges-AllZero todo (seed_leaf x s) (λ y m. w y (Memᴰ.tail m))
        (seed_leaf-AllZero x s (w x (Memᴰ.head refl)) h)

  seed_extra-AllZero :
      (todo : List Hash) (s : Fix)
      → ((x : Hash) → Memᴰ x todo → Memᴰ x extra)
      → AllZero s
      → AllZero (seed_extra todo s)
  unfolding seed_extra
  seed_extra-AllZero [] s w h = h
  seed_extra-AllZero (x ∷ todo) s w h =
      seed_extra-AllZero todo (seed s x k_inf none) (λ y m. w y (Memᴰ.tail m))
        (seed-AllZero s x k_inf none (assumed (w x (Memᴰ.head refl))) h)

  pub seeded-IsLow : IsLow es extra (seeded es extra)
  unfolding seeded
  seeded-IsLow =
      let start = seed_edges es no_fix in
      let zero_all =
        seed_extra-AllZero extra start (λ x m. m)
          (seed_edges-AllZero es no_fix (λ x m. m) (λ n d q. unfold get in cc)) in
      record {
        sound = λ n d q.
            let (z, tree) = zero_all n d q in Shallow-weaken es extra 0 d (omega arith) tree;
        leaves = λ h e m z. (
          0,
          seed_extra-zero extra start e.conclusion (seed_edges-depth es no_fix (h, e) m z),
          omega arith,
        );
        extras = λ n m. (0, seed_extra-depth extra start n m, omega arith);
        small = λ n d q. let (z, _) = zero_all n d q in omega arith;
      }
