-- ===== src/Query/Reachability/Seeding.antt =====
-- `_seed` of src/arxdb/query/reachability.py: the values the loops start from.
use arxdb.Base.{
  is_empty_iff, is_empty, ℕ, ◌≡◌, refl, sym, subst, inl, inr, Option, none, some, List, [], ◌∷◌,
  Memᴰ, arith, Bool-cases, nat_eq, bytes_eq, pair_eq,
}
use mathlib.Core.Logic.{⊎_elim}
use mathlib.Core.List.Memᴰ
use arxdb.Base.Dict.{get}
use arxdb.Storage.Hashing.{Hash}
use arxdb.Verification.Schema.{Kappa, k_inf}
use arxdb.Verification.Kappa.{rank}
use arxdb.Query.Reachability.{Item, Fix, no_fix, seed, seed_leaf, seed_edges, seed_extra, seeded}
use arxdb.Query.Reachability.Spec.{Proved, assumed, derived}
use arxdb.Query.Reachability.Lookups.{AtLeast, AtLeast-raise, raise-AtLeast, get-raise}
use arxdb.Query.Reachability.Strength.{IsStrong}

-- Seeding keeps what is there, and gives each leaf and each assumption its value.
seed_leaf-keeps :
    (x : Item) (s : Fix) (n : Hash) (r : ℕ)
    → AtLeast s.kappa n r
    → AtLeast (seed_leaf x s).kappa n r
unfolding seed_leaf seed
seed_leaf-keeps (a, e) s n r h = elim (Bool-cases (is_empty e.premises)) [
  | inl t ↦ rw t (AtLeast-raise s.kappa e.conclusion e.kappa n r h)
  | inr f ↦ rw f h
]

seed_edges-keeps :
    (todo : List Item) (s : Fix) (n : Hash) (r : ℕ)
    → AtLeast s.kappa n r
    → AtLeast (seed_edges todo s).kappa n r
unfolding seed_edges
seed_edges-keeps [] s n r h = h
seed_edges-keeps (x ∷ todo) s n r h =
    seed_edges-keeps todo (seed_leaf x s) n r (seed_leaf-keeps x s n r h)

seed_extra-keeps :
    (todo : List Hash) (s : Fix) (n : Hash) (r : ℕ)
    → AtLeast s.kappa n r
    → AtLeast (seed_extra todo s).kappa n r
unfolding seed_extra seed
seed_extra-keeps [] s n r h = h
seed_extra-keeps (x ∷ todo) s n r h =
    seed_extra-keeps todo (seed s x k_inf none) n r (AtLeast-raise s.kappa x k_inf n r h)

seed_leaf-leaf :
    (x : Item) (s : Fix)
    → x.1.premises ≡ []
    → AtLeast (seed_leaf x s).kappa x.1.conclusion (rank x.1.kappa)
unfolding seed_leaf seed
seed_leaf-leaf (a, e) s z =
    rw ((is_empty_iff e.premises).1 z) (raise-AtLeast s.kappa e.conclusion e.kappa)

seed_edges-leaves :
    (todo : List Item) (s : Fix) (x : Item)
    → Memᴰ x todo
    → x.1.premises ≡ []
    → AtLeast (seed_edges todo s).kappa x.1.conclusion (rank x.1.kappa)
unfolding seed_edges
seed_edges-leaves [] s x m z = absurd (Memᴰ.not-nil m)
seed_edges-leaves (y ∷ todo) s x m z =
    ⊎_elim
      (λ q. seed_edges-keeps todo (seed_leaf y s) x.1.conclusion (rank x.1.kappa) (
        subst (λ w. AtLeast (seed_leaf w s).kappa x.1.conclusion (rank x.1.kappa)) q
          (seed_leaf-leaf x s z)))
      (λ t. seed_edges-leaves todo (seed_leaf y s) x t z) (Memᴰ.cases_cons m)

seed_extra-extras :
    (todo : List Hash) (s : Fix) (n : Hash)
    → Memᴰ n todo
    → AtLeast (seed_extra todo s).kappa n (rank k_inf)
unfolding seed_extra seed
seed_extra-extras [] s n m = absurd (Memᴰ.not-nil m)
seed_extra-extras (x ∷ todo) s n m =
    ⊎_elim
      (λ q. rw q (
        seed_extra-keeps todo (seed s x k_inf none) x (rank k_inf) (raise-AtLeast s.kappa x k_inf)))
      (λ t. seed_extra-extras todo (seed s x k_inf none) n t) (Memᴰ.cases_cons m)

module _ (es : List Item) (extra : List Hash) where
  abbrev IsSound : Fix → Type 0
  IsSound s = (n : Hash) (k : Kappa) → get s.kappa n ≡ some k → Proved es extra k n

  seed-IsSound :
      (s : Fix) (n : Hash) (k : Kappa) (edge : Option Hash)
      → Proved es extra k n
      → IsSound s
      → IsSound (seed s n k edge)
  unfolding seed
  seed-IsSound s n k edge p h m j q = elim (get-raise s.kappa n k m j q) [
    | inl old ↦ h m j old
    | inr (at, new) ↦
        subst (λ z. Proved es extra z m) (sym new) (subst (Proved es extra k) (sym at) p)
  ]

  seed_leaf-IsSound : (x : Item) (s : Fix) → Memᴰ x es → IsSound s → IsSound (seed_leaf x s)
  unfolding seed_leaf
  seed_leaf-IsSound (a, e) s m h = elim (Bool-cases (is_empty e.premises)) [
    | inl t ↦
        let empty = (is_empty_iff e.premises).0 t in
        let leaf : Proved es extra e.kappa e.conclusion =
          derived a e m (omega arith) refl
            (λ p mp. absurd (Memᴰ.not-nil (subst (Memᴰ p) empty mp))) in
        rw t (seed-IsSound s e.conclusion e.kappa (some a) leaf h)
    | inr f ↦ rw f h
  ]

  seed_edges-IsSound :
      (todo : List Item) (s : Fix)
      → ((x : Item) → Memᴰ x todo → Memᴰ x es)
      → IsSound s
      → IsSound (seed_edges todo s)
  unfolding seed_edges
  seed_edges-IsSound [] s w h = h
  seed_edges-IsSound (x ∷ todo) s w h =
      seed_edges-IsSound todo (seed_leaf x s) (λ y m. w y (Memᴰ.tail m))
        (seed_leaf-IsSound x s (w x (Memᴰ.head refl)) h)

  seed_extra-IsSound :
      (todo : List Hash) (s : Fix)
      → ((x : Hash) → Memᴰ x todo → Memᴰ x extra)
      → IsSound s
      → IsSound (seed_extra todo s)
  unfolding seed_extra
  seed_extra-IsSound [] s w h = h
  seed_extra-IsSound (x ∷ todo) s w h =
      seed_extra-IsSound todo (seed s x k_inf none) (λ y m. w y (Memᴰ.tail m))
        (seed-IsSound s x k_inf none (assumed (w x (Memᴰ.head refl))) h)

  pub seeded-IsStrong : IsStrong es extra (seeded es extra)
  unfolding seeded
  seeded-IsStrong = record {
    sound =
        seed_extra-IsSound extra (seed_edges es no_fix) (λ x m. m)
          (seed_edges-IsSound es no_fix (λ x m. m) (λ n k q. unfold get in cc));
    leaves = λ h e m z.
        seed_extra-keeps extra (seed_edges es no_fix) e.conclusion (rank e.kappa)
          (seed_edges-leaves es no_fix (h, e) m z);
    extras = λ n m. seed_extra-extras extra (seed_edges es no_fix) n m;
  }
