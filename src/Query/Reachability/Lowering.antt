-- ===== src/Query/Reachability/Lowering.antt =====
-- One visit of the depth loop: it keeps the invariant, and a change lowers the measure.
use arxdb.Base.{
  is_empty_iff, is_empty, ℕ, ◌+◌, ◌≤◌, ◌≡◌, refl, ◌⊎◌, inl, inr, true, false, none, some, List, [],
  ◌∷◌, Memᴰ, arith, ltb, if◌then◌else◌, Bool-cases, Option-cases, ◌==◌, ==_iff, ==_refl, eq_of_==,
  nat_eq, bytes_eq, pair_eq,
}
use mathlib.Core.Logic.{⊎_elim}
use mathlib.Core.List.Memᴰ
use arxdb.Base.Dict.{Dict, get, set, get-set, has}
use arxdb.Storage.Hashing.{Hash}
use arxdb.Query.Reachability.{
  Item, Fix, lookups, shallower, max_from, max_depth, depth_update, depth_visit,
}

max_from-le :
    (m : ℕ) (xs : List ℕ) (c : ℕ) → m ≤ c → ((x : ℕ) → Memᴰ x xs → x ≤ c) → max_from m xs ≤ c
unfolding max_from
max_from-le m [] c h hs = h
max_from-le m (x ∷ xs) c h hs =
    max_from-le (if ltb m x then x else m) xs c (ground (arith, hs x (Memᴰ.head refl)))
      (λ y t. hs y (Memᴰ.tail t))

le-max_from :
    (m : ℕ) (xs : List ℕ) → (m ≤ max_from m xs) × ((x : ℕ) → Memᴰ x xs → x ≤ max_from m xs)
unfolding max_from
le-max_from m [] = (omega arith, λ x t. absurd (Memᴰ.not-nil t))
le-max_from m (y ∷ xs) =
    let (low, rest) = le-max_from (if ltb m y then y else m) xs in
    (ground arith, λ x t. ⊎_elim (λ e. rw e (ground arith)) (rest x) (Memᴰ.cases_cons t))

pub max_depth-le : (xs : List ℕ) (c : ℕ) → ((x : ℕ) → Memᴰ x xs → x ≤ c) → max_depth xs ≤ c
unfolding max_depth
max_depth-le [] c hs = omega arith
max_depth-le (x ∷ xs) c hs = max_from-le x xs c (hs x (Memᴰ.head refl)) (λ y t. hs y (Memᴰ.tail t))

pub le-max_depth : (xs : List ℕ) (x : ℕ) → Memᴰ x xs → x ≤ max_depth xs
unfolding max_depth
le-max_depth [] x m = absurd (Memᴰ.not-nil m)
le-max_depth (y ∷ xs) x m =
    let (low, rest) = le-max_from y xs in ⊎_elim (λ e. rw e low) (rest x) (Memᴰ.cases_cons m)

-- `depth` after `depth_update`.
unfoldable pub lower : Dict Hash ℕ → Hash → ℕ → Dict Hash ℕ
lower depth n d = if shallower depth n d then set depth n d else depth

-- The value at `n` is `d` or less.
abbrev pub AtMost : Dict Hash ℕ → Hash → ℕ → Type 0
AtMost depth n d = (j : ℕ) × (get depth n ≡ some j) × (j ≤ d)

pub AtMost-lower :
    (depth : Dict Hash ℕ) (node : Hash) (k : ℕ) (n : Hash) (d : ℕ)
    → AtMost depth n d
    → AtMost (lower depth node k) n d
unfolding lower shallower
AtMost-lower depth node k n d (j, e, h) = elim (Bool-cases (shallower depth node k)) [
  | inl t ↦ elim (Bool-cases (node == n)) [
    | inl q ↦
        let same = eq_of_== node n q in (k, ground (arith, get-set depth node n k), ground arith)
    | inr f ↦ (j, ground (arith, get-set depth node n k), h)
  ]
  | inr f ↦ (j, ground arith, h)
]

pub lower-AtMost : (depth : Dict Hash ℕ) (node : Hash) (k : ℕ) → AtMost (lower depth node k) node k
unfolding lower shallower
lower-AtMost depth node k = elim (Option-cases (get depth node)) [
  | inl n ↦ (k, ground (arith, get-set depth node node k, ==_refl node), omega arith)
  | inr (j, e) ↦ elim (Bool-cases (ltb k j)) [
    | inl t ↦ (k, ground (arith, get-set depth node node k, ==_refl node), omega arith)
    | inr f ↦ (j, ground arith, ground arith)
  ]
]

pub get-lower :
    (depth : Dict Hash ℕ) (node : Hash) (k : ℕ) (n : Hash) (j : ℕ)
    → get (lower depth node k) n ≡ some j
    → (get depth n ≡ some j) ⊎ ((n ≡ node) × (j ≡ k) × (shallower depth node k ≡ true))
unfolding lower shallower
get-lower depth node k n j h = ground (arith, get-set depth node n k, ==_iff node n)

pub depth_update-depth :
    (x : Item) (d : ℕ) (s : Fix) → (depth_update x d s).0.depth ≡ lower s.depth x.1.conclusion d
unfolding depth_update lower
depth_update-depth (h, e) d s = elim (Bool-cases (shallower s.depth e.conclusion d)) [
  | inl t ↦ rw (t, depth_update)
  | inr f ↦ rw (f, depth_update)
]

pub depth_update-kappa : (x : Item) (d : ℕ) (s : Fix) → (depth_update x d s).0.kappa ≡ s.kappa
unfolding depth_update
depth_update-kappa (h, e) d s = elim (Bool-cases (shallower s.depth e.conclusion d)) [
  | inl t ↦ rw (t, depth_update)
  | inr f ↦ rw (f, depth_update)
]

pub depth_update-same :
    (x : Item) (d : ℕ) (s : Fix) → (depth_update x d s).1 ≡ false → (depth_update x d s).0 ≡ s
unfolding depth_update
depth_update-same (h, e) d s = elim (Bool-cases (shallower s.depth e.conclusion d)) [
  | inl t ↦ rw t (λ q. cc)
  | inr f ↦ rw f (λ q. refl)
]

pub depth_update-shallower :
    (x : Item) (d : ℕ) (s : Fix)
    → (depth_update x d s).1 ≡ true
    → shallower s.depth x.1.conclusion d ≡ true
unfolding depth_update
depth_update-shallower (h, e) d s q = elim (Bool-cases (shallower s.depth e.conclusion d)) [
  | inl t ↦ t
  | inr f ↦ cc (rw f at q)
]

-- A visit does nothing, or it offers one more than the depth of the premises.
pub depth_visit-cases :
    (x : Item) (s : Fix)
    → ((depth_visit x s ≡ (s, false))
        × ((x.1.premises ≡ [])
            ⊎ (get s.kappa x.1.conclusion ≡ none)
            ⊎ (lookups s.depth x.1.premises ≡ none)))
      ⊎ ((ds : List ℕ) × (lookups s.depth x.1.premises ≡ some ds)
          × (depth_visit x s ≡ depth_update x (1 + max_depth ds) s))
unfolding depth_visit
depth_visit-cases (h, e) s = elim (Bool-cases (is_empty e.premises)) [
  | inl t ↦ inl (rw (t, depth_visit), inl ((is_empty_iff e.premises).0 t))
  | inr f ↦ elim (Option-cases (get s.kappa e.conclusion)) [
    | inl n ↦ inl (rw (f, has, n, depth_visit), inr (inl n))
    | inr (k, g) ↦ elim (Option-cases (lookups s.depth e.premises)) [
      | inl n ↦ inl (rw (f, has, g, n, depth_visit), inr (inr n))
      | inr (ds, q) ↦ inr (ds, q, rw (f, has, g, q, depth_visit))
    ]
  ]
]
