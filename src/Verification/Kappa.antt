-- ===== src/Verification/Kappa.antt =====
-- src/arxdb/verification/kappa.py: the κ scale and its algebra. A rank is only ever compared, so
-- the rank ∞ of `K_INF` is 4 here, above the others.
use arxdb.Base.{
  ℕ, ◌≤◌, ◌≡◌, refl, inl, inr, List, [], ◌∷◌, Memᴰ, arith, ltb, if◌then◌else◌, Bool-cases, nat_eq,
  bytes_eq, pair_eq,
}
use mathlib.Core.Logic.{⊎_elim}
use mathlib.Core.List.Memᴰ
use arxdb.Base.Result.{Result, ok, err, value_error}
use arxdb.Verification.Schema.{Kappa, k0, k1, k2, k3, k_inf}

abbrev pub rank : Kappa → ℕ
rank k0 = 0
rank k1 = 1
rank k2 = 2
rank k3 = 3
rank k_inf = 4

-- `min(ks, key=rank)` with the first label in hand: the first of the least ones.
unfoldable pub weakest : Kappa → List Kappa → Kappa
weakest k [] = k
weakest k (j ∷ ks) = weakest (if ltb (rank j) (rank k) then j else k) ks

unfoldable pub strongest : Kappa → List Kappa → Kappa
strongest k [] = k
strongest k (j ∷ ks) = strongest (if ltb (rank k) (rank j) then j else k) ks

unfoldable pub min_kappa : List Kappa → Result Kappa
unfolding weakest
min_kappa [] = err value_error
min_kappa (k ∷ ks) = ok (weakest k ks)

unfoldable pub max_kappa : List Kappa → Result Kappa
unfolding strongest
max_kappa [] = err value_error
max_kappa (k ∷ ks) = ok (strongest k ks)

unfoldable pub series : Kappa → Kappa → Result Kappa
unfolding min_kappa
series a b = min_kappa (a ∷ b ∷ [])

unfoldable pub parallel : List Kappa → Result Kappa
unfolding min_kappa
parallel ks = min_kappa ks

unfoldable pub corroborate : List Kappa → Result Kappa
unfolding max_kappa
corroborate ks = max_kappa ks

pub rank_injective : (a b : Kappa) → rank a ≡ rank b → a ≡ b
rank_injective a b h = ground arith

pub rank-le-k_inf : (k : Kappa) → rank k ≤ rank k_inf
rank-le-k_inf k = ground arith

-- The weakest label is one of the labels and below each of them.
pub weakest-le :
    (k : Kappa) (ks : List Kappa)
    → (rank (weakest k ks) ≤ rank k) × ((j : Kappa) → Memᴰ j ks → rank (weakest k ks) ≤ rank j)
unfolding weakest
weakest-le k [] = (omega arith, λ j m. absurd (Memᴰ.not-nil m))
weakest-le k (i ∷ ks) = elim (Bool-cases (ltb (rank i) (rank k))) [
  | inl less ↦
      let (head, rest) = weakest-le i ks in
      rw less (ground arith, λ j m. ⊎_elim (λ e. rw e head) (rest j) (Memᴰ.cases_cons m))
  | inr more ↦
      let (head, rest) = weakest-le k ks in
      rw more (head, λ j m. ⊎_elim (λ e. rw e (ground arith)) (rest j) (Memᴰ.cases_cons m))
]

pub weakest-glb :
    (l : ℕ) (k : Kappa) (ks : List Kappa)
    → l ≤ rank k
    → ((j : Kappa) → Memᴰ j ks → l ≤ rank j)
    → l ≤ rank (weakest k ks)
unfolding weakest
weakest-glb l k [] h hs = h
weakest-glb l k (i ∷ ks) h hs =
    let below : l ≤ rank (if ltb (rank i) (rank k) then i else k) =
      elim (Bool-cases (ltb (rank i) (rank k))) [
        | inl e ↦ rw e (hs i (Memᴰ.head refl))
        | inr e ↦ rw e h
      ] in
    weakest-glb l (if ltb (rank i) (rank k) then i else k) ks below (λ j m. hs j (Memᴰ.tail m))
