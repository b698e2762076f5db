-- ===== src/Base/Sums.antt =====
-- Sums over a list, the measures of the loops.
use Prim.Native.Nat.{ℕ, ◌+◌, ◌*◌, ◌≤◌, ◌<◌}
use mathlib.Core.Path.{refl, subst}
use mathlib.Core.Logic.{⊎_elim}
use mathlib.Core.List.{List, [], ◌∷◌, Memᴰ}
use mathlib.Core.List.Memᴰ
use native.Mathlib.Omega.{arith}
use arxdb.Base.Lists.{length}

module _ {ℓ} {A : Type ℓ} where
  abbrev pub sum_over : (A → ℕ) → List A → ℕ
  sum_over f [] = 0
  sum_over f (x ∷ xs) = f x + sum_over f xs

  pub sum_over-le :
      (f g : A → ℕ) (xs : List A)
      → ((x : A) → Memᴰ x xs → f x ≤ g x)
      → sum_over f xs ≤ sum_over g xs
  sum_over-le f g [] h = omega arith
  sum_over-le f g (x ∷ xs) h =
      omega (arith, h x (Memᴰ.head refl), sum_over-le f g xs (λ y m. h y (Memᴰ.tail m)))

  pub sum_over-lt :
      (f g : A → ℕ) (xs : List A)
      → ((x : A) → Memᴰ x xs → f x ≤ g x)
      → (x : A) → Memᴰ x xs
      → f x < g x
      → sum_over f xs < sum_over g xs
  sum_over-lt f g [] h x m less = absurd (Memᴰ.not-nil m)
  sum_over-lt f g (y ∷ xs) h x m less =
      let rest = λ (z : A) (t : Memᴰ z xs). h z (Memᴰ.tail t) in
      ⊎_elim
        (λ e.
          let here : f y < g y = subst (λ z. f z < g z) e less in
          omega (arith, sum_over-le f g xs rest))
        (λ t. omega (arith, h y (Memᴰ.head refl), sum_over-lt f g xs rest x t less))
        (Memᴰ.cases_cons m)

  pub sum_over-bound :
      (f : A → ℕ) (c : ℕ) (xs : List A) → ((x : A) → f x ≤ c) → sum_over f xs ≤ c * length xs
  sum_over-bound f c [] h = omega arith
  sum_over-bound f c (x ∷ xs) h = omega (arith, h x, sum_over-bound f c xs h)
