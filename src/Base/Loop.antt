-- ===== src/Base/Loop.antt =====
-- `changed = True; while changed: changed = False; ...`: the loop that stops at a round without a
-- change. A round returns the new state and its flag; `none` means that the fuel ran out.
use Prim.Native.Nat.{ℕ, zero, suc, ◌<◌, ◌≤◌}
use mathlib.Core.Path.{◌≡◌, refl, sym, ap, subst, ◌∙◌}
use mathlib.Core.Logic.{inl, inr, ⊎_elim}
use mathlib.Core.Bool.{Bool, true, false, ◌||◌}
use mathlib.Core.Option.{Option, none, some}
use mathlib.Core.List.{List, [], ◌∷◌, Memᴰ}
use mathlib.Core.List.Memᴰ
use native.Mathlib.Omega.{arith}
use arxdb.Base.Tests.{Bool-cases}

module _ {ℓ} {S : Type ℓ} where
  unfoldable pub until_stable : ℕ → (S → S × Bool) → S → Option S
  until_stable zero round s = none
  until_stable (suc fuel) round s = elim (round s).1 [
    | true ↦ until_stable fuel round (round s).0
    | false ↦ some (round s).0
  ]

  -- An invariant holds at the end, which is reached where each round that changes the state lowers
  -- a measure that was below the fuel. The last round changed nothing.
  pub until_stable_rule {κ} :
      (P : S → Type κ) (measure : S → ℕ) (round : S → S × Bool)
      → ((s : S) → P s → P (round s).0)
      → ((s : S) → P s → (round s).1 ≡ true → measure (round s).0 < measure s)
      → (fuel : ℕ) (s : S) → measure s < fuel
      → P s
      → (t : S) × (until_stable fuel round s ≡ some t)
        × P t
        × ((u : S) × P u × ((round u).0 ≡ t) × ((round u).1 ≡ false))
  unfolding until_stable
  until_stable_rule P measure round inv less zero s m p = absurd (omega arith)
  until_stable_rule P measure round inv less (suc fuel) s m p = elim (Bool-cases (round s).1) [
    | inl go ↦
        let h = less s p go in
        rw (go, until_stable)
          (until_stable_rule P measure round inv less fuel (round s).0 (omega arith) (inv s p))
    | inr stop ↦ rw (stop, until_stable) ((round s).0, refl, inv s p, (s, p, refl, stop))
  ]

-- `for x in xs: ...` with the flag `changed`.
module _ {ℓ κ} {S : Type ℓ} {A : Type κ} where
  unfoldable pub sweep : (A → S → S × Bool) → List A → S → S × Bool
  sweep visit [] s = (s, false)
  sweep visit (x ∷ xs) s =
      let (s1, c1) = visit x s in let (s2, c2) = sweep visit xs s1 in (s2, c1 || c2)

module _ {ℓ κ μ} {S : Type ℓ} {A : Type κ} (visit : A → S → S × Bool) (P : S → Type μ)
    (measure : S → ℕ) (all_items : List A)
    (keeps : (x : A) (s : S) → Memᴰ x all_items → P s → P (visit x s).0)
    (same : (x : A) (s : S) → (visit x s).1 ≡ false → (visit x s).0 ≡ s)
    (less : (x : A) (s : S)
      → Memᴰ x all_items
      → P s
      → (visit x s).1 ≡ true
      → measure (visit x s).0 < measure s) where
  abbrev Within : List A → Type κ
  Within xs = (x : A) → Memᴰ x xs → Memᴰ x all_items

  sweep_keeps : (xs : List A) (s : S) → Within xs → P s → P (sweep visit xs s).0
  unfolding sweep
  sweep_keeps [] s w p = p
  sweep_keeps (x ∷ xs) s w p =
      sweep_keeps xs (visit x s).0 (λ y m. w y (Memᴰ.tail m)) (keeps x s (w x (Memᴰ.head refl)) p)

  sweep_same : (xs : List A) (s : S) → (sweep visit xs s).1 ≡ false → (sweep visit xs s).0 ≡ s
  unfolding sweep
  sweep_same [] s h = refl
  sweep_same (x ∷ xs) s h = sweep_same xs (visit x s).0 (ground arith) ∙ same x s (ground arith)

  sweep_stable :
      (xs : List A) (s : S)
      → (sweep visit xs s).1 ≡ false
      → (x : A) → Memᴰ x xs
      → (visit x s).1 ≡ false
  unfolding sweep
  sweep_stable [] s h x m = absurd (Memᴰ.not-nil m)
  sweep_stable (y ∷ xs) s h x m =
      let still = same y s (ground arith) in
      ⊎_elim (λ e. subst (λ z. (visit z s).1 ≡ false) (sym e) (ground arith))
        (λ t.
          sweep_stable xs s (subst (λ z. (sweep visit xs z).1 ≡ false) still (ground arith)) x t)
        (Memᴰ.cases_cons m)

  sweep_less :
      (xs : List A) (s : S)
      → Within xs
      → P s
      → (measure (sweep visit xs s).0 ≤ measure s)
        × ((sweep visit xs s).1 ≡ true → measure (sweep visit xs s).0 < measure s)
  unfolding sweep
  sweep_less [] s w p = (omega arith, λ h. cc)
  sweep_less (x ∷ xs) s w p =
      let m = w x (Memᴰ.head refl) in
      let rest = sweep_less xs (visit x s).0 (λ y t. w y (Memᴰ.tail t)) (keeps x s m p) in
      elim (Bool-cases (visit x s).1) [
        | inl go ↦ let d = less x s m p go in (omega (arith, rest.0), λ _. omega (arith, rest.0))
        | inr stay ↦
            let e = ap measure (same x s stay) in
            (omega (arith, rest.0), λ h. omega (arith, rest.1 (rw stay at h)))
      ]

  -- The loop ends, keeps the invariant, and no item changes the state that it ends in.
  pub sweep_loop :
      (fuel : ℕ) (s : S)
      → measure s < fuel
      → P s
      → (t : S) × (until_stable fuel (sweep visit all_items) s ≡ some t)
        × P t
        × ((x : A) → Memᴰ x all_items → (visit x t).1 ≡ false)
  sweep_loop fuel s m p =
      let (t, ends, pt, (u, pu, e, stop)) =
        until_stable_rule P measure (sweep visit all_items)
          (λ s p. sweep_keeps all_items s (λ x h. h) p)
          (λ s p. (sweep_less all_items s (λ x h. h) p).1) fuel s m p in
      (
        t,
        ends,
        pt,
        subst (λ z. (x : A) → Memᴰ x all_items → (visit x z).1 ≡ false)
            (sym (sweep_same all_items u stop) ∙ e) (sweep_stable all_items u stop),
      )
