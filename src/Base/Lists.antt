-- ===== src/Base/Lists.antt =====
-- Lists measured by native numbers, Python sets as lists without order, and loops over lists.
use Prim.Native.Nat.{ℕ, suc, ◌+◌}
use mathlib.Core.Path.{◌≡◌, refl, sym, ap, subst}
use mathlib.Core.Logic.{◌↔◌, ◌⊎◌, inl, inr, ⊎_elim}
use mathlib.Core.Bool.{not, Bool, true, false, ◌&&◌, ◌||◌}
use mathlib.Core.List.{List, [], ◌∷◌, ◌++◌, Memᴰ}
use mathlib.Core.List.Memᴰ
use native.Mathlib.Omega.{arith}
use arxdb.Base.Tests.{Eq, ◌==◌, ==_iff, if◌then◌else◌, Bool-cases}

module _ {ℓ} {A : Type ℓ} where
  abbrev pub length : List A → ℕ
  length [] = 0
  length (x ∷ xs) = suc (length xs)

  pub length-append : (xs ys : List A) → length (xs ++ ys) ≡ length xs + length ys
  length-append [] ys = omega arith
  length-append (x ∷ xs) ys = omega (arith, length-append xs ys)

  pub Memᴰ-cons : (a x : A) (xs : List A) → Memᴰ a (x ∷ xs) ↔ ((a ≡ x) ⊎ Memᴰ a xs)
  Memᴰ-cons a x xs = (Memᴰ.cases_cons, ⊎_elim Memᴰ.head Memᴰ.tail)

  -- `not xs`
  abbrev pub is_empty : List A → Bool
  is_empty [] = true
  is_empty (x ∷ xs) = false

  pub is_empty_iff : (xs : List A) → (is_empty xs ≡ true) ↔ (xs ≡ [])
  is_empty_iff [] = (λ _. refl, λ _. refl)
  is_empty_iff (x ∷ xs) = (λ h. cc, λ h. cc)

  pub Memᴰ-not_empty : {a : A} (xs : List A) → Memᴰ a xs → is_empty xs ≡ false
  Memᴰ-not_empty [] m = absurd (Memᴰ.not-nil m)
  Memᴰ-not_empty (x ∷ xs) m = refl

  -- `all(p(x) for x in xs)`
  unfoldable pub all : (A → Bool) → List A → Bool
  all p [] = true
  all p (x ∷ xs) = p x && all p xs

  -- `any(p(x) for x in xs)`
  unfoldable pub any : (A → Bool) → List A → Bool
  any p [] = false
  any p (x ∷ xs) = p x || any p xs

  -- `[x for x in xs if p(x)]`
  unfoldable pub keep : (A → Bool) → List A → List A
  keep p [] = []
  keep p (x ∷ xs) = let rest = keep p xs in if p x then x ∷ rest else rest

  pub all_iff :
      (p : A → Bool) (xs : List A) → (all p xs ≡ true) ↔ ((x : A) → Memᴰ x xs → p x ≡ true)
  unfolding all
  all_iff p [] = (λ _ x m. absurd (Memᴰ.not-nil m), λ _. refl)
  all_iff p (y ∷ ys) = (
    λ h x m.
        ⊎_elim (λ e. subst (λ z. p z ≡ true) (sym e) (ground arith))
          (λ t. (all_iff p ys).0 (ground arith) x t) (Memᴰ.cases_cons m),
    λ h.
        let a = h y (Memᴰ.head refl) in
        let b = (all_iff p ys).1 (λ x m. h x (Memᴰ.tail m)) in rw (a, b),
  )

  pub any_iff :
      (p : A → Bool) (xs : List A) → (any p xs ≡ true) ↔ ((x : A) × Memᴰ x xs × (p x ≡ true))
  unfolding any
  any_iff p [] = (λ h. cc, λ h. absurd (Memᴰ.not-nil h.1))
  any_iff p (y ∷ ys) = elim (Bool-cases (p y)) [
    | inl here ↦ rw here (λ _. (y, Memᴰ.head refl, here), λ _. refl)
    | inr other ↦ rw other (
      λ h. let (x, m, q) = (any_iff p ys).0 h in (x, Memᴰ.tail m, q),
      λ h.
          let (x, m, q) = h in
          ⊎_elim (λ e. absurd (cc (other, q, ap p e))) (λ r. (any_iff p ys).1 (x, r, q))
            (Memᴰ.cases_cons m),
    )
  ]

  -- Something is kept exactly if something satisfies the test.
  pub not-any_iff :
      (p : A → Bool) (xs : List A) → (not (any p xs) ≡ true) ↔ ((x : A) → Memᴰ x xs → p x ≡ false)
  not-any_iff p xs = elim (Bool-cases (any p xs)) [
    | inl some_one ↦
        let (x, m, q) = (any_iff p xs).0 some_one in
        rw some_one (λ h. cc, λ h. absurd (cc (q, h x m)))
    | inr no_one ↦ rw no_one (
      λ _ x m. elim (Bool-cases (p x)) [
        | inl q ↦ absurd (cc (no_one, (any_iff p xs).1 (x, m, q)))
        | inr q ↦ q
      ],
      λ _. refl,
    )
  ]

  pub any-keep : (p : A → Bool) (xs : List A) → any p xs ≡ not (is_empty (keep p xs))
  unfolding keep any
  any-keep p [] = refl
  any-keep p (x ∷ xs) = elim (Bool-cases (p x)) [
    | inl here ↦ rw here refl
    | inr other ↦ rw (other, any-keep p xs) refl
  ]

  pub Memᴰ-keep :
      (p : A → Bool) (a : A) (xs : List A) → Memᴰ a (keep p xs) ↔ (Memᴰ a xs × (p a ≡ true))
  unfolding keep
  Memᴰ-keep p a [] = (λ m. absurd (Memᴰ.not-nil m), λ m. m.0)
  Memᴰ-keep p a (x ∷ xs) = elim (Bool-cases (p x)) [
    | inl t ↦ rw t (
      λ m.
          ⊎_elim (λ e. (Memᴰ.head e, rw e t))
            (λ r. let q = (Memᴰ-keep p a xs).0 r in (Memᴰ.tail q.0, q.1)) (Memᴰ.cases_cons m),
      λ q. ⊎_elim Memᴰ.head (λ r. Memᴰ.tail ((Memᴰ-keep p a xs).1 (r, q.1))) (Memᴰ.cases_cons q.0),
    )
    | inr f ↦ rw f (
      λ m. let q = (Memᴰ-keep p a xs).0 m in (Memᴰ.tail q.0, q.1),
      λ q.
          ⊎_elim (λ e. absurd (cc (f, q.1, ap p e))) (λ r. (Memᴰ-keep p a xs).1 (r, q.1))
            (Memᴰ.cases_cons q.0),
    )
  ]

module _ {ℓ} {A : Type ℓ} ⦃e : Eq A⦄ where
  -- `a in xs`
  unfoldable pub contains : List A → A → Bool
  contains [] a = false
  contains (x ∷ xs) a = a == x || contains xs a

  -- `xs.add(a)` on a set
  unfoldable pub add : A → List A → List A
  add a xs = if contains xs a then xs else a ∷ xs

  pub contains_iff : (xs : List A) (a : A) → (contains xs a ≡ true) ↔ Memᴰ a xs
  unfolding contains
  contains_iff [] a = (λ h. cc, λ m. absurd (Memᴰ.not-nil m))
  contains_iff (x ∷ xs) a = ground (arith, ==_iff a x, contains_iff xs a, Memᴰ-cons a x xs)

  pub contains-add : (a b : A) (xs : List A) → contains (add a xs) b ≡ (b == a || contains xs b)
  unfolding add contains
  contains-add a b xs = elim (Bool-cases (contains xs a)) [
    | inl old ↦ rw old (elim (Bool-cases (b == a)) [
      | inl same ↦ rw same (subst (λ z. contains xs z ≡ true) (sym ((==_iff b a).0 same)) old)
      | inr other ↦ rw other
    ])
    | inr new ↦ rw new
  ]
