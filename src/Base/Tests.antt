-- ===== src/Base/Tests.antt =====
-- Boolean tests: on numbers, on lists of numbers (Python's `bytes` and `str`), and on pairs.
use Prim.Native.Nat.{ℕ, ◌≤◌, ◌<◌, compare, Ordering}
use mathlib.Core.Path.{◌≡◌, refl}
use mathlib.Core.Logic.{◌↔◌, ◌⊎◌, ◌≢◌, inl, inr}
use mathlib.Core.Bool.{◌||◌, Bool, true, false, ◌&&◌}
use mathlib.Core.Option.{Option, none, some}
use mathlib.Core.List.{List, [], ◌∷◌}
use native.Mathlib.Omega.{arith}

abbrev pub ltb : ℕ → ℕ → Bool
ltb a b = elim (compare a b) [ Ordering.lt ↦ true | _ ↦ false ]

abbrev pub leb : ℕ → ℕ → Bool
leb a b = elim (compare a b) [ Ordering.gt ↦ false | _ ↦ true ]

abbrev pub nat_beq : ℕ → ℕ → Bool
nat_beq a b = elim (compare a b) [ Ordering.eq ↦ true | _ ↦ false ]

infix 1 if◌then◌else◌
abbrev pub if◌then◌else◌ {ℓ} : {A : Type ℓ} → Bool → A → A → A
if true then x else y = x
if false then x else y = y

pub Bool-cases : (b : Bool) → (b ≡ true) ⊎ (b ≡ false)
Bool-cases true = inl refl
Bool-cases false = inr refl

pub or_assoc : (a b c : Bool) → ((a || b) || c) ≡ (a || (b || c))
or_assoc true b c = refl
or_assoc false b c = refl

pub Option-cases {ℓ} : {A : Type ℓ} (o : Option A) → (o ≡ none) ⊎ ((a : A) × (o ≡ some a))
Option-cases none = inl refl
Option-cases (some a) = inr (a, refl)

-- Python's `==` at a type.
pub record Eq {ℓ} (A : Type ℓ) : Type ℓ where
  pub same : A → A → Bool
  pub same_iff : (x y : A) → (same x y ≡ true) ↔ (x ≡ y)

infix 50 ◌==◌
abbrev pub ◌==◌ {ℓ} : {X : Type ℓ} ⦃test : Eq X⦄ → X → X → Bool
◌==◌ ⦃test⦄ = test.same

module _ {ℓ} {A : Type ℓ} ⦃e : Eq A⦄ where
  pub ==_iff : (a b : A) → ((a == b) ≡ true) ↔ (a ≡ b)
  ==_iff = e.same_iff

  pub ==_refl : (a : A) → (a == a) ≡ true
  ==_refl a = (e.same_iff a a).1 refl

  pub eq_of_== : (a b : A) → (a == b) ≡ true → a ≡ b
  eq_of_== a b = (e.same_iff a b).0

  pub ==_false_of_ne : (a b : A) → a ≢ b → (a == b) ≡ false
  ==_false_of_ne a b h = elim (Bool-cases (a == b)) [
    | inl t ↦ absurd (h ((e.same_iff a b).0 t))
    | inr f ↦ f
  ]

  pub ne_of_==_false : (a b : A) → (a == b) ≡ false → a ≢ b
  ne_of_==_false a b h q = cc (h, (e.same_iff a b).1 q)

pub nat_beq_iff : (a b : ℕ) → (nat_beq a b ≡ true) ↔ (a ≡ b)
nat_beq_iff a b = ground arith

instance abbrev pub nat_eq : Eq ℕ
nat_eq = record { same = nat_beq; same_iff = nat_beq_iff }

-- A byte string, or a text as the list of its code points.
abbrev pub Bytes : Type 0
Bytes = List ℕ

unfoldable pub bytes_beq : Bytes → Bytes → Bool
bytes_beq [] [] = true
bytes_beq [] (y ∷ ys) = false
bytes_beq (x ∷ xs) [] = false
bytes_beq (x ∷ xs) (y ∷ ys) = nat_beq x y && bytes_beq xs ys

pub bytes_beq_iff : (xs ys : Bytes) → (bytes_beq xs ys ≡ true) ↔ (xs ≡ ys)
unfolding bytes_beq
bytes_beq_iff [] [] = (λ _. refl, λ _. refl)
bytes_beq_iff [] (y ∷ ys) = (λ h. cc, λ h. cc)
bytes_beq_iff (x ∷ xs) [] = (λ h. cc, λ h. cc)
bytes_beq_iff (x ∷ xs) (y ∷ ys) = ground (arith, bytes_beq_iff xs ys)

instance abbrev pub bytes_eq : Eq Bytes
bytes_eq = record { same = bytes_beq; same_iff = bytes_beq_iff }

abbrev pub pair_beq : Bytes × Bytes → Bytes × Bytes → Bool
pair_beq p q = bytes_beq p.0 q.0 && bytes_beq p.1 q.1

pub pair_beq_iff : (p q : Bytes × Bytes) → (pair_beq p q ≡ true) ↔ (p ≡ q)
pair_beq_iff p q = ground (arith, bytes_beq_iff p.0 q.0, bytes_beq_iff p.1 q.1)

instance abbrev pub pair_eq : Eq (Bytes × Bytes)
pair_eq = record { same = pair_beq; same_iff = pair_beq_iff }

-- Lexicographic order, by which SQLite and Python compare byte strings.
unfoldable pub bytes_leb : Bytes → Bytes → Bool
bytes_leb [] ys = true
bytes_leb (x ∷ xs) [] = false
bytes_leb (x ∷ xs) (y ∷ ys) =
    let rest = bytes_leb xs ys in if ltb x y then true else if nat_beq x y then rest else false

pub leb-true_of_le : (a b : ℕ) → a ≤ b → leb a b ≡ true
leb-true_of_le a b h = ground arith

pub leb-false_of_lt : (a b : ℕ) → b < a → leb a b ≡ false
leb-false_of_lt a b h = ground arith
