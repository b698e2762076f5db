-- ===== src/Base/Dict.antt =====
-- Python's `dict`: entries in insertion order; a write to a key that is there keeps its place.
pub mod Entries
use mathlib.Core.Path.{◌≡◌, refl}
use mathlib.Core.Bool.{Bool, true, false}
use mathlib.Core.Option.{Option, none, some}
use mathlib.Core.List.{List, [], ◌∷◌, map}
use native.Mathlib.Omega.{arith}
use arxdb.Base.Tests.{Eq, ◌==◌, ==_iff, if◌then◌else◌}

abbrev pub Dict {ℓ κ} : Type ℓ → Type κ → Type (ℓ ⊔ κ)
Dict K V = List (K × V)

module _ {ℓ κ} {K : Type ℓ} {V : Type κ} ⦃e : Eq K⦄ where
  -- `d.get(k)`
  unfoldable pub get : Dict K V → K → Option V
  get [] k = none
  get ((j, v) ∷ d) k = if j == k then some v else get d k

  -- `d[k] = v`
  unfoldable pub set : Dict K V → K → V → Dict K V
  set [] k v = (k, v) ∷ []
  set ((j, w) ∷ d) k v = if j == k then (j, v) ∷ d else (j, w) ∷ set d k v

  -- `k in d`
  abbrev pub has : Dict K V → K → Bool
  has d k = elim (get d k) [ none ↦ false | some v ↦ true ]

  pub get-set :
      (d : Dict K V) (k j : K) (v : V) → get (set d k v) j ≡ (if k == j then some v else get d j)
  unfolding get set
  get-set [] k j v = refl
  get-set ((i, w) ∷ d) k j v = ground (arith, get-set d k j v, ==_iff i k, ==_iff i j, ==_iff k j)

-- `list(d)`
abbrev pub keys {ℓ κ} : {K : Type ℓ} {V : Type κ} → Dict K V → List K
keys d = map (λ e. e.0) d

module _ {ℓ κ} {K : Type ℓ} {V : Type κ} ⦃e : Eq K⦄ where
  -- A write that leaves a key that is there as it is.
  abbrev pub set_default : Dict K V → K → V → Dict K V
  set_default d k v = if has d k then d else set d k v

  pub get-set_default :
      (d : Dict K V) (k j : K) (v : V)
      → get (set_default d k v) j
        ≡ (if k == j then elim (get d j) [ none ↦ some v | some old ↦ some old ] else get d j)
  get-set_default d k j v = ground (arith, get-set d k j v, ==_iff k j)
