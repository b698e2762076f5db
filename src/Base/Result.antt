-- ===== src/Base/Result.antt =====
-- Python's exceptions as values: the class of what was raised.
use Prim.Native.Nat.{ℕ}
use mathlib.Core.Path.{◌≡◌, refl}
use mathlib.Core.Bool.{Bool, true, false}
use mathlib.Core.List.{List, [], ◌∷◌}

pub data Error : Type 0 where
  value_error : Error
  key_error : Error
  index_error : Error
  type_error : Error
  integrity_error : Error
  decode_error : Error
  attribute_error : Error
  syntax_error : Error
  name_error : Error
  zero_division_error : Error
  os_error : Error
  timeout_expired : Error
  checker_timeout : Error
  other_error : Error
  api_error : (status : ℕ) → Error

-- What a call returns, or the exception that it raises.
pub data Result {ℓ} (A : Type ℓ) : Type ℓ where
  err : Error → Result A
  ok : A → Result A

abbrev pub ◌>>=◌ {ℓ κ} : {X : Type ℓ} {Y : Type κ} → Result X → (X → Result Y) → Result Y
err raised >>= next = err raised
ok value >>= next = next value

abbrev pub ◌>>◌ {ℓ} : {Y : Type ℓ} → Result (Unit {0}) → Result Y → Result Y
first >> next = first >>= λ _. next

infixl 5 ◌>>=◌ ◌>>◌
-- A chain that returns has a first call that returned.
pub bind_ok {ℓ κ} :
    {X : Type ℓ} {Y : Type κ} (r : Result X) (next : X → Result Y) (y : Y)
    → (r >>= next) ≡ ok y
    → (x : X) × (r ≡ ok x) × (next x ≡ ok y)
bind_ok (err e) next y h = absurd (cc h)
bind_ok (ok x) next y h = (x, refl, h)

-- `if not b: raise e`
abbrev pub require : Bool → Error → Result (Unit {0})
require true e = ok tt
require false e = err e

-- `[f(x) for x in xs]`, where `f` may raise.
unfoldable pub map_result {ℓ κ} :
    {A : Type ℓ} {B : Type κ} → (A → Result B) → List A → Result (List B)
map_result f [] = ok []
map_result f (x ∷ xs) = do y ← f x; ys ← map_result f xs; ok (y ∷ ys)
