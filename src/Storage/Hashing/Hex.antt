-- ===== src/Storage/Hashing/Hex.antt =====
-- `hash.hex()` and `from_hex` are inverse on byte strings.
use arxdb.Base.{
  ℕ, ◌+◌, ◌*◌, ◌/◌, ◌%◌, ◌<◌, ◌≡◌, refl, ap, ◌∙◌, inl, inr, false, [], ◌∷◌, Memᴰ, arith, nat_eq,
  Bytes, bytes_eq, pair_eq,
}
use mathlib.Core.List.Memᴰ
use arxdb.Base.Result.{ok, ◌>>=◌}
use arxdb.Storage.Hashing.{
  Blake3, hash_new-ok, hash_bytes, hash_hex, length-hash_bytes, hex_digit, hex, digit_value,
  is_space, bytes_fromhex, from_hex,
}

abbrev pub AreBytes : Bytes → Type 0
AreBytes xs = (x : ℕ) → Memᴰ x xs → x < 256

pub hash_bytes-AreBytes : ⦃b : Blake3⦄ → (m : Bytes) → AreBytes (hash_bytes m)
unfolding hash_bytes
hash_bytes-AreBytes ⦃b⦄ m x t = elim (Memᴰ.cases_cons t) [
  | inl e ↦ omega arith
  | inr t' ↦ elim (Memᴰ.cases_cons t') [ inl e ↦ omega arith | inr d ↦ b.digest_bytes m x d ]
]

digit_value-hex_digit : (n : ℕ) → n < 16 → digit_value (hex_digit n) ≡ ok n
unfolding digit_value hex_digit
digit_value-hex_digit n h = ground arith

is_space-hex_digit : (n : ℕ) → n < 16 → is_space (hex_digit n) ≡ false
unfolding is_space hex_digit
is_space-hex_digit n h = ground arith

bytes_fromhex-pair :
    (x : ℕ) (rest : Bytes)
    → x < 256
    → bytes_fromhex (hex_digit (x / 16) ∷ hex_digit (x % 16) ∷ rest)
      ≡ (bytes_fromhex rest >>= λ xs. ok (x ∷ xs))
unfolding bytes_fromhex
bytes_fromhex-pair x rest h =
    let high : x / 16 < 16 = omega arith in
    let low : x % 16 < 16 = omega arith in
    let whole : x / 16 * 16 + x % 16 ≡ x = omega arith in
    rw (
      is_space-hex_digit (x / 16) high,
      digit_value-hex_digit (x / 16) high,
      digit_value-hex_digit (x % 16) low,
      whole,
    )

pub bytes_fromhex-hex : (xs : Bytes) → AreBytes xs → bytes_fromhex (hex xs) ≡ ok xs
unfolding hex
bytes_fromhex-hex [] h = unfold bytes_fromhex in refl
bytes_fromhex-hex (x ∷ xs) h =
    let rest = bytes_fromhex-hex xs (λ y m. h y (Memᴰ.tail m)) in
    bytes_fromhex-pair x (hex xs) (h x (Memᴰ.head refl)) ∙ rw rest

-- The hex form of a hash reads back as that hash.
pub from_hex-hash_hex : ⦃b : Blake3⦄ → (m : Bytes) → from_hex (hash_hex m) ≡ ok (hash_bytes m)
unfolding from_hex hash_hex
from_hex-hash_hex m =
    rw (bytes_fromhex-hex (hash_bytes m) (hash_bytes-AreBytes m))
      (hash_new-ok (hash_bytes m) (length-hash_bytes m))

pub hex_injective : (xs ys : Bytes) → AreBytes xs → AreBytes ys → hex xs ≡ hex ys → xs ≡ ys
hex_injective xs ys hx hy e =
    cc (bytes_fromhex-hex xs hx, bytes_fromhex-hex ys hy, ap bytes_fromhex e)
