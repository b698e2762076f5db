-- ===== src/Storage/Hashing.antt =====
-- src/arxdb/storage/hashing.py. A `Hash` is a byte string; the length check of its constructor is
-- `hash_new`. BLAKE3 itself is the third-party package `blake3`, an argument here.
pub mod Hex
use arxdb.Base.{
  Memᴰ, ◌<◌, ℕ, ◌+◌, ◌*◌, ◌/◌, ◌%◌, ◌-◌, ◌≡◌, ◌≢◌, ◌⊎◌, inl, inr, Bool, true, false, ◌&&◌, ◌||◌, [],
  ◌∷◌, arith, Bytes, length, leb, nat_beq, if◌then◌else◌, ◌==◌, bytes_eq, bytes_beq_iff, Bool-cases,
}
use arxdb.Base.Result.{Result, ok, err, value_error, ◌>>=◌}

-- The 32-byte digest of the `blake3` package.
pub record Blake3 : Type 0 where
  pub digest : Bytes → Bytes
  pub digest_length : (m : Bytes) → length (digest m) ≡ 32
  pub digest_bytes : (m : Bytes) (x : ℕ) → Memᴰ x (digest m) → x < 256

abbrev pub blake3_code : ℕ
blake3_code = 0x1e

abbrev pub blake3_len : ℕ
blake3_len = 0x20

abbrev pub hash_size : ℕ
hash_size = 34

abbrev pub Hash : Type 0
Hash = Bytes

-- `Hash(raw)`
unfoldable pub hash_new : Bytes → Result Hash
hash_new raw = if nat_beq (length raw) hash_size then ok raw else err value_error

-- The multihash before the constructor's check, which `hash_new-hash_bytes` shows to pass.
unfoldable pub hash_bytes : ⦃b : Blake3⦄ → Bytes → Hash
hash_bytes ⦃b⦄ m = blake3_code ∷ blake3_len ∷ b.digest m

-- `bytes.hex`: two lower-case digits for each byte.
unfoldable pub hex_digit : ℕ → ℕ
hex_digit n = if leb n 9 then n + b'0' else n - 10 + b'a'

unfoldable pub hex : Bytes → Bytes
unfolding hex_digit
hex [] = []
hex (x ∷ xs) = hex_digit (x / 16) ∷ hex_digit (x % 16) ∷ hex xs

-- `bytes.fromhex`: pairs of digits of either case, with white space between pairs.
unfoldable pub digit_value : ℕ → Result ℕ
digit_value c =
    if leb b'0' c && leb c b'9'
    then ok (c - b'0')
    else if leb b'a' c && leb c b'f'
    then ok (c - b'a' + 10)
    else if leb b'A' c && leb c b'F'
    then ok (c - b'A' + 10)
    else err value_error

unfoldable pub is_space : ℕ → Bool
is_space c = nat_beq c 32 || leb 9 c && leb c 13

unfoldable pub bytes_fromhex : Bytes → Result Bytes
unfolding digit_value is_space
bytes_fromhex [] = ok []
bytes_fromhex (c ∷ []) = if is_space c then ok [] else err value_error
bytes_fromhex (c ∷ d ∷ rest) =
    let skip = bytes_fromhex (d ∷ rest) in
    let tail = bytes_fromhex rest in
    if is_space c
    then skip
    else do hi ← digit_value c; lo ← digit_value d; xs ← tail; ok ((hi * 16 + lo) ∷ xs)

-- `hash_hex(data)`
unfoldable pub hash_hex : ⦃b : Blake3⦄ → Bytes → Bytes
hash_hex m = hex (hash_bytes m)

-- `from_hex(hexstr)`
unfoldable pub from_hex : Bytes → Result Hash
from_hex s = do raw ← bytes_fromhex s; hash_new raw

-- `is_valid_hash(h)`
unfoldable pub is_valid_hash : Bytes → Bool
is_valid_hash (c ∷ l ∷ rest) =
    nat_beq (length (c ∷ l ∷ rest)) hash_size && nat_beq c blake3_code && nat_beq l blake3_len
is_valid_hash h = false

-- Two different messages with one hash, of which the first has `P` and the second has `Q`: `P` and
-- `Q` say which messages were hashed.
pub record Collision ⦃b : Blake3⦄ (P Q : Bytes → Type 0) : Type 0 where
  pub first : Bytes
  pub second : Bytes
  pub first_hashed : P first
  pub second_hashed : Q second
  pub different : first ≢ second
  pub same_hash : hash_bytes first ≡ hash_bytes second

module _ ⦃b : Blake3⦄ where
  pub length-hash_bytes : (m : Bytes) → length (hash_bytes m) ≡ hash_size
  unfolding hash_bytes
  length-hash_bytes m = omega (arith, b.digest_length m)

  pub hash_new-hash_bytes : (m : Bytes) → hash_new (hash_bytes m) ≡ ok (hash_bytes m)
  unfolding hash_new
  hash_new-hash_bytes m = rw (length-hash_bytes m)

  pub is_valid_hash-hash_bytes : (m : Bytes) → is_valid_hash (hash_bytes m) ≡ true
  unfolding is_valid_hash hash_bytes
  is_valid_hash-hash_bytes m = rw (b.digest_length m)

  pub hash_bytes_binding :
      {P Q : Bytes → Type 0} (x y : Bytes)
      → P x
      → Q y
      → hash_bytes x ≡ hash_bytes y
      → (x ≡ y) ⊎ Collision P Q
  hash_bytes_binding x y px qy h = elim (Bool-cases (x == y)) [
    | inl e ↦ inl ((bytes_beq_iff x y).0 e)
    | inr n ↦ inr (record {
      first = x;
      second = y;
      first_hashed = px;
      second_hashed = qy;
      different = λ q. cc (n, (bytes_beq_iff x y).1 q);
      same_hash = h;
    })
  ]

  pub Collision-map :
      {P Q P' Q' : Bytes → Type 0}
      → ((m : Bytes) → P m → P' m)
      → ((m : Bytes) → Q m → Q' m)
      → Collision P Q
      → Collision P' Q'
  Collision-map f g col = record {
    first = col.first;
    second = col.second;
    first_hashed = f col.first col.first_hashed;
    second_hashed = g col.second col.second_hashed;
    different = col.different;
    same_hash = col.same_hash;
  }

pub hash_new-ok : (raw : Bytes) → length raw ≡ hash_size → hash_new raw ≡ ok raw
unfolding hash_new
hash_new-ok raw h = rw h
