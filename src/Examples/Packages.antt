-- ===== src/Examples/Packages.antt =====
-- Instances of the third-party packages that compute: a hash by arithmetic, the codec, and keys.
use arxdb.Base.{
  ℕ, zero, suc, ◌+◌, ◌*◌, ◌/◌, ◌%◌, ◌<◌, ◌≡◌, refl, ap, Bool, true, [], ◌∷◌, Memᴰ, arith, ◌==◌,
  ==_refl, nat_eq, Bytes, bytes_eq, pair_eq, length,
}
use Prim.Native.Nat.{◌^◌}
use mathlib.Core.Logic.{⊎_elim}
use mathlib.Core.List.Memᴰ
use arxdb.Storage.Hashing.{Blake3}
use arxdb.Storage.Serialization.{Cbor}
use arxdb.Storage.Keys.{Ed25519}
use arxdb.Examples.Codec.{load, dump, load-dump}

-- The lowest `n` digits of `x` in base 256.
unfoldable pub digits : ℕ → ℕ → Bytes
digits zero x = []
digits (suc n) x = x % 256 ∷ digits n (x / 256)

length-digits : (n x : ℕ) → length (digits n x) ≡ n
unfolding digits
length-digits zero x = refl
length-digits (suc n) x = ap suc (length-digits n (x / 256))

digits-lt : (n x y : ℕ) → Memᴰ y (digits n x) → y < 256
unfolding digits
digits-lt zero x y m = absurd (Memᴰ.not-nil m)
digits-lt (suc n) x y m = ⊎_elim (λ e. omega arith) (digits-lt n (x / 256) y) (Memᴰ.cases_cons m)

unfoldable pub mix : ℕ → Bytes → ℕ
mix acc [] = acc
mix acc (x ∷ xs) = mix ((acc * 1000003 + x + 1) % 2 ^ 256) xs

unfoldable pub toy_digest : Bytes → Bytes
unfolding digits mix
toy_digest m = digits 32 (mix 7 m)

pub toy_digest-length : (m : Bytes) → length (toy_digest m) ≡ 32
unfolding toy_digest
toy_digest-length m = length-digits 32 (mix 7 m)

pub toy_digest-lt : (m : Bytes) (x : ℕ) → Memᴰ x (toy_digest m) → x < 256
unfolding toy_digest
toy_digest-lt m x = digits-lt 32 (mix 7 m) x

instance abbrev pub toy_blake3 : Blake3
unfolding toy_digest
toy_blake3 = record {
  digest = toy_digest;
  digest_length = toy_digest-length;
  digest_bytes = toy_digest-lt;
}

instance abbrev pub toy_cbor : Cbor
toy_cbor = record { dumps = dump; loads = load; loads-dumps = load-dump }

unfoldable pub toy_public : Bytes → Bytes
toy_public priv = digits 32 (mix 11 priv)

unfoldable pub toy_mac : Bytes → Bytes → Bytes
toy_mac key message = digits 64 (mix (mix 13 key) message)

unfoldable pub toy_sign : Bytes → Bytes → Bytes
toy_sign priv message = toy_mac (toy_public priv) message

unfoldable pub toy_verify : Bytes → Bytes → Bytes → Bool
toy_verify key message sig = sig == toy_mac key message

pub toy_public-length : (priv : Bytes) → length (toy_public priv) ≡ 32
unfolding toy_public
toy_public-length priv = length-digits 32 (mix 11 priv)

pub toy_sign-length : (priv message : Bytes) → length (toy_sign priv message) ≡ 64
unfolding toy_sign toy_mac
toy_sign-length priv message = length-digits 64 (mix (mix 13 (toy_public priv)) message)

pub toy_verify-sign :
    (priv message : Bytes)
    → length priv ≡ 32
    → toy_verify (toy_public priv) message (toy_sign priv message) ≡ true
unfolding toy_verify toy_sign
toy_verify-sign priv message h = ==_refl (toy_mac (toy_public priv) message)

instance abbrev pub toy_ed25519 : Ed25519
toy_ed25519 = record {
  public_key = toy_public;
  sign_raw = toy_sign;
  verify_raw = toy_verify;
  public_key_length = toy_public-length;
  signature_length = toy_sign-length;
  verify-sign = toy_verify-sign;
}
