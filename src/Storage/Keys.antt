-- ===== src/Storage/Keys.antt =====
-- src/arxdb/storage/keys.py. Ed25519 is the third-party package `cryptography`, an argument here.
use arxdb.Base.{
  ℕ, ◌≡◌, Bool, true, nat_beq, if◌then◌else◌, nat_eq, Bytes, bytes_eq, pair_eq, length,
}
use arxdb.Base.Result.{Result, ok, err, value_error}

-- Raw keys and signatures: `public_key` of a private key, `sign` a message with a private key, and
-- `verify` a message and a signature with a public key.
pub record Ed25519 : Type 0 where
  pub public_key : Bytes → Bytes
  pub sign_raw : Bytes → Bytes → Bytes
  pub verify_raw : Bytes → Bytes → Bytes → Bool
  pub public_key_length : (priv : Bytes) → length (public_key priv) ≡ 32
  pub signature_length : (priv message : Bytes) → length (sign_raw priv message) ≡ 64
  pub verify-sign :
      (priv message : Bytes)
      → length priv ≡ 32
      → verify_raw (public_key priv) message (sign_raw priv message) ≡ true

abbrev pub public_key_size : ℕ
public_key_size = 32

abbrev pub private_key_size : ℕ
private_key_size = 32

abbrev pub signature_size : ℕ
signature_size = 64

module _ ⦃k : Ed25519⦄ where
  unfoldable pub sign : Bytes → Bytes → Result Bytes
  sign priv message =
      if nat_beq (length priv) private_key_size
      then ok (k.sign_raw priv message)
      else err value_error

  unfoldable pub verify : Bytes → Bytes → Bytes → Result Bool
  verify pub_key message sig =
      if nat_beq (length pub_key) public_key_size
      then if nat_beq (length sig) signature_size
        then ok (k.verify_raw pub_key message sig)
        else err value_error
      else err value_error

  -- With a private key of 32 bytes a message is signed, and the signature verifies under the
  -- public key.
  pub verify-sign_lem :
      (priv message : Bytes)
      → length priv ≡ private_key_size
      → (sig : Bytes) × (sign priv message ≡ ok sig)
        × (verify (k.public_key priv) message sig ≡ ok true)
  unfolding sign verify
  verify-sign_lem priv message h = (
    k.sign_raw priv message,
    rw h,
    rw (k.public_key_length priv, k.signature_length priv message, k.verify-sign priv message h),
  )
