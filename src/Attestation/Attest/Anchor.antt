-- ===== src/Attestation/Attest/Anchor.antt =====
-- src/arxdb/attestation/attest.py: the canonical encoding of the anchor record.
use arxdb.Base.{[], ◌∷◌, nat_eq, Bytes, bytes_eq, pair_eq}
use arxdb.Storage.Hashing.{Blake3, Hash, hash_bytes}
use arxdb.Storage.Serialization.{Cbor, Obj, Pairs, canonical_encode}
use arxdb.Verification.Schema.{Text}
use arxdb.Attestation.Attest.{AnchorRecord}

abbrev key_version : Text
key_version = b'v' ∷ b'e' ∷ b'r' ∷ b's' ∷ b'i' ∷ b'o' ∷ b'n' ∷ []

abbrev key_root_hash : Text
key_root_hash = b'r' ∷ b'o' ∷ b'o' ∷ b't' ∷ b'_' ∷ b'h' ∷ b'a' ∷ b's' ∷ b'h' ∷ []

abbrev key_entry_count : Text
key_entry_count = b'e' ∷ b'n' ∷ b't' ∷ b'r' ∷ b'y' ∷ b'_' ∷ b'c' ∷ b'o' ∷ b'u' ∷ b'n' ∷ b't' ∷ []

abbrev key_timestamp_ns : Text
key_timestamp_ns =
    b't' ∷ b'i' ∷ b'm' ∷ b'e' ∷ b's' ∷ b't' ∷ b'a' ∷ b'm' ∷ b'p' ∷ b'_' ∷ b'n' ∷ b's' ∷ []

abbrev key_roster_hash : Text
key_roster_hash = b'r' ∷ b'o' ∷ b's' ∷ b't' ∷ b'e' ∷ b'r' ∷ b'_' ∷ b'h' ∷ b'a' ∷ b's' ∷ b'h' ∷ []

unfoldable pub to_canonical : AnchorRecord → Obj
to_canonical a = Obj.dict (
    Pairs.pair key_version (Obj.int 1) (
      Pairs.pair key_root_hash (Obj.bytes a.root_hash) (
        Pairs.pair key_entry_count (Obj.int a.entry_count) (
          Pairs.pair key_timestamp_ns (Obj.int a.timestamp_ns)
            (Pairs.pair key_roster_hash (Obj.bytes a.roster_hash) Pairs.end)))))

module _ ⦃c : Cbor⦄ where
  unfoldable pub anchor_bytes : AnchorRecord → Bytes
  unfolding to_canonical canonical_encode
  anchor_bytes a = canonical_encode (to_canonical a)

  unfoldable pub anchor_hash : ⦃b : Blake3⦄ → AnchorRecord → Hash
  unfolding anchor_bytes
  anchor_hash a = hash_bytes (anchor_bytes a)
