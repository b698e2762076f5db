-- ===== src/Verification/Schema/NodeCodec.antt =====
-- The canonical encoding of `Node` in src/arxdb/verification/schema.py.
use arxdb.Base.{◌≡◌, refl, ap, ◌∙◌, true, nat_eq, Bytes, bytes_eq, pair_eq}
use arxdb.Base.Tests.{bytes_beq}
use arxdb.Base.Result.{Result, ok, ◌>>=◌}
use arxdb.Storage.Hashing.{Blake3, Hash, hash_bytes}
use arxdb.Storage.Serialization.{
  Cbor, Obj, Pairs, dict_get, canonical_encode, canonical_decode-canonical_encode, canonical_decode,
  canonicalize, is_plain, in_key_order, insert_pair, key_leb,
}
use arxdb.Verification.Schema.{Node}
use arxdb.Verification.Schema.Values.{key_claim, key_domain, key_polarity}
use arxdb.Verification.Schema.Decoding.{decoded, index, to_text, to_bool}

unfoldable pub to_canonical : Node → Obj
to_canonical n = Obj.dict (
    Pairs.pair key_claim (Obj.text n.claim) (
      Pairs.pair key_domain (Obj.text n.domain)
        (Pairs.pair key_polarity (Obj.bool n.polarity) Pairs.end)))

-- The fields of a decoded dict, in the order in which the constructor's arguments are evaluated.
unfoldable pub of_dict : Obj → Result Node
unfolding index to_text to_bool
of_dict d = do
  c ← index d key_claim
  claim ← to_text c
  m ← index d key_domain
  domain ← to_text m
  p ← index d key_polarity
  polarity ← to_bool p
  ok (record { claim = claim; domain = domain; polarity = polarity })

module _ ⦃c : Cbor⦄ where
  unfoldable pub node_bytes : Node → Bytes
  unfolding to_canonical canonical_encode
  node_bytes n = canonical_encode (to_canonical n)

  unfoldable pub from_bytes : Bytes → Result Node
  unfolding of_dict canonical_decode decoded
  from_bytes raw = do d ← decoded (canonical_decode raw); of_dict d

  unfoldable pub node_id : ⦃b : Blake3⦄ → Node → Hash
  unfolding node_bytes
  node_id n = hash_bytes (node_bytes n)

  of_dict-node : (n : Node) → of_dict (in_key_order (canonicalize (to_canonical n))) ≡ ok n
  unfolding of_dict in_key_order canonicalize to_canonical insert_pair bytes_beq key_leb
  of_dict-node n = refl

  -- A node reads back from its bytes.
  pub from_bytes-node_bytes : (n : Node) → from_bytes (node_bytes n) ≡ ok n
  unfolding from_bytes decoded node_bytes
  from_bytes-node_bytes n =
      let plain : is_plain (canonicalize (to_canonical n)) ≡ true =
        unfold is_plain canonicalize to_canonical dict_get bytes_beq in refl in
      ap (λ o. do d ← decoded o; of_dict d)
        (canonical_decode-canonical_encode (to_canonical n) plain)
      ∙ of_dict-node n
