-- ===== src/Verification/Schema/EdgeCodec.antt =====
-- The canonical encoding of `Edge` in src/arxdb/verification/schema.py.
use arxdb.Base.{Option, none, some, List, [], ◌∷◌, nat_eq, Bytes, bytes_eq, pair_eq}
use arxdb.Base.Result.{Result, ok, ◌>>=◌}
use arxdb.Storage.Hashing.{Blake3, Hash, hash_bytes}
use arxdb.Storage.Serialization.{Cbor, Obj, Objs, Pairs, canonical_encode, canonical_decode}
use arxdb.Verification.Schema.{Edge}
use arxdb.Verification.Schema.Values.{
  key_type, key_premises, key_conclusion, key_rule, key_proof_hash, key_verdict, key_kappa,
  key_signer_pubkey, edge_type_value, verdict_value, kappa_value, to_edge_type, to_verdict,
  to_kappa,
}
use arxdb.Verification.Schema.Decoding.{
  decoded, index, to_hash, to_hashes, iterate, to_text, to_bytes, to_optional_hash,
}

unfoldable pub hash_items : List Hash → Objs
hash_items [] = Objs.nil
hash_items (h ∷ hs) = Objs.cons (Obj.bytes h) (hash_items hs)

unfoldable pub optional_hash : Option Hash → Obj
optional_hash none = Obj.null
optional_hash (some h) = Obj.bytes h

unfoldable pub to_canonical : Edge → Obj
unfolding hash_items optional_hash
to_canonical e = Obj.dict (
    Pairs.pair key_type (Obj.text (edge_type_value e.type)) (
      Pairs.pair key_premises (Obj.list (hash_items e.premises)) (
        Pairs.pair key_conclusion (Obj.bytes e.conclusion) (
          Pairs.pair key_rule (Obj.text e.rule) (
            Pairs.pair key_proof_hash (optional_hash e.proof_hash) (
              Pairs.pair key_verdict (Obj.text (verdict_value e.verdict)) (
                Pairs.pair key_kappa (Obj.text (kappa_value e.kappa))
                  (Pairs.pair key_signer_pubkey (Obj.bytes e.signer_pubkey) Pairs.end))))))))

-- The fields of a decoded dict, in the order in which the constructor's arguments are evaluated.
unfoldable pub of_dict : Obj → Result Edge
unfolding index to_edge_type iterate to_hashes to_hash to_text to_optional_hash to_verdict to_kappa
    to_bytes
of_dict d = do
  t ← index d key_type
  type ← to_edge_type t
  ps ← index d key_premises
  items ← iterate ps
  premises ← to_hashes items
  c ← index d key_conclusion
  conclusion ← to_hash c
  r ← index d key_rule
  rule ← to_text r
  p ← index d key_proof_hash
  proof_hash ← to_optional_hash p
  v ← index d key_verdict
  verdict ← to_verdict v
  k ← index d key_kappa
  kappa ← to_kappa k
  s ← index d key_signer_pubkey
  signer ← to_bytes s
  ok (record {
    type = type;
    premises = premises;
    conclusion = conclusion;
    rule = rule;
    proof_hash = proof_hash;
    verdict = verdict;
    kappa = kappa;
    signer_pubkey = signer;
  })

module _ ⦃c : Cbor⦄ where
  unfoldable pub edge_bytes : Edge → Bytes
  unfolding to_canonical canonical_encode
  edge_bytes e = canonical_encode (to_canonical e)

  unfoldable pub from_bytes : Bytes → Result Edge
  unfolding of_dict canonical_decode decoded
  from_bytes raw = do d ← decoded (canonical_decode raw); of_dict d

  unfoldable pub edge_hash : ⦃b : Blake3⦄ → Edge → Hash
  unfolding edge_bytes
  edge_hash e = hash_bytes (edge_bytes e)
