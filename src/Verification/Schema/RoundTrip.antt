-- ===== src/Verification/Schema/RoundTrip.antt =====
-- An edge reads back from its bytes.
use arxdb.Base.{
  ◌≡◌, refl, ap, ◌∙◌, true, Option, none, some, List, [], ◌∷◌, Memᴰ, nat_eq, bytes_eq, pair_eq,
  length,
}
use arxdb.Base.Tests.{bytes_beq}
use arxdb.Base.Result.{ok, ◌>>=◌}
use arxdb.Storage.Hashing.{Hash, hash_new-ok, hash_size}
use arxdb.Storage.Serialization.{
  Cbor, Obj, Objs, Pairs, dict_get, canonical_decode-canonical_encode, canonicalize,
  canonicalize_items, is_plain, items_are_plain, in_key_order, items_in_key_order, insert_pair,
  key_leb,
}
use arxdb.Verification.Schema.{Edge}
use arxdb.Verification.Schema.Values.{
  key_type, key_premises, key_conclusion, key_rule, key_proof_hash, key_verdict, key_kappa,
  key_signer_pubkey, edge_type_value, verdict_value, kappa_value, to_edge_type-value,
  to_verdict-value, to_kappa-value,
}
use arxdb.Verification.Schema.Decoding.{decoded, to_hash, to_hashes, to_optional_hash}
use arxdb.Verification.Schema.EdgeCodec.{
  hash_items, optional_hash, to_canonical, of_dict, edge_bytes, from_bytes,
}

-- Each hash in an edge has 34 bytes, as the constructor of `Hash` checks.
pub record IsSized (e : Edge) : Type 0 where
  pub premises : (h : Hash) → Memᴰ h e.premises → length h ≡ hash_size
  pub conclusion : length e.conclusion ≡ hash_size
  pub proof_hash : (h : Hash) → e.proof_hash ≡ some h → length h ≡ hash_size

module _ ⦃c : Cbor⦄ where
  canonicalize-hash_items : (hs : List Hash) → canonicalize_items (hash_items hs) ≡ hash_items hs
  unfolding hash_items canonicalize
  canonicalize-hash_items [] = refl
  canonicalize-hash_items (h ∷ hs) = ap (Objs.cons (Obj.bytes h)) (canonicalize-hash_items hs)

  canonicalize-optional_hash : (o : Option Hash) → canonicalize (optional_hash o) ≡ optional_hash o
  unfolding optional_hash canonicalize
  canonicalize-optional_hash none = refl
  canonicalize-optional_hash (some h) = refl

in_order-hash_items : (hs : List Hash) → items_in_key_order (hash_items hs) ≡ hash_items hs
unfolding hash_items in_key_order
in_order-hash_items [] = refl
in_order-hash_items (h ∷ hs) = ap (Objs.cons (Obj.bytes h)) (in_order-hash_items hs)

in_order-optional_hash : (o : Option Hash) → in_key_order (optional_hash o) ≡ optional_hash o
unfolding optional_hash in_key_order
in_order-optional_hash none = refl
in_order-optional_hash (some h) = refl

plain-hash_items : (hs : List Hash) → items_are_plain (hash_items hs) ≡ true
unfolding hash_items is_plain
plain-hash_items [] = refl
plain-hash_items (h ∷ hs) = plain-hash_items hs

plain-optional_hash : (o : Option Hash) → is_plain (optional_hash o) ≡ true
unfolding optional_hash is_plain
plain-optional_hash none = refl
plain-optional_hash (some h) = refl

to_hashes-hash_items :
    (hs : List Hash)
    → ((h : Hash) → Memᴰ h hs → length h ≡ hash_size)
    → to_hashes (hash_items hs) ≡ ok hs
unfolding hash_items to_hashes to_hash
to_hashes-hash_items [] sized = refl
to_hashes-hash_items (h ∷ hs) sized = rw (
  hash_new-ok h (sized h (Memᴰ.head refl)),
  to_hashes-hash_items hs (λ g m. sized g (Memᴰ.tail m)),
)

to_optional_hash-some :
    (o : Option Hash)
    → ((h : Hash) → o ≡ some h → length h ≡ hash_size)
    → to_optional_hash (optional_hash o) ≡ ok o
unfolding optional_hash to_optional_hash to_hash
to_optional_hash-some none sized = refl
to_optional_hash-some (some h) sized = rw (hash_new-ok h (sized h refl))

-- The dict of an edge in key order.
sorted_canonical : Edge → Obj
sorted_canonical e = Obj.dict (
    Pairs.pair key_rule (Obj.text e.rule) (
      Pairs.pair key_type (Obj.text (edge_type_value e.type)) (
        Pairs.pair key_kappa (Obj.text (kappa_value e.kappa)) (
          Pairs.pair key_verdict (Obj.text (verdict_value e.verdict)) (
            Pairs.pair key_premises (Obj.list (hash_items e.premises)) (
              Pairs.pair key_conclusion (Obj.bytes e.conclusion) (
                Pairs.pair key_proof_hash (optional_hash e.proof_hash)
                  (Pairs.pair key_signer_pubkey (Obj.bytes e.signer_pubkey) Pairs.end))))))))

of_dict-sorted : (e : Edge) → IsSized e → of_dict (sorted_canonical e) ≡ ok e
unfolding of_dict sorted_canonical bytes_beq
of_dict-sorted e sized = rw (
  to_edge_type-value e.type,
  to_hashes-hash_items e.premises sized.premises,
  hash_new-ok e.conclusion sized.conclusion,
  to_optional_hash-some e.proof_hash sized.proof_hash,
  to_verdict-value e.verdict,
  to_kappa-value e.kappa,
)

module _ ⦃c : Cbor⦄ where
  canonicalize-edge : (e : Edge) → canonicalize (to_canonical e) ≡ to_canonical e
  unfolding canonicalize to_canonical
  canonicalize-edge e =
      rw (canonicalize-hash_items e.premises, canonicalize-optional_hash e.proof_hash)

  -- An edge reads back from its bytes, if each hash in it has 34 bytes.
  pub from_bytes-edge_bytes : (e : Edge) → IsSized e → from_bytes (edge_bytes e) ≡ ok e
  unfolding from_bytes decoded edge_bytes
  from_bytes-edge_bytes e sized =
      let plain : is_plain (to_canonical e) ≡ true =
        unfold is_plain to_canonical dict_get bytes_beq in
        rw (plain-hash_items e.premises, plain-optional_hash e.proof_hash) in
      let sorted : in_key_order (to_canonical e) ≡ sorted_canonical e =
        unfold in_key_order to_canonical sorted_canonical insert_pair key_leb bytes_beq in
        rw (in_order-hash_items e.premises, in_order-optional_hash e.proof_hash) in
      let same = canonicalize-edge e in
      ap (λ o. do d ← decoded o; of_dict d)
        (canonical_decode-canonical_encode (to_canonical e) (ap is_plain same ∙ plain)
          ∙ ap (λ x. some (in_key_order x)) same
          ∙ ap some sorted)
      ∙ of_dict-sorted e sized
