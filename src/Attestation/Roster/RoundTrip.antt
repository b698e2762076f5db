-- ===== src/Attestation/Roster/RoundTrip.antt =====
-- `from_bytes` of src/arxdb/attestation/roster.py gives back the roster.
use arxdb.Base.{◌≡◌, refl, ap, ◌∙◌, true, some, [], ◌∷◌, nat_eq, Bytes, bytes_eq, pair_eq}
use arxdb.Base.Tests.{bytes_beq}
use arxdb.Base.Result.{ok, ◌>>=◌}
use arxdb.Base.Dict.{Dict, set}
use arxdb.Storage.Serialization.{
  Cbor, Obj, Objs, canonicalize, canonicalize_items, in_key_order, items_in_key_order, is_plain,
  items_are_plain, dict_get, insert_pair, key_leb, canonical_decode-canonical_encode,
}
use arxdb.Verification.Schema.{Text}
use arxdb.Verification.Schema.Decoding.{index, decoded}
use arxdb.Attestation.Roster.{
  Roster, roster_new, binding_items, to_canonical, roster_bytes, read_bindings, of_dict, from_bytes,
  bytes_new,
}

-- The entries written one by one into a dict.
unfoldable pub write_all : Dict Text Bytes → Dict Text Bytes → Dict Text Bytes
unfolding set
write_all d [] = d
write_all d ((agent_id, pubkey) ∷ es) = write_all (set d agent_id pubkey) es

-- No name occurs twice: the entries are those of a dict.
abbrev pub HasEntries : Roster → Type 0
HasEntries r = write_all [] r.entries ≡ r.entries

read_bindings-items :
    (d es : Dict Text Bytes) → read_bindings d (binding_items es) ≡ ok (write_all d es)
unfolding read_bindings binding_items write_all bytes_new
read_bindings-items d [] = refl
read_bindings-items d ((agent_id, pubkey) ∷ es) = read_bindings-items (set d agent_id pubkey) es

in_order-binding_items :
    (es : Dict Text Bytes) → items_in_key_order (binding_items es) ≡ binding_items es
unfolding binding_items in_key_order
in_order-binding_items [] = refl
in_order-binding_items ((agent_id, pubkey) ∷ es) =
    ap
      (Objs.cons (Obj.list (Objs.cons (Obj.text agent_id) (Objs.cons (Obj.bytes pubkey) Objs.nil))))
      (in_order-binding_items es)

plain-binding_items : (es : Dict Text Bytes) → items_are_plain (binding_items es) ≡ true
unfolding binding_items is_plain
plain-binding_items [] = refl
plain-binding_items ((agent_id, pubkey) ∷ es) = plain-binding_items es

module _ ⦃c : Cbor⦄ where
  canonicalize-binding_items :
      (es : Dict Text Bytes) → canonicalize_items (binding_items es) ≡ binding_items es
  unfolding binding_items canonicalize
  canonicalize-binding_items [] = refl
  canonicalize-binding_items ((agent_id, pubkey) ∷ es) =
      ap
        (Objs.cons
          (Obj.list (Objs.cons (Obj.text agent_id) (Objs.cons (Obj.bytes pubkey) Objs.nil))))
        (canonicalize-binding_items es)

  canonicalize-roster : (r : Roster) → canonicalize (to_canonical r) ≡ to_canonical r
  unfolding canonicalize to_canonical
  canonicalize-roster r = rw (canonicalize-binding_items r.entries) refl

  of_dict-roster :
      (r : Roster) → HasEntries r → of_dict (in_key_order (to_canonical r)) ≡ roster_new r.entries
  unfolding of_dict in_key_order to_canonical insert_pair bytes_beq key_leb index
  of_dict-roster r entries =
      rw (in_order-binding_items r.entries, read_bindings-items [] r.entries, entries) refl

  -- A roster that its constructor accepts, and that names nobody twice, reads back from its bytes.
  pub from_bytes-roster_bytes :
      (r : Roster) → HasEntries r → roster_new r.entries ≡ ok r → from_bytes (roster_bytes r) ≡ ok r
  unfolding from_bytes decoded roster_bytes
  from_bytes-roster_bytes r entries valid =
      let plain : is_plain (to_canonical r) ≡ true =
        unfold is_plain to_canonical dict_get bytes_beq in
        rw (plain-binding_items r.entries) refl in
      let same = canonicalize-roster r in
      ap (λ o. do d ← decoded o; of_dict d)
        (canonical_decode-canonical_encode (to_canonical r) (ap is_plain same ∙ plain)
          ∙ ap (λ x. some (in_key_order x)) same)
      ∙ of_dict-roster r entries
      ∙ valid
