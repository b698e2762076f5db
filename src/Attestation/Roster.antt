-- ===== src/Attestation/Roster.antt =====
-- src/arxdb/attestation/roster.py: the bindings of agent names to public keys.
pub mod RoundTrip
use arxdb.Base.{
  ℕ, zero, suc, Bool, false, Option, none, some, [], ◌∷◌, nat_beq, if◌then◌else◌, ◌==◌, nat_eq,
  Bytes, bytes_eq, pair_eq, length,
}
use arxdb.Base.Result.{err, type_error, ◌>>=◌, Result, ok, value_error, require, ◌>>◌}
use arxdb.Base.Dict.{Dict, get, set}
use arxdb.Storage.Hashing.{Blake3, Hash, hash_bytes}
use arxdb.Storage.Serialization.{Cbor, Obj, Objs, Pairs, canonical_encode, canonical_decode}
use arxdb.Storage.Keys.{public_key_size}
use arxdb.Verification.Schema.{Text}
use arxdb.Verification.Schema.Decoding.{index, iterate, bytes_of, to_text, decoded}

pub record Roster : Type 0 where
  pub entries : Dict Text Bytes

-- The test of `__post_init__` on one binding.
abbrev pub is_binding : Text → Bytes → Bool
is_binding [] pubkey = false
is_binding (x ∷ xs) pubkey = nat_beq (length pubkey) public_key_size

unfoldable pub check_bindings : Dict Text Bytes → Result (Unit {0})
check_bindings [] = ok tt
check_bindings ((agent_id, pubkey) ∷ rest) = do
  require (is_binding agent_id pubkey) value_error
  check_bindings rest

-- `Roster(entries)`
unfoldable pub roster_new : Dict Text Bytes → Result Roster
unfolding check_bindings
roster_new entries = do check_bindings entries; ok (record { entries = entries })

abbrev pub key_version : Text
key_version = b'v' ∷ b'e' ∷ b'r' ∷ b's' ∷ b'i' ∷ b'o' ∷ b'n' ∷ []

abbrev pub key_bindings : Text
key_bindings = b'b' ∷ b'i' ∷ b'n' ∷ b'd' ∷ b'i' ∷ b'n' ∷ b'g' ∷ b's' ∷ []

unfoldable pub binding_items : Dict Text Bytes → Objs
binding_items [] = Objs.nil
binding_items ((agent_id, pubkey) ∷ rest) =
    Objs.cons (Obj.list (Objs.cons (Obj.text agent_id) (Objs.cons (Obj.bytes pubkey) Objs.nil)))
      (binding_items rest)

unfoldable pub to_canonical : Roster → Obj
unfolding binding_items
to_canonical r = Obj.dict (
    Pairs.pair key_version (Obj.int 1)
      (Pairs.pair key_bindings (Obj.list (binding_items r.entries)) Pairs.end))

module _ ⦃c : Cbor⦄ where
  unfoldable pub roster_bytes : Roster → Bytes
  unfolding to_canonical canonical_encode
  roster_bytes r = canonical_encode (to_canonical r)

  unfoldable pub roster_hash : ⦃b : Blake3⦄ → Roster → Hash
  unfolding roster_bytes
  roster_hash r = hash_bytes (roster_bytes r)

unfoldable pub resolve : Roster → Text → Option Bytes
resolve r agent_id = get r.entries agent_id

unfoldable pub first_agent : Dict Text Bytes → Bytes → Option Text
first_agent [] pubkey = none
first_agent ((agent_id, pk) ∷ rest) pubkey =
    let later = first_agent rest pubkey in if pk == pubkey then some agent_id else later

unfoldable pub identify : Roster → Bytes → Option Text
unfolding first_agent
identify r pubkey = first_agent r.entries pubkey

unfoldable pub zeros : ℕ → Bytes
zeros zero = []
zeros (suc n) = 0 ∷ zeros n

-- `bytes(x)`
unfoldable pub bytes_new : Obj → Result Bytes
unfolding zeros bytes_of iterate
bytes_new (Obj.bytes raw) = ok raw
bytes_new (Obj.int n) = ok (zeros n)
bytes_new (Obj.bool v) = ok (if v then 0 ∷ [] else [])
bytes_new (Obj.text t) = err type_error
bytes_new x = do xs ← iterate x; bytes_of xs

-- `agent_id, pubkey = item`
abbrev pub two_of : Objs → Result (Obj × Obj)
two_of (Objs.cons a (Objs.cons b Objs.nil)) = ok (a, b)
two_of xs = err value_error

-- `{agent_id: bytes(pubkey) for agent_id, pubkey in items}`
unfoldable pub read_bindings : Dict Text Bytes → Objs → Result (Dict Text Bytes)
unfolding bytes_new iterate to_text set
read_bindings entries Objs.nil = ok entries
read_bindings entries (Objs.cons x xs) = do
  parts ← iterate x
  (name, key) ← two_of parts
  pubkey ← bytes_new key
  agent_id ← to_text name
  read_bindings (set entries agent_id pubkey) xs

unfoldable pub of_dict : Obj → Result Roster
unfolding index iterate read_bindings roster_new
of_dict d = do
  b ← index d key_bindings
  items ← iterate b
  entries ← read_bindings [] items
  roster_new entries

module _ ⦃c : Cbor⦄ where
  unfoldable pub from_bytes : Bytes → Result Roster
  unfolding canonical_decode decoded of_dict
  from_bytes raw = do d ← decoded (canonical_decode raw); of_dict d
