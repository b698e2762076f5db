-- ===== src/Storage/AppendLog.antt =====
-- src/arxdb/storage/append_log.py. The table `log` is the list of its rows, in any order: what a
-- query finds is decided by the column `seq`, its primary key. The clock is an argument of `append`.
pub mod Chain
use arxdb.Base.{
  ℕ, zero, suc, Bool, true, false, Option, none, some, List, [], ◌∷◌, ◌++◌, map, leb, nat_beq,
  if◌then◌else◌, Eq, ◌==◌, nat_eq, Bytes, bytes_eq, pair_eq, length,
}
use arxdb.Base.Result.{
  Result, ok, err, type_error, index_error, integrity_error, ◌>>=◌, ◌>>◌, require,
}
use arxdb.Storage.Hashing.{Blake3, Hash, hash_bytes}
use arxdb.Storage.Merkle
use arxdb.Storage.Merkle.{MerkleInclusionProof}
use arxdb.Storage.Serialization.{Cbor, Obj, Objs, canonical_encode}
use arxdb.Storage.Keys.{Ed25519, sign, verify}

pub record LogEntry : Type 0 where
  pub seq : ℕ
  pub timestamp_ns : ℕ
  pub signer_pubkey : Bytes
  pub entry_hash : Hash
  pub prev_log_hash : Hash
  pub signature : Bytes
  pub payload : Bytes

pub record AppendLog : Type 0 where
  pub priv_key : Bytes
  pub pub_key : Bytes
  pub rows : List LogEntry

abbrev zeros : ℕ → Bytes
zeros zero = []
zeros (suc n) = 0 ∷ zeros n

abbrev pub genesis_prev_hash : Hash
genesis_prev_hash = zeros 34

-- `SELECT ... FROM log WHERE seq = ?`
unfoldable pub find_row : List LogEntry → ℕ → Option LogEntry
find_row [] seq = none
find_row (r ∷ rows) seq = let rest = find_row rows seq in if nat_beq r.seq seq then some r else rest

unfoldable pub get : AppendLog → ℕ → Option LogEntry
unfolding find_row
get log seq = find_row log.rows seq

-- `len(log)`
unfoldable pub size : AppendLog → ℕ
size log = length log.rows

unfoldable pub insert_row : LogEntry → List LogEntry → List LogEntry
insert_row r [] = r ∷ []
insert_row r (q ∷ qs) =
    let later = q ∷ insert_row r qs in if leb r.seq q.seq then r ∷ q ∷ qs else later

-- `ORDER BY seq`
unfoldable pub sort_rows : List LogEntry → List LogEntry
unfolding insert_row
sort_rows [] = []
sort_rows (r ∷ rs) = insert_row r (sort_rows rs)

unfoldable pub entry_hashes : AppendLog → List Hash
unfolding sort_rows
entry_hashes log = map (λ (r : LogEntry). r.entry_hash) (sort_rows log.rows)

-- A missing row is `None`, and `row[0]` then raises `TypeError`.
unfoldable pub prev_hash : AppendLog → ℕ → Result Hash
unfolding find_row
prev_hash log zero = ok genesis_prev_hash
prev_hash log (suc seq) = elim (find_row log.rows seq) [
  | none ↦ err type_error
  | some r ↦ ok r.entry_hash
]

module _ ⦃b : Blake3⦄ ⦃c : Cbor⦄ where
  unfoldable pub signature_message : ℕ → ℕ → Bytes → Hash → Hash → Bytes
  unfolding canonical_encode
  signature_message seq timestamp_ns signer_pubkey entry_hash prev_log_hash = canonical_encode (
      Obj.list (
        Objs.cons (Obj.int seq) (
          Objs.cons (Obj.int timestamp_ns) (
            Objs.cons (Obj.bytes signer_pubkey)
              (Objs.cons (Obj.bytes entry_hash) (Objs.cons (Obj.bytes prev_log_hash) Objs.nil))))))

  unfoldable pub entry_message : LogEntry → Bytes
  unfolding signature_message
  entry_message e =
      signature_message e.seq e.timestamp_ns e.signer_pubkey e.entry_hash e.prev_log_hash

module _ ⦃b : Blake3⦄ where
  unfoldable pub root_hash : AppendLog → Hash
  unfolding entry_hashes
  root_hash log = Merkle.root_hash (entry_hashes log)

  unfoldable pub get_inclusion_proof : AppendLog → ℕ → Result MerkleInclusionProof
  unfolding entry_hashes
  get_inclusion_proof log seq =
      let hashes = entry_hashes log in
      if leb (length hashes) seq then err index_error else Merkle.inclusion_proof hashes seq

module _ ⦃b : Blake3⦄ ⦃c : Cbor⦄ ⦃k : Ed25519⦄ where
  -- A duplicate `seq` is an `IntegrityError`.
  unfoldable pub append : AppendLog → ℕ → Bytes → Result (LogEntry × AppendLog)
  unfolding prev_hash find_row signature_message sign
  append log now entry = do
    let seq = length log.rows
    let entry_hash = hash_bytes entry
    prev_log_hash ← prev_hash log seq
    signature ← sign log.priv_key (signature_message seq now log.pub_key entry_hash prev_log_hash)
    require (elim (find_row log.rows seq) [ none ↦ true | some _ ↦ false ]) integrity_error
    let row : LogEntry = record {
      seq = seq;
      timestamp_ns = now;
      signer_pubkey = log.pub_key;
      entry_hash = entry_hash;
      prev_log_hash = prev_log_hash;
      signature = signature;
      payload = entry;
    }
    ok (row, record log { rows = log.rows ++ row ∷ [] })

  unfoldable pub verify_entry : LogEntry → Result Bool
  unfolding entry_message verify
  verify_entry entry =
      if hash_bytes entry.payload == entry.entry_hash
      then verify entry.signer_pubkey (entry_message entry) entry.signature
      else ok false
