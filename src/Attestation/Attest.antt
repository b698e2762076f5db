-- ===== src/Attestation/Attest.antt =====
-- src/arxdb/attestation/attest.py: the attestation of one edge, the anchor record and the roster as
-- the first entry of the log. The time is an argument.
pub mod Anchor
pub mod Provenance
use arxdb.Base.{
  ℕ, zero, suc, Bool, true, false, ◌&&◌, Option, none, some, nat_beq, if◌then◌else◌, ◌==◌, nat_eq,
  bytes_eq, pair_eq,
}
use arxdb.Base.Result.{Result, ok, err, attribute_error, ◌>>=◌}
use arxdb.Storage.Hashing.{Blake3, Hash, hash_bytes}
use arxdb.Storage.Serialization.{Cbor}
use arxdb.Storage.Keys.{Ed25519}
use arxdb.Storage.ObjectStore.{ObjectStore, read}
use arxdb.Storage.AppendLog
use arxdb.Storage.AppendLog.{LogEntry, AppendLog, append, verify_entry}
use arxdb.Storage.Facade.{Storage}
use arxdb.Verification.Schema.{Text, Edge}
use arxdb.Verification.Schema.EdgeCodec.{edge_hash}
use arxdb.Attestation.Roster.{Roster, roster_bytes, roster_hash, identify}

pub record AttestationResult : Type 0 where
  pub signer_agent_id : Option Text
  pub signature_valid : Bool
  pub proof_bound : Bool
  pub proof_intact : Bool

abbrev pub is_some {ℓ} : {A : Type ℓ} → Option A → Bool
is_some none = false
is_some (some _) = true

-- `result.ok`
unfoldable pub is_ok : AttestationResult → Bool
is_ok r = is_some r.signer_agent_id && (r.signature_valid && (r.proof_bound && r.proof_intact))

pub record AnchorRecord : Type 0 where
  pub root_hash : Hash
  pub entry_count : ℕ
  pub timestamp_ns : ℕ
  pub roster_hash : Hash

-- The loop of `_find_log_entry`: a missing entry is `None`, which has no `entry_hash`.
unfoldable pub search : AppendLog → Hash → ℕ → ℕ → Result (Option LogEntry)
unfolding AppendLog.get
search log h zero seq = ok none
search log h (suc left) seq = elim (AppendLog.get log seq) [
  | none ↦ err attribute_error
  | some entry ↦
      let rest = search log h left (suc seq) in
      if entry.entry_hash == h then ok (some entry) else rest
]

unfoldable pub find_log_entry : AppendLog → Hash → Result (Option LogEntry)
unfolding search AppendLog.size
find_log_entry log h = search log h (AppendLog.size log) 0

module _ ⦃b : Blake3⦄ where
  -- `proof_bound` and `proof_intact`
  unfoldable pub check_proof : ObjectStore → Option Hash → Bool × Bool
  unfolding read
  check_proof s none = (true, true)
  check_proof s (some h) = elim (read s h) [
    | none ↦ (false, false)
    | some blob ↦ (true, hash_bytes blob == h)
  ]

module _ ⦃b : Blake3⦄ ⦃c : Cbor⦄ ⦃k : Ed25519⦄ where
  -- `entry is not None and storage.log.verify_entry(entry)`
  unfoldable pub check_signature : Option LogEntry → Result Bool
  unfolding verify_entry
  check_signature none = ok false
  check_signature (some entry) = verify_entry entry

  unfoldable pub verify_edge_attestation : Edge → Storage → Roster → Result AttestationResult
  unfolding find_log_entry check_signature check_proof identify edge_hash
  verify_edge_attestation edge s roster = do
    entry ← find_log_entry s.log (edge_hash edge)
    valid ← check_signature entry
    ok (record {
      signer_agent_id = identify roster edge.signer_pubkey;
      signature_valid = valid;
      proof_bound = (check_proof s.objects edge.proof_hash).0;
      proof_intact = (check_proof s.objects edge.proof_hash).1;
    })

  unfoldable pub anchor : Storage → Roster → ℕ → AnchorRecord
  unfolding AppendLog.root_hash AppendLog.size roster_hash
  anchor s roster now = record {
    root_hash = AppendLog.root_hash s.log;
    entry_count = AppendLog.size s.log;
    timestamp_ns = now;
    roster_hash = roster_hash roster;
  }

  -- The entry is returned, or None, with the log afterwards.
  unfoldable pub commit_to : AppendLog → ℕ → Roster → Result (Option LogEntry × AppendLog)
  unfolding AppendLog.size AppendLog.get
  commit_to log now roster =
      if nat_beq (AppendLog.size log) 0
      then (do (entry, longer) ← append log now (roster_bytes roster); ok (some entry, longer))
      else elim (AppendLog.get log 0) [
        | none ↦ ok (none, log)
        | some first ↦
            if first.entry_hash == roster_hash roster then ok (some first, log) else ok (none, log)
      ]

  unfoldable pub commit_roster : Storage → ℕ → Roster → Result (Option LogEntry × Storage)
  unfolding commit_to
  commit_roster s now roster = do
    (entry, log) ← commit_to s.log now roster
    ok (entry, record s { log = log })
