-- ===== src/Attestation/History.antt =====
-- src/arxdb/attestation/attest.py: `verify_history`, the walk along the whole log.
pub mod Evidence
pub mod Tampering
use arxdb.Base.{
  ℕ, zero, suc, Bool, true, false, none, some, List, [], ◌∷◌, ◌++◌, if◌then◌else◌, Eq, ◌==◌, nat_eq,
  bytes_eq, pair_eq,
}
use arxdb.Base.Result.{Result, ok, err, ◌>>=◌}
use arxdb.Storage.Hashing.{Blake3, Hash}
use arxdb.Storage.Merkle
use arxdb.Storage.Serialization.{Cbor}
use arxdb.Storage.Keys.{Ed25519}
use arxdb.Storage.AppendLog
use arxdb.Storage.AppendLog.{LogEntry, AppendLog, genesis_prev_hash, verify_entry}

module _ ⦃b : Blake3⦄ ⦃c : Cbor⦄ ⦃k : Ed25519⦄ where
  -- The two tests on an entry: its signature and its link to the entry before.
  unfoldable pub check_entry : LogEntry → Hash → Result Bool
  unfolding verify_entry
  check_entry entry prev = do
    good ← verify_entry entry
    ok (if good then entry.prev_log_hash == prev else false)

  -- `return False` where a test fails
  unfoldable pub go_on : Result Bool → Result Bool → Result Bool
  go_on (ok true) rest = rest
  go_on (ok false) rest = ok false
  go_on (err e) rest = err e

  -- The loop, with `left` entries to go, `hashes` those of the entries read.
  unfoldable pub walk : AppendLog → Hash → ℕ → ℕ → Hash → List Hash → Result Bool
  unfolding AppendLog.get check_entry go_on
  walk log trusted_root zero seq prev hashes = ok (Merkle.root_hash hashes == trusted_root)
  walk log trusted_root (suc left) seq prev hashes = elim (AppendLog.get log seq) [
    | none ↦ ok false
    | some entry ↦
        let rest =
          walk log trusted_root left (suc seq) entry.entry_hash (hashes ++ entry.entry_hash ∷ []) in
        go_on (check_entry entry prev) rest
  ]

  unfoldable pub verify_history : AppendLog → Hash → Result Bool
  unfolding walk AppendLog.size
  verify_history log trusted_root =
      walk log trusted_root (AppendLog.size log) 0 genesis_prev_hash []
