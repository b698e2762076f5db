-- ===== src/Storage/Facade.antt =====
-- src/arxdb/storage/storage.py: the facade and its transaction. `BEGIN IMMEDIATE ... COMMIT` is the
-- pair of the new index and the new log; `ROLLBACK` keeps the old ones. Blobs that were put stay.
pub mod Commit
pub mod Held
use arxdb.Base.{ℕ, Option, none, some, List, nat_eq, Bytes, bytes_eq, pair_eq}
use arxdb.Base.Result.{Result, ok, err}
use arxdb.Storage.Hashing.{Blake3, Hash, hash_bytes}
use arxdb.Storage.Serialization.{Cbor}
use arxdb.Storage.Keys.{Ed25519}
use arxdb.Storage.ObjectStore.{ObjectStore, put}
use arxdb.Storage.GraphIndex.{GraphIndex, register_edge}
use arxdb.Storage.AppendLog.{LogEntry, AppendLog, append}

pub record Storage : Type 0 where
  pub objects : ObjectStore
  pub graph : GraphIndex
  pub log : AppendLog

module _ ⦃b : Blake3⦄ ⦃c : Cbor⦄ ⦃k : Ed25519⦄ where
  -- `if proof is not None: self.objects.put(proof)`
  unfoldable pub put_proof : ObjectStore → Option Bytes → ObjectStore
  unfolding put
  put_proof s none = s
  put_proof s (some proof) = (put s proof).1

  -- The end of the transaction, by the outcome of `log.append`.
  unfoldable pub finish :
      Storage
      → Hash
      → GraphIndex
      → Result (LogEntry × AppendLog)
      → Result (Hash × LogEntry) × Storage
  finish s edge_hash graph (ok (entry, log)) =
      (ok (edge_hash, entry), record s { graph = graph; log = log })
  finish s edge_hash graph (err e) = (err e, s)

  unfoldable pub commit_edge_tx :
      Storage → ℕ → List Hash → Hash → Bytes → Option Bytes → Result (Hash × LogEntry) × Storage
  unfolding put put_proof register_edge append finish
  commit_edge_tx s now premises conclusion edge_data proof =
      let edge_hash = hash_bytes edge_data in
      let stored = record s { objects = put_proof (put s.objects edge_data).1 proof } in
      finish stored edge_hash (register_edge s.graph edge_hash premises conclusion)
        (append s.log now edge_data)
