-- ===== src/Storage/Facade/Held.antt =====
-- What `commit_edge_tx` of src/arxdb/storage/storage.py leaves in the object store.
use arxdb.Base.{
  ℕ, ◌≡◌, refl, sym, subst, ◌⊎◌, Option, none, some, List, nat_eq, Bytes, bytes_eq, pair_eq,
}
use arxdb.Base.Result.{Result, ok, err}
use mathlib.Core.Logic.{⊎_elim}
use arxdb.Storage.Hashing.{Blake3, Hash, hash_bytes}
use arxdb.Storage.Serialization.{Cbor}
use arxdb.Storage.Keys.{Ed25519}
use arxdb.Storage.ObjectStore.{ObjectStore, put, IsAddressed, put-IsAddressed}
use arxdb.Storage.ObjectStore.Held.{Holds, put-Holds, put_keeps-Holds}
use arxdb.Storage.GraphIndex.{GraphIndex, register_edge}
use arxdb.Storage.AppendLog.{LogEntry, AppendLog, append}
use arxdb.Storage.Facade.{Storage, put_proof, finish, commit_edge_tx}

module _ ⦃b : Blake3⦄ ⦃c : Cbor⦄ ⦃k : Ed25519⦄ where
  put_proof_keeps :
      (s : ObjectStore) (proof : Option Bytes) (old : Bytes)
      → Holds s old
      → Holds (put_proof s proof) old
  unfolding put_proof
  put_proof_keeps s none old there = there
  put_proof_keeps s (some proof) old there = put_keeps-Holds s proof old there

  finish-objects :
      (s : Storage) (h : Hash) (g : GraphIndex) (r : Result (LogEntry × AppendLog))
      → (finish s h g r).1.objects ≡ s.objects
  unfolding finish
  finish-objects s h g (ok (entry, log)) = refl
  finish-objects s h g (err e) = refl

  -- Whatever becomes of the transaction, the bytes of the edge and what was held before are held.
  pub commit_edge_tx-Holds :
      (s : Storage) (now : ℕ) (premises : List Hash) (conclusion : Hash) (edge_data : Bytes)
      (proof : Option Bytes) (old : Bytes)
      → IsAddressed s.objects
      → (old ≡ edge_data) ⊎ Holds s.objects old
      → Holds (commit_edge_tx s now premises conclusion edge_data proof).1.objects old
  unfolding commit_edge_tx
  commit_edge_tx-Holds s now premises conclusion edge_data proof old inv known =
      let stored : Storage = record s { objects = put_proof (put s.objects edge_data).1 proof } in
      let held : Holds (put s.objects edge_data).1 old =
        ⊎_elim
          (λ e.
            subst (λ x. Holds (put s.objects edge_data).1 x) (sym e)
              (put-Holds s.objects edge_data inv))
          (put_keeps-Holds s.objects edge_data old) known in
      subst (λ o. Holds o old)
        (sym (
          finish-objects stored (hash_bytes edge_data)
            (register_edge s.graph (hash_bytes edge_data) premises conclusion)
            (append s.log now edge_data)))
        (put_proof_keeps (put s.objects edge_data).1 proof old held)

  put_proof-Holds :
      (o : ObjectStore) (proof : Option Bytes) (x : Bytes)
      → IsAddressed o
      → proof ≡ some x
      → Holds (put_proof o proof) x
  unfolding put_proof
  put_proof-Holds o none x inv e = absurd (cc e)
  put_proof-Holds o (some y) x inv e =
      let same : y ≡ x = cc e in subst (λ w. Holds (put o y).1 w) same (put-Holds o y inv)

  -- The bytes of a proof are held as well.
  pub commit_edge_tx-proof :
      (s : Storage) (now : ℕ) (premises : List Hash) (conclusion : Hash) (edge_data : Bytes)
      (proof : Option Bytes) (x : Bytes)
      → IsAddressed s.objects
      → proof ≡ some x
      → Holds (commit_edge_tx s now premises conclusion edge_data proof).1.objects x
  unfolding commit_edge_tx
  commit_edge_tx-proof s now premises conclusion edge_data proof x inv e =
      let stored : Storage = record s { objects = put_proof (put s.objects edge_data).1 proof } in
      subst (λ o. Holds o x)
        (sym (
          finish-objects stored (hash_bytes edge_data)
            (register_edge s.graph (hash_bytes edge_data) premises conclusion)
            (append s.log now edge_data)))
        (put_proof-Holds (put s.objects edge_data).1 proof x
          (put-IsAddressed s.objects edge_data inv) e)
