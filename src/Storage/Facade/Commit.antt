-- ===== src/Storage/Facade/Commit.antt =====
-- `commit_edge_tx` is atomic and keeps a storage well formed.
use arxdb.Base.{
  ℕ, ◌≡◌, ◌∙◌, refl, sym, ap, subst, true, Option, none, some, List, [], ◌∷◌, ◌++◌, nat_eq, Bytes,
  bytes_eq, pair_eq,
}
use arxdb.Base.Result.{Result, ok, err, Error}
use arxdb.Base.Dict.{get}
use arxdb.Storage.Hashing.{Blake3, Hash, hash_bytes}
use arxdb.Storage.Serialization.{Cbor}
use arxdb.Storage.Keys.{Ed25519}
use arxdb.Storage.ObjectStore.{ObjectStore, put, IsAddressed, put-IsAddressed}
use arxdb.Storage.GraphIndex.{GraphIndex, register_edge, get_connectivity}
use arxdb.Storage.GraphIndex.Edges.{IsConsistent, register_edge_new, register_edge-IsConsistent}
use arxdb.Storage.AppendLog.{LogEntry, AppendLog, append, verify_entry}
use arxdb.Storage.AppendLog.Chain.{IsChain, HasKeys, new_row, append-IsChain}
use arxdb.Storage.Facade.{Storage, put_proof, finish, commit_edge_tx}

module _ ⦃b : Blake3⦄ ⦃c : Cbor⦄ ⦃k : Ed25519⦄ where
  -- The invariants of the three parts.
  pub record IsSound (s : Storage) : Type 0 where
    pub addressed : IsAddressed s.objects
    pub consistent : IsConsistent s.graph
    pub chain : IsChain s.log
    pub keys : HasKeys s.log

  put_proof-IsAddressed :
      (s : ObjectStore) (proof : Option Bytes) → IsAddressed s → IsAddressed (put_proof s proof)
  unfolding put_proof
  put_proof-IsAddressed s none inv = inv
  put_proof-IsAddressed s (some blob) inv = put-IsAddressed s blob inv

  finish_err :
      (s : Storage) (h : Hash) (g : GraphIndex) (r : Result (LogEntry × AppendLog)) (e : Error)
      → (finish s h g r).0 ≡ err e
      → (finish s h g r).1 ≡ s
  unfolding finish
  finish_err s h g (ok (entry, log)) e q = absurd (cc q)
  finish_err s h g (err d) e q = refl

  -- Where `commit_edge_tx` raises, the graph index and the log are as they were, and each file of
  -- the object store stands at the path of its hash if that was so before.
  pub commit_edge_tx_rollback :
      (s s' : Storage) (now : ℕ) (premises : List Hash) (conclusion : Hash) (edge_data : Bytes)
      (proof : Option Bytes) (e : Error)
      → commit_edge_tx s now premises conclusion edge_data proof ≡ (err e, s')
      → (s'.graph ≡ s.graph) × (s'.log ≡ s.log) × (IsAddressed s.objects → IsAddressed s'.objects)
  unfolding commit_edge_tx
  commit_edge_tx_rollback s s' now premises conclusion edge_data proof e h =
      let stored : Storage = record s { objects = put_proof (put s.objects edge_data).1 proof } in
      let same : s' ≡ stored =
        sym (ap (λ r. r.1) h)
        ∙ finish_err stored (hash_bytes edge_data)
            (register_edge s.graph (hash_bytes edge_data) premises conclusion)
            (append s.log now edge_data) e (ap (λ r. r.0) h) in
      (
        ap (λ (t : Storage). t.graph) same,
        ap (λ (t : Storage). t.log) same,
        λ inv.
            subst (λ (t : Storage). IsAddressed t.objects) (sym same)
              (put_proof-IsAddressed (put s.objects edge_data).1 proof
                (put-IsAddressed s.objects edge_data inv)),
      )

  -- Committing an edge that is new to a sound storage succeeds: the log has one more entry, which
  -- carries the bytes of the edge and verifies; `get_connectivity` returns the premises and the
  -- conclusion of the edge; and the storage is sound again.
  pub commit_edge_tx_new :
      (s : Storage) (now : ℕ) (premises : List Hash) (conclusion : Hash) (edge_data : Bytes)
      (proof : Option Bytes)
      → IsSound s
      → get s.graph.edges (hash_bytes edge_data) ≡ none
      → (entry : LogEntry) × (s' : Storage) × (commit_edge_tx s now premises conclusion edge_data
            proof
          ≡ (ok (hash_bytes edge_data, entry), s'))
        × (entry.payload ≡ edge_data)
        × (verify_entry entry ≡ ok true)
        × (s'.log.rows ≡ s.log.rows ++ entry ∷ [])
        × (get_connectivity s'.graph (hash_bytes edge_data) ≡ some (premises, conclusion))
        × IsSound s'
  unfolding commit_edge_tx finish
  commit_edge_tx_new s now premises conclusion edge_data proof inv new =
      let (sig, done, valid, chain) = append-IsChain s.log now edge_data inv.chain inv.keys in
      let (found, _, consistent) =
        register_edge_new s.graph (hash_bytes edge_data) premises conclusion inv.consistent new in
      let entry : LogEntry = new_row s.log now edge_data sig in
      let s' : Storage = record s {
        objects = put_proof (put s.objects edge_data).1 proof;
        graph = register_edge s.graph (hash_bytes edge_data) premises conclusion;
        log = record s.log { rows = s.log.rows ++ entry ∷ [] };
      } in
      (
        entry,
        s',
        rw (done, finish) refl,
        refl,
        valid,
        refl,
        found,
        record {
          addressed =
              put_proof-IsAddressed (put s.objects edge_data).1 proof
                (put-IsAddressed s.objects edge_data inv.addressed);
          consistent = consistent;
          chain = chain;
          keys = inv.keys;
        },
      )

  -- Committing to a sound storage succeeds, also for an edge that is registered already.
  pub commit_edge_tx_ok :
      (s : Storage) (now : ℕ) (premises : List Hash) (conclusion : Hash) (edge_data : Bytes)
      (proof : Option Bytes)
      → IsSound s
      → (entry : LogEntry) × (s' : Storage) × (commit_edge_tx s now premises conclusion edge_data
            proof
          ≡ (ok (hash_bytes edge_data, entry), s'))
        × IsSound s'
  unfolding commit_edge_tx finish
  commit_edge_tx_ok s now premises conclusion edge_data proof inv =
      let (sig, done, valid, chain) = append-IsChain s.log now edge_data inv.chain inv.keys in
      let entry : LogEntry = new_row s.log now edge_data sig in
      (
        entry,
        record s {
          objects = put_proof (put s.objects edge_data).1 proof;
          graph = register_edge s.graph (hash_bytes edge_data) premises conclusion;
          log = record s.log { rows = s.log.rows ++ entry ∷ [] };
        },
        rw (done, finish) refl,
        record {
          addressed =
              put_proof-IsAddressed (put s.objects edge_data).1 proof
                (put-IsAddressed s.objects edge_data inv.addressed);
          consistent =
              register_edge-IsConsistent s.graph (hash_bytes edge_data) premises conclusion
                inv.consistent;
          chain = chain;
          keys = inv.keys;
        },
      )
