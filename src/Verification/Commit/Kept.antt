-- ===== src/Verification/Commit/Kept.antt =====
-- What an accepted proposal leaves in the storage, also where src/arxdb/verification/commit.py
-- commits an edge again.
use arxdb.Base.{
  ℕ, ◌≡◌, refl, ap, subst, ◌⊎◌, inl, inr, false, Option, some, List, nat_eq, Bytes, bytes_eq,
  pair_eq,
}
use arxdb.Base.Strings.{Strings}
use arxdb.Base.Result.{Result, ok}
use arxdb.Storage.Hashing.{Blake3, Hash}
use arxdb.Storage.Serialization.{Cbor}
use arxdb.Storage.Keys.{Ed25519}
use arxdb.Storage.ObjectStore.Held.{Holds, put_keeps-Holds}
use arxdb.Storage.AppendLog.{LogEntry}
use arxdb.Storage.Facade.{Storage}
use arxdb.Storage.Facade.Commit.{IsSound, commit_edge_tx_ok}
use arxdb.Verification.Schema.{Text, Node, Edge, EdgeType}
use arxdb.Verification.Schema.NodeCodec.{node_bytes}
use arxdb.Verification.Schema.EdgeCodec.{edge_bytes, edge_hash}
use arxdb.Verification.Checkers.Backends.{Sympy, Z3, Numpy, Lean}
use arxdb.Verification.Verifier.{VerificationResult, is_rejected, verify}
use arxdb.Verification.Commit.{
  build_edge, put_nodes, put_claims, committed, store_verified, store_unless_rejected,
  verify_and_commit,
}
use arxdb.Verification.Commit.Stored.{put_nodes_keeps, put_claims-IsSound}
use arxdb.Storage.Facade.Held.{commit_edge_tx-Holds}

module _ ⦃b : Blake3⦄ ⦃c : Cbor⦄ where
  put_claims_keeps :
      (s : Storage) (ps : List Node) (n : Node) (old : Bytes)
      → Holds s.objects old
      → Holds (put_claims s ps n).objects old
  unfolding put_claims
  put_claims_keeps s ps n old there =
      put_keeps-Holds (put_nodes s.objects ps) (node_bytes n) old
        (put_nodes_keeps s.objects ps old there)

module _ ⦃b : Blake3⦄ ⦃c : Cbor⦄ ⦃k : Ed25519⦄ where
  -- The later storage is sound, holds the bytes of the edge, and holds what was held before.
  pub record Keeps (s : Storage) (edge : Edge) (s' : Storage) : Type 0 where
    pub sound : IsSound s'
    pub edge_held : Holds s'.objects (edge_bytes edge)
    pub old_held : (old : Bytes) → Holds s.objects old → Holds s'.objects old

  store_verified_ok :
      (s : Storage) (now : ℕ) (v : VerificationResult) (signer : Bytes) (ps : List Node) (n : Node)
      (r : Text) (t : EdgeType) (proof : Option Bytes)
      → IsSound s
      → (entry : LogEntry) × (s' : Storage) × (store_verified s now v signer ps n r t proof ≡ (
        ok (record {
          verification = v;
          edge = some (build_edge v signer ps n r t proof);
          edge_hash = some (edge_hash (build_edge v signer ps n r t proof));
          log_entry = some entry;
        }),
        s',
      ))
        × Keeps s (build_edge v signer ps n r t proof) s'
  unfolding store_verified edge_hash
  store_verified_ok s now v signer ps n r t proof inv =
      let edge = build_edge v signer ps n r t proof in
      let s0 : Storage = put_claims s ps n in
      let sound0 = put_claims-IsSound s ps n inv in
      let (entry, s', done, sound) =
        commit_edge_tx_ok s0 now edge.premises edge.conclusion (edge_bytes edge) proof sound0 in
      let keeps : (old : Bytes)
          → (old ≡ edge_bytes edge) ⊎ Holds s0.objects old
          → Holds s'.objects old =
        λ old known.
          subst (λ (x : Result (Hash × LogEntry) × Storage). Holds x.1.objects old) done
            (commit_edge_tx-Holds s0 now edge.premises edge.conclusion (edge_bytes edge) proof old
              sound0.addressed known) in
      (
        entry,
        s',
        ap (committed v edge) done,
        record {
          sound = sound;
          edge_held = keeps (edge_bytes edge) (inl refl);
          old_held = λ old there. keeps old (inr (put_claims_keeps s ps n old there));
        },
      )

module _ ⦃b : Blake3⦄ ⦃c : Cbor⦄ ⦃k : Ed25519⦄ ⦃u : Strings⦄ ⦃sy : Sympy⦄ ⦃z : Z3⦄ ⦃n : Numpy⦄
    ⦃l : Lean⦄ where
  -- An accepted proposal to a sound storage is committed, whether its edge is new or not.
  pub verify_and_commit_ok :
      (s : Storage) (now : ℕ) (signer : Bytes) (ps : List Node) (claim : Node) (r : Text)
      (t : EdgeType) (proof : Option Bytes) (timeout : ℕ) (v : VerificationResult)
      → IsSound s
      → verify ps claim r t proof timeout ≡ ok v
      → is_rejected v ≡ false
      → (entry : LogEntry) × (s' : Storage) × (verify_and_commit s now signer ps claim r t proof
            timeout
          ≡ (
            ok (record {
              verification = v;
              edge = some (build_edge v signer ps claim r t proof);
              edge_hash = some (edge_hash (build_edge v signer ps claim r t proof));
              log_entry = some entry;
            }),
            s',
          ))
        × Keeps s (build_edge v signer ps claim r t proof) s'
  unfolding verify_and_commit
  verify_and_commit_ok s now signer ps claim r t proof timeout v inv verified accepted =
      let (entry, s', done, kept) = store_verified_ok s now v signer ps claim r t proof inv in
      (entry, s', rw (verified, store_unless_rejected, accepted) done, kept)
