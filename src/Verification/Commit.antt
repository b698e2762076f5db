-- ===== src/Verification/Commit.antt =====
-- src/arxdb/verification/commit.py: an edge is verified and then rejected or stored.
pub mod Stored
pub mod Accepted
pub mod Kept
use arxdb.Base.{
  ℕ, zero, suc, Option, none, some, List, [], ◌∷◌, map, if◌then◌else◌, Eq, nat_eq, Bytes, bytes_eq,
  pair_eq,
}
use arxdb.Base.Strings.{Strings}
use arxdb.Base.Result.{Error, Result, ok, err}
use arxdb.Storage.Hashing.{Blake3, Hash, hash_bytes}
use arxdb.Storage.Serialization.{Cbor}
use arxdb.Storage.Keys.{Ed25519}
use arxdb.Storage.ObjectStore.{ObjectStore, put}
use arxdb.Storage.AppendLog.{LogEntry}
use arxdb.Storage.Facade.{Storage, commit_edge_tx}
use arxdb.Verification.Schema.{Text, Node, Edge, EdgeType}
use arxdb.Verification.Schema.NodeCodec.{node_bytes, node_id}
use arxdb.Verification.Schema.EdgeCodec.{edge_bytes}
use arxdb.Verification.Checkers.Backends.{Sympy, Z3, Numpy, Lean}
use arxdb.Verification.Verifier.{VerificationResult, is_rejected, verify}

pub record CommitResult : Type 0 where
  pub verification : VerificationResult
  pub edge : Option Edge
  pub edge_hash : Option Hash
  pub log_entry : Option LogEntry

module _ ⦃b : Blake3⦄ ⦃c : Cbor⦄ where
  unfoldable pub proof_hash_of : Option Bytes → Option Hash
  proof_hash_of none = none
  proof_hash_of (some proof) = some (hash_bytes proof)

  unfoldable pub build_edge :
      VerificationResult → Bytes → List Node → Node → Text → EdgeType → Option Bytes → Edge
  unfolding proof_hash_of node_id
  build_edge result signer premises conclusion rule edge_type proof_bytes = record {
    type = edge_type;
    premises = map node_id premises;
    conclusion = node_id conclusion;
    rule = rule;
    proof_hash = proof_hash_of proof_bytes;
    verdict = result.verdict;
    kappa = result.kappa;
    signer_pubkey = signer;
  }

  -- `for p in premises: storage.objects.put(p.node_bytes())`
  unfoldable pub put_nodes : ObjectStore → List Node → ObjectStore
  unfolding put node_bytes
  put_nodes s [] = s
  put_nodes s (p ∷ ps) = put_nodes (put s (node_bytes p)).1 ps

  unfoldable pub put_claims : Storage → List Node → Node → Storage
  unfolding put_nodes put node_bytes
  put_claims s premises conclusion = record s {
    objects = (put (put_nodes s.objects premises) (node_bytes conclusion)).1;
  }

abbrev pub committed :
    VerificationResult → Edge → Result (Hash × LogEntry) × Storage → Result CommitResult × Storage
committed result edge (err e, s) = (err e, s)
committed result edge (ok (edge_hash, log_entry), s) = (
  ok (record {
    verification = result;
    edge = some edge;
    edge_hash = some edge_hash;
    log_entry = some log_entry;
  }),
  s,
)

module _ ⦃b : Blake3⦄ ⦃c : Cbor⦄ ⦃k : Ed25519⦄ where
  unfoldable pub store_verified :
      Storage
      → ℕ
      → VerificationResult
      → Bytes
      → List Node
      → Node
      → Text
      → EdgeType
      → Option Bytes
      → Result CommitResult × Storage
  unfolding build_edge put_claims commit_edge_tx edge_bytes
  store_verified s now result signer premises conclusion rule edge_type proof_bytes =
      let edge = build_edge result signer premises conclusion rule edge_type proof_bytes in
      committed result edge (
        commit_edge_tx (put_claims s premises conclusion) now edge.premises edge.conclusion
          (edge_bytes edge) proof_bytes)

  unfoldable pub store_unless_rejected :
      Storage
      → ℕ
      → Result VerificationResult
      → Bytes
      → List Node
      → Node
      → Text
      → EdgeType
      → Option Bytes
      → Result CommitResult × Storage
  unfolding store_verified
  store_unless_rejected s now (err e) signer premises conclusion rule edge_type proof_bytes =
      (err e, s)
  store_unless_rejected s now (ok result) signer premises conclusion rule edge_type proof_bytes =
      if is_rejected result
      then (
        ok (record { verification = result; edge = none; edge_hash = none; log_entry = none }),
        s,
      )
      else store_verified s now result signer premises conclusion rule edge_type proof_bytes

module _ ⦃b : Blake3⦄ ⦃c : Cbor⦄ ⦃k : Ed25519⦄ ⦃u : Strings⦄ ⦃sy : Sympy⦄ ⦃z : Z3⦄ ⦃n : Numpy⦄
    ⦃l : Lean⦄ where
  unfoldable pub verify_and_commit :
      Storage
      → ℕ
      → Bytes
      → List Node
      → Node
      → Text
      → EdgeType
      → Option Bytes
      → ℕ
      → Result CommitResult × Storage
  unfolding verify store_unless_rejected
  verify_and_commit s now signer premises conclusion rule edge_type proof_bytes timeout =
      store_unless_rejected s now (verify premises conclusion rule edge_type proof_bytes timeout)
        signer premises conclusion rule edge_type proof_bytes
