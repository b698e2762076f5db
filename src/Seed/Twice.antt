-- ===== src/Seed/Twice.antt =====
-- `seed` of scripts/seed_phaser.py on the corpus of src/arxdb/seed/corpus.py, and a second run of it.
use arxdb.Base.{ℕ, ◌≡◌, ◌⊎◌, List, map, Memᴰ, nat_eq, Bytes, bytes_eq, pair_eq}
use arxdb.Base.Strings.{Strings}
use arxdb.Base.Result.{ok}
use arxdb.Storage.Hashing.{Blake3}
use arxdb.Storage.ObjectStore.Held.{Clash}
use arxdb.Storage.Serialization.{Cbor}
use arxdb.Storage.Keys.{Ed25519}
use arxdb.Storage.Facade.{Storage}
use arxdb.Storage.Facade.Commit.{IsSound}
use arxdb.Verification.Schema.{Node}
use arxdb.Verification.Checkers.Backends.{Sympy, Z3, Numpy, Lean}
use arxdb.Verification.Verifier.{VerificationResult, verify}
use arxdb.Seed.Corpus.{CorpusEdge}
use arxdb.Seed.Corpus.Nodes.{corpus_nodes}
use arxdb.Seed.Corpus.Edges.{corpus_edges}
use arxdb.Seed.Ingest.{SeedRow, rejected, skipped, node_map, claims_of, verify_timeout, seed}
use arxdb.Seed.Ingest.Settled.{built-of}
use arxdb.Seed.Ingest.Again.{Builds, CorpusMessage, seed_corpus_idempotent}
use arxdb.Seed.Known.{corpus_known}

module _ ⦃b : Blake3⦄ ⦃c : Cbor⦄ ⦃k : Ed25519⦄ ⦃u : Strings⦄ ⦃sy : Sympy⦄ ⦃z : Z3⦄ ⦃n : Numpy⦄
    ⦃l : Lean⦄ where
  -- `verify` returns for the edge.
  abbrev pub Verifies : CorpusEdge → Type 0
  Verifies e =
      (ps : List Node) (claim : Node)
      → claims_of (node_map corpus_nodes) e ≡ ok (ps, claim)
      → (v : VerificationResult) × (verify ps claim e.rule e.edge_type e.proof_bytes verify_timeout
          ≡ ok v)

  corpus-Builds :
      (signer : Bytes)
      → ((e : CorpusEdge) → Memᴰ e corpus_edges → Verifies e)
      → Builds (node_map corpus_nodes) signer corpus_edges
  corpus-Builds signer verifies e m =
      let ((ps, claim), known) = corpus_known e m in
      let (v, verified) = verifies e m ps claim known in
      (_, built-of (node_map corpus_nodes) signer e ps claim v known verified)

  -- Where `verify` returns for each edge of the corpus, `seed` on a sound storage returns a row for
  -- each edge in order and leaves the storage sound; a second run then changes nothing, and each of
  -- its rows says REJECTED or SKIP, or a different blob in the store has the hash of an edge of the
  -- corpus.
  pub seed_idempotent :
      (clock later_clock : ℕ → ℕ) (s : Storage) (signer : Bytes)
      → IsSound s
      → ((e : CorpusEdge) → Memᴰ e corpus_edges → Verifies e)
      → (rows : List SeedRow) × (s' : Storage) × (seed s clock signer ≡ (ok rows, s'))
        × (map (λ (r : SeedRow). r.key) rows ≡ map (λ (e : CorpusEdge). e.key) corpus_edges)
        × IsSound s'
        × (((again : List SeedRow) × (seed s' later_clock signer ≡ (ok again, s'))
              × ((r : SeedRow) → Memᴰ r again → (r.status ≡ rejected) ⊎ (r.status ≡ skipped)))
            ⊎ Clash s'.objects (CorpusMessage (node_map corpus_nodes) signer corpus_edges))
  unfolding seed
  seed_idempotent clock later_clock s signer inv verifies =
      seed_corpus_idempotent (node_map corpus_nodes) signer clock later_clock s corpus_edges inv
        (corpus-Builds signer verifies)
