-- ===== src/Seed/Ingest.antt =====
-- scripts/seed_phaser.py: the import of the corpus through `verify_and_commit`, the attestation of
-- what was imported, and the files of the keys and the anchor. The clock of a commit is a function
-- of the number of edges that are left.
pub mod Again
pub mod Settled
use arxdb.Base.{
  ℕ, zero, suc, Bool, false, Option, none, some, List, [], ◌∷◌, nat_beq, if◌then◌else◌, Eq, nat_eq,
  Bytes, bytes_eq, pair_eq, length,
}
use arxdb.Base.Strings.{Strings, codes}
use arxdb.Base.Dict.{Dict, get, set}
use arxdb.Base.Result.{Result, ok, err, key_error, ◌>>=◌, map_result}
use arxdb.Storage.Hashing.{Blake3, Hash}
use arxdb.Storage.Serialization.{Cbor}
use arxdb.Storage.Keys.{Ed25519}
use arxdb.Storage.Facade.{Storage}
use arxdb.Verification.Schema.{Text, Node, Edge, EdgeType, Kappa}
use arxdb.Verification.Schema.EdgeCodec.{edge_hash}
use arxdb.Verification.Kappa.{rank}
use arxdb.Verification.Checkers.Backends.{Sympy, Z3, Numpy, Lean}
use arxdb.Verification.Verifier.{VerificationResult, is_rejected, verify}
use arxdb.Verification.Commit.{CommitResult, build_edge, verify_and_commit}
use arxdb.Query.Resolve.{resolve_edge}
use arxdb.Attestation.Roster.{Roster}
use arxdb.Attestation.Attest.{is_ok, verify_edge_attestation}
use arxdb.Seed.Corpus.{CorpusNode, CorpusEdge}
use arxdb.Seed.Corpus.Nodes.{corpus_nodes}
use arxdb.Seed.Corpus.Edges.{corpus_edges}

-- MATCH, MISMATCH, REJECTED and SKIP.
pub data Status : Type 0 where
  matching mismatching rejected skipped : Status

pub record SeedRow : Type 0 where
  pub key : Text
  pub edge_type : EdgeType
  pub rule : Text
  pub expected_kappa : Kappa
  pub actual_kappa : Option Kappa
  pub status : Status

abbrev pub row : CorpusEdge → Option Kappa → Status → SeedRow
row e actual status = record {
  key = e.key;
  edge_type = e.edge_type;
  rule = e.rule;
  expected_kappa = e.expected_kappa;
  actual_kappa = actual;
  status = status;
}

abbrev pub NodeMap : Type 0
NodeMap = Dict Text Node

-- The dict comprehension over the nodes: a later key wins.
unfoldable pub add_entries : List CorpusNode → NodeMap → NodeMap
unfolding set
add_entries [] m = m
add_entries (n ∷ ns) m =
    add_entries ns
      (set m n.key (record { claim = n.claim; domain = n.domain; polarity = n.polarity }))

unfoldable pub node_map : List CorpusNode → NodeMap
unfolding add_entries
node_map ns = add_entries ns []

-- `node_map[k]`
unfoldable pub look_up : NodeMap → Text → Result Node
unfolding get
look_up m k = elim (get m k) [ none ↦ err key_error | some n ↦ ok n ]

-- The premises and the conclusion of a corpus edge.
unfoldable pub claims_of : NodeMap → CorpusEdge → Result (List Node × Node)
unfolding look_up map_result
claims_of m e = do
  premises ← map_result (look_up m) e.premise_keys
  conclusion ← look_up m e.conclusion_key
  ok (premises, conclusion)

-- `timeout_seconds = 5.0`, the default of `verify` and of `verify_and_commit`.
abbrev pub verify_timeout : ℕ
verify_timeout = 5000

-- `cr.verification.kappa if not cr.rejected else None`
abbrev pub kappa_of : VerificationResult → Option Kappa
kappa_of v = if is_rejected v then none else some v.kappa

-- `"MATCH" if actual == e.expected_kappa else "MISMATCH"`
abbrev pub compare_kappa : Option Kappa → Kappa → Status
compare_kappa none expected = mismatching
compare_kappa (some actual) expected =
    if nat_beq (rank actual) (rank expected) then matching else mismatching

unfoldable pub report : CorpusEdge → Result CommitResult × Storage → Result SeedRow × Storage
report e (err x, s) = (err x, s)
report e (ok cr, s) =
    let actual = kappa_of cr.verification in
    (ok (row e actual (compare_kappa actual e.expected_kappa)), s)

-- A row of the report, and then those of the edges that are left.
unfoldable pub then_rows :
    Result SeedRow × Storage
    → (Storage → Result (List SeedRow) × Storage)
    → Result (List SeedRow) × Storage
then_rows (err x, s) rest = (err x, s)
then_rows (ok r, s) rest = let (rows, later) = rest s in (do rs ← rows; ok (r ∷ rs), later)

module _ ⦃b : Blake3⦄ ⦃c : Cbor⦄ ⦃u : Strings⦄ ⦃sy : Sympy⦄ ⦃z : Z3⦄ ⦃n : Numpy⦄ ⦃l : Lean⦄ where
  -- `_build_edge`
  unfoldable pub build_corpus_edge : NodeMap → CorpusEdge → Bytes → Result (Option Edge)
  unfolding claims_of verify build_edge
  build_corpus_edge m e signer = do
    q ← claims_of m e
    v ← verify q.0 q.1 e.rule e.edge_type e.proof_bytes verify_timeout
    ok (
        if is_rejected v
        then none
        else some (build_edge v signer q.0 q.1 e.rule e.edge_type e.proof_bytes))

module _ ⦃b : Blake3⦄ ⦃c : Cbor⦄ ⦃k : Ed25519⦄ ⦃u : Strings⦄ ⦃sy : Sympy⦄ ⦃z : Z3⦄ ⦃n : Numpy⦄
    ⦃l : Lean⦄ where
  unfoldable pub commit_claims :
      Storage → ℕ → Bytes → CorpusEdge → Result (List Node × Node) → Result SeedRow × Storage
  unfolding report verify_and_commit
  commit_claims s now signer e (err x) = (err x, s)
  commit_claims s now signer e (ok (premises, conclusion)) = report e (
      verify_and_commit s now signer premises conclusion e.rule e.edge_type e.proof_bytes
        verify_timeout)

  -- The body of the loop of `seed`, from the record of the edge on.
  unfoldable pub seed_built :
      NodeMap → Bytes → Storage → ℕ → CorpusEdge → Result (Option Edge) → Result SeedRow × Storage
  unfolding resolve_edge commit_claims claims_of
  seed_built m signer s now e (err x) = (err x, s)
  seed_built m signer s now e (ok none) = (ok (row e none rejected), s)
  seed_built m signer s now e (ok (some edge)) = elim (resolve_edge (edge_hash edge) s) [
    | some _ ↦ (ok (row e (some edge.kappa) skipped), s)
    | none ↦ commit_claims s now signer e (claims_of m e)
  ]

  -- The loop of `seed`.
  unfoldable pub seed_corpus :
      NodeMap → Bytes → (ℕ → ℕ) → Storage → List CorpusEdge → Result (List SeedRow) × Storage
  unfolding seed_built build_corpus_edge then_rows
  seed_corpus m signer clock s [] = (ok [], s)
  seed_corpus m signer clock s (e ∷ es) =
      then_rows (seed_built m signer s (clock (length es)) e (build_corpus_edge m e signer))
        (λ later. seed_corpus m signer clock later es)

  unfoldable pub seed : Storage → (ℕ → ℕ) → Bytes → Result (List SeedRow) × Storage
  unfolding node_map seed_corpus
  seed s clock signer = seed_corpus (node_map corpus_nodes) signer clock s corpus_edges

  -- The loop of `verify_seed_attestation`.
  unfoldable pub attest_built :
      Storage → Roster → CorpusEdge → Option Edge → Result (Text × Bool × Option Text)
  unfolding verify_edge_attestation
  attest_built s roster e none = ok (e.key, false, none)
  attest_built s roster e (some edge) = do
    res ← verify_edge_attestation edge s roster
    ok (e.key, is_ok res, res.signer_agent_id)

  unfoldable pub attest_edges :
      NodeMap
      → Bytes
      → Storage
      → Roster
      → List CorpusEdge
      → Result (List (Text × Bool × Option Text))
  unfolding build_corpus_edge attest_built
  attest_edges m signer s roster [] = ok []
  attest_edges m signer s roster (e ∷ es) = do
    built ← build_corpus_edge m e signer
    result ← attest_built s roster e built
    results ← attest_edges m signer s roster es
    ok (result ∷ results)

  unfoldable pub verify_seed_attestation :
      Storage → Roster → Bytes → Result (List (Text × Bool × Option Text))
  unfolding node_map attest_edges
  verify_seed_attestation s roster signer =
      attest_edges (node_map corpus_nodes) signer s roster corpus_edges
