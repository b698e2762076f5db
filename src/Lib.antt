-- ===== src/Lib.antt =====
-- ArxDB: the Python package src/arxdb, a content-addressed store of claims (nodes) and inference
-- steps (edges) with a signed log, and the queries over it.
--
-- The program has a storage layer (blobs by hash, an index of the edges, a signed append-only log
-- with a Merkle root, one facade that commits an edge to all three), a verification layer (the
-- schema of nodes and edges, the strength scale κ0 < κ1 < κ2 < κ3 < κ∞), a query layer that resolves
-- edges from the storage and computes what is derivable, and an attestation layer that checks edges
-- and the log against a roster and a trusted root. The verification layer challenges a proposed edge,
-- has it checked, and commits it to the storage; the HTTP API calls all of them. The query layer only
-- reads the storage; the attestation layer also appends the roster as the first entry of the log. A
-- script imports a corpus of nodes and edges through the verification layer.
--
-- Files and code:
--   Base            tests, lists, dicts, sums, strings, loops on fuel and exceptions as values (a
--                   `Result` with the class of the exception).
--   Storage/Hashing         src/arxdb/storage/hashing.py: `Hash`, `hash_bytes`, `hash_hex`, `from_hex`,
--                           `is_valid_hash`.
--   Storage/Merkle          src/arxdb/storage/merkle.py: `root_hash`, `inclusion_proof`,
--                           `verify_inclusion`; Complete, Sound and Binding hold the proofs.
--   Storage/Serialization   src/arxdb/storage/serialization.py: `_canonicalize`, `canonical_encode`,
--                           `canonical_decode` on a data type of Python objects.
--   Storage/Keys            src/arxdb/storage/keys.py: `sign`, `verify`.
--   Storage/ObjectStore     src/arxdb/storage/object_store.py; `get` is `read`, `has` is `exists`.
--   Storage/GraphIndex      src/arxdb/storage/graph_index.py; Edges and Listing the proofs.
--   Storage/AppendLog       src/arxdb/storage/append_log.py; `__len__` is `size`; Chain the proofs.
--   Storage/Facade          src/arxdb/storage/storage.py: `commit_edge_tx`; Commit and Held the proofs.
--   Verification/Kappa      src/arxdb/verification/kappa.py.
--   Verification/Schema     src/arxdb/verification/schema.py: the records and enumerations; NodeCodec
--                           and EdgeCodec are `to_canonical`, the bytes, the hash and `from_bytes`,
--                           Values the strings of the format, Decoding the reading of fields,
--                           RoundTrip the proofs.
--   Verification/Elenchus   src/arxdb/verification/elenchus.py: the predicates and `evaluate`; Texts
--                           its words and patterns, Sets, Vetoes, Grounds and Verdicts the proofs.
--   Verification/Checkers   src/arxdb/verification/checkers: base.py, and Roster, Cas, Z3, Lean and
--                           Spectral for the checkers; Backends the libraries behind them, Passes
--                           what a checker that passes has found.
--   Verification/Verifier   src/arxdb/verification/verifier.py; Evidence, Outcome and Strength the
--                           proofs.
--   Verification/Commit     src/arxdb/verification/commit.py; Stored and Accepted the proofs.
--   Query/Resolve           src/arxdb/query/resolve.py.
--   Query/Reachability      src/arxdb/query/reachability.py: `_seed` and `_fixpoint`; Reachable is
--                           `_derivation_edges`, `_collect_proof_tree` and `reachable`. Spec says
--                           what a proof tree is; Correct compares it with the fixpoint, Answer
--                           with the query, Derivations says which edges derive, and ProofTree
--                           that the collection ends.
--   Query/Path              src/arxdb/query/path.py; Candidates, Ends, Frontier, Gaps and Discovery
--                           the proofs.
--   Query/Refutation        src/arxdb/query/refutation.py; Attackers says which edges attack which,
--                           Contention and Grouping how the graph comes to that; Attacks, Grounded,
--                           Least and Active are the proofs on the labels.
--   Attestation/History     src/arxdb/attestation/attest.py: `verify_history`; Evidence says what
--                           it accepts, Tampering what changes of the log do.
--   Attestation/Attest      src/arxdb/attestation/attest.py: `verify_edge_attestation`, `anchor` and
--                           `commit_roster`; Anchor the encoding of the anchor record,
--                           Provenance the proofs.
--   Attestation/Roster      src/arxdb/attestation/roster.py; RoundTrip the proofs.
--   Api/Requests            src/arxdb/api/server.py: the parsing of requests.
--   Api/Proposals           src/arxdb/api/server.py: the application, and how `commit` reads its
--                           body.
--   Api/Server              src/arxdb/api/server.py: `ArxDBApp`; Committed the proofs.
--   Api/Replies             src/arxdb/api/server.py: the JSON objects of the replies; RoundTrip the
--                           proofs.
--   Api/Routes              src/arxdb/api/server.py: the handler; Texts the bodies that are covered,
--                           Answers and Reproduced the proofs.
--   Seed/Corpus             src/arxdb/seed/corpus.py: the nodes and edges of the corpus.
--   Seed/Ingest             scripts/seed_phaser.py: `seed` and `verify_seed_attestation`; Settled and
--                           Again the proofs for any corpus. Known and Twice are those for this one.
--   Examples                instances of the third-party packages that compute, and the theorems at
--                           concrete inputs.
--
-- State: a SQLite table is a list of rows or a dict, `INSERT OR IGNORE` tests the primary key and
-- `ORDER BY` sorts; the files of the object store are a dict by path. A transaction is the pair of
-- the new index and the new log, and a rollback keeps the old ones. Operations take the state and
-- return the new one.
--
-- Third-party code is a parameter: the digest of blake3 (`Blake3`), the codec of cbor2 (`Cbor`) and
-- the signatures of cryptography (`Ed25519`) are records of their functions and of the documented
-- laws the code relies on; the Unicode tables and the regular expressions (`Strings`), the libraries
-- behind the checkers (`Sympy`, `Z3`, `Numpy`, `Lean`) and base64 and JSON (`Wire`, `Http`) are
-- records of functions without laws. No law says that hashes do not collide: where that matters the
-- conclusion leaves open that two given messages do, one of them hashed for the one side (the tree,
-- the log, the edge) and one for the other, or standing in the store (`Collision`, `Clash`).
--
-- Loops: the loop of a Merkle tree is recursion on the length of the level. The loops of `_fixpoint`
-- run on fuel. A round of the first that changes something raises one of at most as many strengths
-- as there are edges, five steps each, and a round of the second lowers a depth, which is never
-- above the number of edges; `kappa_fuel` and `depth_fuel` are one more than these sums, and the
-- loops are proved to end. Each turn of `_collect_proof_tree` pops a node, and an edge pushes its
-- premises once, so `tree_fuel` is enough. A round of the labelling loop that changes something makes
-- one more edge IN, so a round for each edge and one more are enough. A turn of the loop in
-- `path_discovery` pops a node, and an edge into a node pushes its premises once, when the node is
-- visited; `path_fuel` counts them.
--
-- Checkers: a call of a library has a cost in milliseconds and an outcome (`Call`), code under the
-- interval timer threads what is left of it (`Run`), and a call that outlasts it raises. What a call
-- costs and returns is a parameter.
--
-- Not modelled: I/O and its errors, concurrent writers, the opening and closing of the database,
-- key generation, the transport, the Go backend and its client (src/arxdb/storage/grpc_client.py,
-- factory.py), generated code, the files and the printing of scripts/seed_phaser.py, the other
-- scripts; in src/arxdb/api/server.py the server of the standard library and the texts of errors;
-- the details and the texts of a checker's result. A rule and a domain that are no strings, which
-- the API keeps without a check, are a `TypeError` here, and the theorem on the handler leaves
-- them out. A hash read back from the database is not checked for its length again.
mod Base
pub mod Seed
pub mod Storage
pub mod Verification
pub mod Query
pub mod Attestation
pub mod Api
mod Examples
