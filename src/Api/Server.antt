-- ===== src/Api/Server.antt =====
-- src/arxdb/api/server.py: the application behind the endpoints. A reply is a record of the values
-- that the JSON object shows.
pub mod Committed
use arxdb.Base.{
  ℕ, zero, suc, Bool, true, false, ◌&&◌, Option, none, some, List, [], ◌∷◌, nat_beq, Eq, nat_eq,
  Bytes, bytes_eq, pair_eq,
}
use arxdb.Base.Strings.{Strings, codes}
use arxdb.Base.Result.{
  Error, Result, ok, err, value_error, type_error, key_error, attribute_error, api_error, ◌>>=◌,
  ◌>>◌, require, map_result,
}
use arxdb.Storage.Hashing.{Blake3, Hash, hash_new, bytes_fromhex}
use arxdb.Storage.Serialization.{Cbor, Obj, Objs, Pairs, dict_get}
use arxdb.Storage.Keys.{Ed25519}
use arxdb.Storage.ObjectStore.{ObjectStore, read}
use arxdb.Storage.GraphIndex.{all_nodes, all_edges}
use arxdb.Storage.Facade.{Storage}
use arxdb.Verification.Schema.{
  Text, Node, Edge, EdgeType, Verdict, Kappa, k0, pass, soft_flag, hard_veto,
}
use arxdb.Verification.Schema.Values.{
  key_claim, key_domain, key_polarity, key_premises, key_conclusion, key_rule, key_signer_pubkey,
  to_kappa, to_edge_type,
}
use arxdb.Verification.Schema.Decoding.{index, iterate, to_text}
use arxdb.Verification.Schema.NodeCodec.{node_id}
use arxdb.Verification.Kappa.{rank}
use arxdb.Verification.Checkers.Backends.{Sympy, Z3, Numpy, Lean}
use arxdb.Verification.Verifier.{VerificationResult, verify}
use arxdb.Verification.Commit.{CommitResult, verify_and_commit}
use arxdb.Query.Resolve.{resolve_node, resolve_edge}
use arxdb.Query.Reachability.Reachable.{ReachabilityResult, reachable}
use arxdb.Query.Path.{PathResult, path_discovery}
use arxdb.Attestation.Roster.{Roster}
use arxdb.Attestation.History.{verify_history}
use arxdb.Attestation.Attest.{
  AttestationResult, AnchorRecord, is_ok, verify_edge_attestation, anchor,
}
use arxdb.Api.Requests.{
  or_bad_request, or_status, hex_to_hash, parse_pubkey, parse_kappa, truthy, parse_node,
  parse_nodes, parse_edge_type, field, key_min_kappa, key_edge_hash, key_root_hash, key_edge_type,
  key_proof, key_timeout_seconds, default_timeout, parse_query,
}
use arxdb.Api.Proposals.{Wire, ArxDbApp, Proposal, parse_proposal}

pub record ReproduceReport : Type 0 where
  pub edge : Edge
  pub premises : List Node
  pub conclusion : Node
  pub proof : Option Bytes
  pub re_verified : VerificationResult
  pub verdict_match : Bool
  pub kappa_match : Bool
  pub attestation : AttestationResult
  pub reproduced : Bool

abbrev pub verdict_beq : Verdict → Verdict → Bool
verdict_beq pass pass = true
verdict_beq soft_flag soft_flag = true
verdict_beq hard_veto hard_veto = true
verdict_beq _ _ = false

abbrev pub kappa_beq : Kappa → Kappa → Bool
kappa_beq j k = nat_beq (rank j) (rank k)

module _ ⦃b : Blake3⦄ ⦃c : Cbor⦄ where
  -- none: the fuel of the query would have run out.
  unfoldable pub query_reachable : ArxDbApp → Obj → Option (Result ReachabilityResult)
  unfolding parse_query node_id reachable
  query_reachable app body = elim (parse_query body) [
    | err e ↦ some (err e)
    | ok (node, min_kappa) ↦ reachable (node_id node) app.storage min_kappa [] none
  ]

  unfoldable pub query_path : ArxDbApp → Obj → Option (Result PathResult)
  unfolding parse_query node_id path_discovery
  query_path app body = elim (parse_query body) [
    | err e ↦ some (err e)
    | ok (node, min_kappa) ↦ path_discovery (node_id node) app.storage min_kappa
  ]

-- `for h in hs: x = resolve(h); if x is not None: xs.append(x)`
unfoldable pub resolved_all : {A : Type 0} → (Hash → Option A) → List Hash → List A
resolved_all look [] = []
resolved_all look (h ∷ hs) =
    let rest = resolved_all look hs in elim (look h) [ none ↦ rest | some x ↦ x ∷ rest ]

module _ ⦃c : Cbor⦄ where
  unfoldable pub query_graph : ArxDbApp → List Node × List Edge
  unfolding resolved_all resolve_node resolve_edge all_nodes all_edges
  query_graph app = (
    resolved_all (λ h. resolve_node h app.storage) (all_nodes app.storage.graph),
    resolved_all (λ h. resolve_edge h app.storage) (all_edges app.storage.graph),
  )

  unfoldable pub resolve_each : Storage → List Hash → Result (List Node)
  resolve_each s [] = ok []
  resolve_each s (p ∷ ps) = do
    n ← or_status 500 (resolve_node p s)
    ns ← resolve_each s ps
    ok (n ∷ ns)

unfoldable pub stored_proof : ObjectStore → Option Hash → Option Bytes
unfolding read
stored_proof s none = none
stored_proof s (some h) = read s h

module _ ⦃b : Blake3⦄ ⦃c : Cbor⦄ ⦃k : Ed25519⦄ ⦃u : Strings⦄ ⦃sy : Sympy⦄ ⦃z : Z3⦄ ⦃n : Numpy⦄
    ⦃l : Lean⦄ where
  -- `reproduce` from the hash on.
  unfoldable pub reproduce_edge : ArxDbApp → Hash → Result ReproduceReport
  reproduce_edge app h = do
    edge ← or_status 404 (resolve_edge h app.storage)
    premises ← resolve_each app.storage edge.premises
    conclusion ← or_status 500 (resolve_node edge.conclusion app.storage)
    re_verify ←
        verify premises conclusion edge.rule edge.type
          (stored_proof app.storage.objects edge.proof_hash) default_timeout
    attestation ← verify_edge_attestation edge app.storage app.roster
    ok (record {
      edge = edge;
      premises = premises;
      conclusion = conclusion;
      proof = stored_proof app.storage.objects edge.proof_hash;
      re_verified = re_verify;
      verdict_match = verdict_beq re_verify.verdict edge.verdict;
      kappa_match = kappa_beq re_verify.kappa edge.kappa;
      attestation = attestation;
      reproduced =
          verdict_beq re_verify.verdict edge.verdict
          && (kappa_beq re_verify.kappa edge.kappa && is_ok attestation);
    })

  unfoldable pub reproduce : ArxDbApp → Obj → Result ReproduceReport
  unfolding index hex_to_hash reproduce_edge
  reproduce app body = do x ← index body key_edge_hash; h ← hex_to_hash x; reproduce_edge app h

  unfoldable pub attest : ArxDbApp → Obj → Result (Hash × AttestationResult)
  unfolding index hex_to_hash resolve_edge verify_edge_attestation
  attest app body = do
    x ← index body key_edge_hash
    h ← hex_to_hash x
    edge ← or_status 404 (resolve_edge h app.storage)
    a ← verify_edge_attestation edge app.storage app.roster
    ok (h, a)

  unfoldable pub anchor_record : ArxDbApp → ℕ → AnchorRecord
  unfolding anchor
  anchor_record app now = anchor app.storage app.roster now

  unfoldable pub verify_history_endpoint : ArxDbApp → Obj → Result (Hash × Bool)
  unfolding index hex_to_hash verify_history
  verify_history_endpoint app body = do
    x ← index body key_root_hash
    root ← hex_to_hash x
    valid ← verify_history app.storage.log root
    ok (root, valid)

module _ ⦃b : Blake3⦄ ⦃c : Cbor⦄ ⦃k : Ed25519⦄ ⦃u : Strings⦄ ⦃sy : Sympy⦄ ⦃z : Z3⦄ ⦃n : Numpy⦄
    ⦃l : Lean⦄ where
  unfoldable pub commit_proposal : ArxDbApp → ℕ → Result Proposal → Result CommitResult × ArxDbApp
  unfolding verify_and_commit
  commit_proposal app now (err e) = (err e, app)
  commit_proposal app now (ok p) =
      let (result, s) =
        verify_and_commit app.storage now p.signer p.premises p.conclusion p.rule p.edge_type
          p.proof p.timeout in
      (result, record app { storage = s })

  unfoldable pub commit : ⦃w : Wire⦄ → ArxDbApp → ℕ → Obj → Result CommitResult × ArxDbApp
  unfolding parse_proposal commit_proposal
  commit app now body = commit_proposal app now (parse_proposal app body)

-- The status of the response: 200, that of an `ApiError`, 400 for a `KeyError`, and 500 otherwise.
abbrev pub status_of {ℓ} : {A : Type ℓ} → Result A → ℕ
status_of (ok a) = 200
status_of (err (api_error status)) = status
status_of (err key_error) = 400
status_of (err e) = 500
