-- ===== src/Api/Replies.antt =====
-- src/arxdb/api/server.py: the JSON objects of the replies, as the Python objects that `json.dumps`
-- is given.
pub mod RoundTrip
use arxdb.Base.{
  zero, suc, Bool, Option, none, some, List, [], ◌∷◌, Eq, nat_eq, Bytes, bytes_eq, pair_eq,
}
use arxdb.Base.Strings.{codes}
use arxdb.Storage.Hashing.{Blake3, Hash, hex}
use arxdb.Storage.Serialization.{Cbor, Obj, Objs, Pairs}
use arxdb.Verification.Schema.{Text, Node, Edge, Kappa}
use arxdb.Verification.Schema.Values.{
  key_claim, key_domain, key_polarity, key_type, key_premises, key_conclusion, key_rule,
  key_proof_hash, key_verdict, key_kappa, key_signer_pubkey, edge_type_value, verdict_value,
  kappa_value,
}
use arxdb.Verification.Schema.NodeCodec.{node_id}
use arxdb.Verification.Schema.EdgeCodec.{edge_hash}
use arxdb.Verification.Verifier.{VerificationResult, is_rejected}
use arxdb.Verification.Commit.{CommitResult}
use arxdb.Query.Reachability.Reachable.{ReachabilityResult}
use arxdb.Query.Path.{MissingEdge, PathResult}
use arxdb.Attestation.Attest.{AttestationResult, AnchorRecord, is_ok}
use arxdb.Api.Requests.{key_min_kappa, key_edge_hash, key_root_hash, key_proof}
use arxdb.Api.Server.{ReproduceReport}

-- A dict display and a list display.
abbrev pub dict_of : List (Text × Obj) → Pairs
dict_of [] = Pairs.end
dict_of ((k, v) ∷ rest) = Pairs.pair k v (dict_of rest)

abbrev pub list_of {ℓ} : {A : Type ℓ} → (A → Obj) → List A → Objs
list_of f [] = Objs.nil
list_of f (x ∷ xs) = Objs.cons (f x) (list_of f xs)

-- `f(x) if x is not None else None`
abbrev pub or_null {ℓ} : {A : Type ℓ} → (A → Obj) → Option A → Obj
or_null f none = Obj.null
or_null f (some x) = f x

-- `_h(h)`
unfoldable pub hash_to_text : Hash → Obj
unfolding hex
hash_to_text h = Obj.text (hex h)

abbrev pub kappa_to_text : Kappa → Obj
kappa_to_text k = Obj.text (kappa_value k)

module _ ⦃b : Blake3⦄ ⦃c : Cbor⦄ where
  unfoldable pub node_to_dict : Node → Obj
  unfolding hash_to_text
  node_to_dict n = Obj.dict (
      dict_of (
        (key_claim, Obj.text n.claim)
        ∷ (key_domain, Obj.text n.domain)
        ∷ (key_polarity, Obj.bool n.polarity)
        ∷ (codes "node_id", hash_to_text (node_id n))
        ∷ []))

  unfoldable pub edge_to_dict : Edge → Obj
  unfolding hash_to_text
  edge_to_dict e = Obj.dict (
      dict_of (
        (key_type, Obj.text (edge_type_value e.type))
        ∷ (key_premises, Obj.list (list_of hash_to_text e.premises))
        ∷ (key_conclusion, hash_to_text e.conclusion)
        ∷ (key_rule, Obj.text e.rule)
        ∷ (key_proof_hash, or_null hash_to_text e.proof_hash)
        ∷ (key_verdict, Obj.text (verdict_value e.verdict))
        ∷ (key_kappa, kappa_to_text e.kappa)
        ∷ (key_signer_pubkey, Obj.text (hex e.signer_pubkey))
        ∷ (key_edge_hash, hash_to_text (edge_hash e))
        ∷ []))

unfoldable pub verification_to_dict : VerificationResult → Obj
verification_to_dict v = Obj.dict (
    dict_of (
      (key_verdict, Obj.text (verdict_value v.verdict))
      ∷ (key_kappa, kappa_to_text v.kappa)
      ∷ (codes "rejected", Obj.bool (is_rejected v))
      ∷ []))

unfoldable pub missing_to_dict : MissingEdge → Obj
unfolding hash_to_text
missing_to_dict m = Obj.dict (
    dict_of (
      (key_conclusion, hash_to_text m.conclusion)
      ∷ (key_premises, Obj.list (list_of hash_to_text m.premises))
      ∷ (codes "blocking_nodes", Obj.list (list_of hash_to_text m.blocking_nodes))
      ∷ (key_rule, Obj.text m.rule)
      ∷ []))

module _ ⦃b : Blake3⦄ ⦃c : Cbor⦄ where
  unfoldable pub reachable_reply : Node → Kappa → ReachabilityResult → Obj
  unfolding node_to_dict hash_to_text
  reachable_reply node min_kappa r = Obj.dict (
      dict_of (
        (codes "target", node_to_dict node)
        ∷ (key_min_kappa, kappa_to_text min_kappa)
        ∷ (codes "established", Obj.bool r.established)
        ∷ (key_kappa, or_null kappa_to_text r.kappa)
        ∷ (codes "depth", or_null Obj.int r.depth)
        ∷ (codes "proof_tree_edges", Obj.list (list_of hash_to_text r.proof_tree_edges))
        ∷ []))

  unfoldable pub path_reply : Node → Kappa → PathResult → Obj
  unfolding node_to_dict missing_to_dict
  path_reply node min_kappa r = Obj.dict (
      dict_of (
        (codes "target", node_to_dict node)
        ∷ (key_min_kappa, kappa_to_text min_kappa)
        ∷ (codes "reachable", Obj.bool r.established)
        ∷ (codes "depth", or_null Obj.int r.depth)
        ∷ (key_kappa, or_null kappa_to_text r.kappa)
        ∷ (codes "missing_edges", Obj.list (list_of missing_to_dict r.missing_edges))
        ∷ []))

  unfoldable pub graph_reply : List Node × List Edge → Obj
  unfolding node_to_dict edge_to_dict
  graph_reply (nodes, edges) = Obj.dict (
      dict_of (
        (codes "nodes", Obj.list (list_of node_to_dict nodes))
        ∷ (codes "edges", Obj.list (list_of edge_to_dict edges))
        ∷ []))

abbrev pub attestation_items : AttestationResult → List (Text × Obj)
attestation_items a =
    (codes "signer_agent_id", or_null Obj.text a.signer_agent_id)
    ∷ (codes "signature_valid", Obj.bool a.signature_valid)
    ∷ (codes "proof_bound", Obj.bool a.proof_bound)
    ∷ (codes "proof_intact", Obj.bool a.proof_intact)
    ∷ (codes "ok", Obj.bool (is_ok a))
    ∷ []

unfoldable pub attest_reply : Hash × AttestationResult → Obj
unfolding hash_to_text
attest_reply (edge_hash, a) =
    Obj.dict (dict_of ((key_edge_hash, hash_to_text edge_hash) ∷ attestation_items a))

unfoldable pub anchor_reply : AnchorRecord → Obj
unfolding hash_to_text
anchor_reply a = Obj.dict (
    dict_of (
      (key_root_hash, hash_to_text a.root_hash)
      ∷ (codes "entry_count", Obj.int a.entry_count)
      ∷ (codes "timestamp_ns", Obj.int a.timestamp_ns)
      ∷ (codes "roster_hash", hash_to_text a.roster_hash)
      ∷ []))

unfoldable pub history_reply : Hash × Bool → Obj
unfolding hash_to_text
history_reply (root, valid) =
    Obj.dict (dict_of ((key_root_hash, hash_to_text root) ∷ (codes "valid", Obj.bool valid) ∷ []))

-- `{"status": "ok", "version": __version__}`
abbrev pub health_reply : Obj
health_reply = Obj.dict (
    dict_of
      ((codes "status", Obj.text (codes "ok")) ∷ (codes "version", Obj.text (codes "0.1.0")) ∷ []))

module _ ⦃b : Blake3⦄ ⦃c : Cbor⦄ where
  -- `b64encode` is `base64.b64encode(proof).decode()`.
  unfoldable pub reproduce_reply : (b64encode : Bytes → Text) → ReproduceReport → Obj
  unfolding node_to_dict edge_to_dict verification_to_dict
  reproduce_reply b64encode r = Obj.dict (
      dict_of (
        (codes "edge", edge_to_dict r.edge)
        ∷ (key_premises, Obj.list (list_of node_to_dict r.premises))
        ∷ (key_conclusion, node_to_dict r.conclusion)
        ∷ (key_rule, Obj.text r.edge.rule)
        ∷ (key_proof, or_null (λ proof. Obj.text (b64encode proof)) r.proof)
        ∷ (
          codes "embedded",
          Obj.dict (
              dict_of (
                (key_verdict, Obj.text (verdict_value r.edge.verdict))
                ∷ (key_kappa, kappa_to_text r.edge.kappa)
                ∷ [])),
        )
        ∷ (codes "re_verified", verification_to_dict r.re_verified)
        ∷ (codes "verdict_match", Obj.bool r.verdict_match)
        ∷ (codes "kappa_match", Obj.bool r.kappa_match)
        ∷ (codes "attestation", Obj.dict (dict_of (attestation_items r.attestation)))
        ∷ (codes "reproduced", Obj.bool r.reproduced)
        ∷ []))

  unfoldable pub commit_reply : CommitResult → Obj
  unfolding edge_to_dict verification_to_dict hash_to_text
  commit_reply cr = Obj.dict (
      dict_of (
        (codes "rejected", Obj.bool (is_rejected cr.verification))
        ∷ (codes "verification", verification_to_dict cr.verification)
        ∷ (codes "edge", or_null edge_to_dict cr.edge)
        ∷ (key_edge_hash, or_null hash_to_text cr.edge_hash)
        ∷ []))
