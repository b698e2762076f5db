-- ===== src/Verification/Commit/Stored.antt =====
-- What the object store holds after `verify_and_commit` in src/arxdb/verification/commit.py.
use arxdb.Base.{
  ◌≡◌, refl, sym, ap, ◌∙◌, subst, ◌⊎◌, inl, inr, Option, none, some, List, [], ◌∷◌, map, Memᴰ,
  nat_eq, Bytes, bytes_eq, pair_eq, length,
}
use mathlib.Core.Logic.{⊎_elim}
use mathlib.Core.List.Memᴰ
use arxdb.Storage.Hashing.{Blake3, Hash, hash_bytes, length-hash_bytes}
use arxdb.Storage.Serialization.{Cbor}
use arxdb.Storage.Keys.{Ed25519}
use arxdb.Storage.ObjectStore.{ObjectStore, put, IsAddressed, put-IsAddressed}
use arxdb.Storage.ObjectStore.Held.{Clash, Holds, put-Holds, put_keeps-Holds}
use arxdb.Storage.Facade.{Storage}
use arxdb.Storage.Facade.Commit.{IsSound}
use arxdb.Verification.Schema.{Text, Node, Edge, EdgeType}
use arxdb.Verification.Schema.NodeCodec.{node_bytes, node_id, from_bytes-node_bytes}
use arxdb.Verification.Schema.EdgeCodec.{edge_bytes, edge_hash}
use arxdb.Verification.Schema.RoundTrip.{IsSized, from_bytes-edge_bytes}
use arxdb.Query.Resolve.{resolve_node, resolve_edge}
use arxdb.Verification.Verifier.{VerificationResult}
use arxdb.Verification.Commit.{proof_hash_of, build_edge, put_nodes, put_claims}

module _ ⦃b : Blake3⦄ ⦃c : Cbor⦄ where
  map-node_id-sized : (ps : List Node) (h : Hash) → Memᴰ h (map node_id ps) → length h ≡ 34
  unfolding node_id
  map-node_id-sized [] h m = absurd (Memᴰ.not-nil m)
  map-node_id-sized (p ∷ ps) h m =
      ⊎_elim (λ e. ap length e ∙ length-hash_bytes (node_bytes p)) (map-node_id-sized ps h)
        (Memᴰ.cases_cons m)

  proof_hash_of-sized :
      (proof : Option Bytes) (h : Hash) → proof_hash_of proof ≡ some h → length h ≡ 34
  unfolding proof_hash_of
  proof_hash_of-sized none h e = absurd (cc e)
  proof_hash_of-sized (some proof) h e =
      let same : h ≡ hash_bytes proof = cc e in ap length same ∙ length-hash_bytes proof

  pub build_edge-IsSized :
      (v : VerificationResult) (signer : Bytes) (ps : List Node) (n : Node) (r : Text)
      (t : EdgeType) (proof : Option Bytes)
      → IsSized (build_edge v signer ps n r t proof)
  unfolding build_edge node_id
  build_edge-IsSized v signer ps n r t proof = record {
    premises = map-node_id-sized ps;
    conclusion = length-hash_bytes (node_bytes n);
    proof_hash = proof_hash_of-sized proof;
  }

  put_nodes-IsAddressed :
      (s : ObjectStore) (ps : List Node) → IsAddressed s → IsAddressed (put_nodes s ps)
  unfolding put_nodes
  put_nodes-IsAddressed s [] inv = inv
  put_nodes-IsAddressed s (p ∷ ps) inv =
      put_nodes-IsAddressed (put s (node_bytes p)).1 ps (put-IsAddressed s (node_bytes p) inv)

  pub put_nodes_keeps :
      (s : ObjectStore) (ps : List Node) (old : Bytes) → Holds s old → Holds (put_nodes s ps) old
  unfolding put_nodes
  put_nodes_keeps s [] old there = there
  put_nodes_keeps s (p ∷ ps) old there =
      put_nodes_keeps (put s (node_bytes p)).1 ps old (put_keeps-Holds s (node_bytes p) old there)

  put_nodes-Holds :
      (s : ObjectStore) (ps : List Node) (p : Node)
      → IsAddressed s
      → Memᴰ p ps
      → Holds (put_nodes s ps) (node_bytes p)
  unfolding put_nodes
  put_nodes-Holds s [] p inv m = absurd (Memᴰ.not-nil m)
  put_nodes-Holds s (q ∷ ps) p inv m =
      let s1 = (put s (node_bytes q)).1 in
      ⊎_elim
        (λ e.
          put_nodes_keeps s1 ps (node_bytes p)
            (subst (λ x. Holds s1 (node_bytes x)) (sym e) (put-Holds s (node_bytes q) inv)))
        (put_nodes-Holds s1 ps p (put-IsAddressed s (node_bytes q) inv)) (Memᴰ.cases_cons m)

  put_claims-IsAddressed :
      (s : Storage) (ps : List Node) (n : Node)
      → IsAddressed s.objects
      → IsAddressed (put_claims s ps n).objects
  unfolding put_claims
  put_claims-IsAddressed s ps n inv =
      put-IsAddressed (put_nodes s.objects ps) (node_bytes n)
        (put_nodes-IsAddressed s.objects ps inv)

  -- The payload of each node of the edge is held once the claims are put.
  pub put_claims-Holds :
      (s : Storage) (ps : List Node) (n p : Node)
      → IsAddressed s.objects
      → Memᴰ p (n ∷ ps)
      → Holds (put_claims s ps n).objects (node_bytes p)
  unfolding put_claims
  put_claims-Holds s ps n p inv m =
      ⊎_elim
        (λ e.
          subst (λ x. Holds (put (put_nodes s.objects ps) (node_bytes n)).1 (node_bytes x)) (sym e)
            (put-Holds (put_nodes s.objects ps) (node_bytes n)
              (put_nodes-IsAddressed s.objects ps inv)))
        (λ r.
          put_keeps-Holds (put_nodes s.objects ps) (node_bytes n) (node_bytes p)
            (put_nodes-Holds s.objects ps p inv r))
        (Memᴰ.cases_cons m)

  pub put_claims-IsSound :
      ⦃k : Ed25519⦄
      → (s : Storage) (ps : List Node) (n : Node) → IsSound s
      → IsSound (put_claims s ps n)
  put_claims-IsSound s ps n inv = record {
    addressed = put_claims-IsAddressed s ps n inv.addressed;
    consistent = unfold put_claims in inv.consistent;
    chain = unfold put_claims in inv.chain;
    keys = unfold put_claims in inv.keys;
  }

  -- A node whose bytes are held resolves.
  pub Holds-resolve_node :
      (s : Storage) (p : Node)
      → Holds s.objects (node_bytes p)
      → (resolve_node (node_id p) s ≡ some p) ⊎ Clash s.objects (λ m. m ≡ node_bytes p)
  unfolding resolve_node node_id
  Holds-resolve_node s p (inl there) = inl (rw (there, resolve_node, from_bytes-node_bytes p) refl)
  Holds-resolve_node s p (inr clash) = inr clash

  pub Holds-resolve_edge :
      (s : Storage) (e : Edge)
      → IsSized e
      → Holds s.objects (edge_bytes e)
      → (resolve_edge (edge_hash e) s ≡ some e) ⊎ Clash s.objects (λ m. m ≡ edge_bytes e)
  unfolding resolve_edge edge_hash
  Holds-resolve_edge s e sized (inl there) =
      inl (rw (there, resolve_edge, from_bytes-edge_bytes e sized) refl)
  Holds-resolve_edge s e sized (inr clash) = inr clash
