-- ===== src/Examples/Query.antt =====
-- The codecs and the query at a storage with one committed edge.
use arxdb.Base.{
  ℕ, ◌≡◌, subst, ◌↔◌, true, none, some, [], ◌∷◌, Memᴰ, nat_eq, bytes_eq, pair_eq, length,
}
use arxdb.Base.Result.{ok}
use arxdb.Base.Dict.{has}
use mathlib.Core.List.Memᴰ
use arxdb.Storage.Hashing.{hash_bytes, hash_size, length-hash_bytes}
use arxdb.Storage.Facade.{Storage, commit_edge_tx}
use arxdb.Verification.Schema.{Node, Edge, Kappa, k0, k1, definition, pass}
use arxdb.Verification.Schema.NodeCodec
use arxdb.Verification.Schema.EdgeCodec
use arxdb.Verification.Schema.NodeCodec.{from_bytes-node_bytes}
use arxdb.Verification.Schema.RoundTrip.{IsSized, from_bytes-edge_bytes}
use arxdb.Query.Reachability.Spec.{Proved}
use arxdb.Query.Reachability.Reachable.{ReachabilityResult, reachable, derivation_edges}
use arxdb.Query.Reachability.Derivations.{IsUsable, Memᴰ-derivation_edges}
use arxdb.Query.Reachability.Answer.{IsBest, IsLeast, reachable_correct}
use arxdb.Examples.Packages.{toy_blake3, toy_cbor, toy_ed25519}
use arxdb.Examples.Commit.{with_key, key}

abbrev sky : Node
sky = record { claim = b's' ∷ b'k' ∷ b'y' ∷ []; domain = []; polarity = true }

from_bytes-node_bytes_example : NodeCodec.from_bytes (NodeCodec.node_bytes sky) ≡ ok sky
from_bytes-node_bytes_example = from_bytes-node_bytes sky

abbrev pub axiom_edge : Edge
axiom_edge = record {
  type = definition;
  premises = [];
  conclusion = hash_bytes (1 ∷ []);
  rule = b'd' ∷ [];
  proof_hash = some (hash_bytes (2 ∷ []));
  verdict = pass;
  kappa = k1;
  signer_pubkey = 5 ∷ [];
}

axiom_edge-IsSized : IsSized axiom_edge
axiom_edge-IsSized = record {
  premises = λ h m. absurd (Memᴰ.not-nil m);
  conclusion = length-hash_bytes (1 ∷ []);
  proof_hash = λ h q.
      let same : hash_bytes (2 ∷ []) ≡ h = cc q in
      subst (λ x. length x ≡ hash_size) same (length-hash_bytes (2 ∷ []));
}

from_bytes-edge_bytes_example :
    EdgeCodec.from_bytes (EdgeCodec.edge_bytes axiom_edge) ≡ ok axiom_edge
from_bytes-edge_bytes_example = from_bytes-edge_bytes axiom_edge axiom_edge-IsSized

abbrev pub one_axiom : Storage
one_axiom =
    (commit_edge_tx (with_key key) 77 [] (hash_bytes (1 ∷ [])) (EdgeCodec.edge_bytes axiom_edge)
      none).1

Memᴰ-derivation_edges_example :
    Memᴰ (EdgeCodec.edge_hash axiom_edge, axiom_edge) (derivation_edges one_axiom none) ↔ (
      (has one_axiom.graph.edges (EdgeCodec.edge_hash axiom_edge) ≡ true)
      × IsUsable one_axiom none (EdgeCodec.edge_hash axiom_edge) axiom_edge)
Memᴰ-derivation_edges_example =
    Memᴰ-derivation_edges one_axiom none (EdgeCodec.edge_hash axiom_edge) axiom_edge

reachable_correct_example :
    (r : ReachabilityResult) × (reachable (hash_bytes (1 ∷ [])) one_axiom k0 [] none ≡ some (ok r))
    × ((r.established ≡ true)
        ↔ Proved (derivation_edges one_axiom none) [] k0 (hash_bytes (1 ∷ [])))
    × ((k : Kappa)
        → (r.kappa ≡ some k) ↔ IsBest (derivation_edges one_axiom none) [] (hash_bytes (1 ∷ [])) k)
    × ((d : ℕ)
        → (r.depth ≡ some d) ↔ IsLeast (derivation_edges one_axiom none) [] (hash_bytes (1 ∷ [])) d)
reachable_correct_example = reachable_correct (hash_bytes (1 ∷ [])) one_axiom k0 [] none
