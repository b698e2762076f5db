-- ===== src/Examples/Refutation.antt =====
-- The theorems on the labels: the loop at three edges, of which the first attacks the second and the
-- second the third, and the whole at a storage with an edge and its refutation.
use arxdb.Base.{◌+◌, ◌≡◌, ◌⊎◌, none, some, List, [], ◌∷◌, Memᴰ, nat_eq, bytes_eq, pair_eq, length}
use arxdb.Base.Loop.{until_stable, sweep}
use arxdb.Storage.Hashing.{Hash}
use arxdb.Storage.Hashing.{hash_bytes}
use arxdb.Storage.Facade.{Storage, commit_edge_tx}
use arxdb.Verification.Schema.{Edge, k1, refutation, pass}
use arxdb.Verification.Schema.EdgeCodec
use arxdb.Query.Refutation.{AttackGraph, Labels, members, label}
use arxdb.Examples.Packages.{toy_blake3, toy_cbor, toy_ed25519}
use arxdb.Examples.Query.{axiom_edge, one_axiom}
use arxdb.Query.Refutation.Grounded.{InIsJustified, OutIsJustified, labelling_correct}

abbrev three_edges : List Hash
three_edges = (1 ∷ []) ∷ (2 ∷ []) ∷ (3 ∷ []) ∷ []

abbrev chain_of_attacks : AttackGraph
chain_of_attacks = record {
  attackers = (1 ∷ [], (2 ∷ []) ∷ []) ∷ (2 ∷ [], (3 ∷ []) ∷ []) ∷ (3 ∷ [], []) ∷ [];
  attacked_by = (1 ∷ [], []) ∷ (2 ∷ [], (1 ∷ []) ∷ []) ∷ (3 ∷ [], (2 ∷ []) ∷ []) ∷ [];
}

labelling_correct_example :
    (t : Labels) × (until_stable
        (length three_edges + 1)
        (sweep (label chain_of_attacks) three_edges)
        (record { in_edges = []; out_edges = [] })
      ≡ some t)
    × InIsJustified chain_of_attacks three_edges t
    × OutIsJustified chain_of_attacks three_edges t
    × ((h : Hash)
        → Memᴰ h three_edges
        → ((a : Hash) → Memᴰ a (members chain_of_attacks.attacked_by h) → Memᴰ a t.out_edges)
        → Memᴰ h t.in_edges ⊎ Memᴰ h t.out_edges)
labelling_correct_example = labelling_correct chain_of_attacks three_edges

abbrev refuting_edge : Edge
refuting_edge = record {
  type = refutation;
  premises = [];
  conclusion = EdgeCodec.edge_hash axiom_edge;
  rule = b'd' ∷ [];
  proof_hash = some (hash_bytes (2 ∷ []));
  verdict = pass;
  kappa = k1;
  signer_pubkey = 5 ∷ [];
}

abbrev refuted : Storage
refuted =
    (commit_edge_tx one_axiom 78 [] (EdgeCodec.edge_hash axiom_edge)
      (EdgeCodec.edge_bytes refuting_edge) none).1
