-- ===== src/Examples/MerkleTree.antt =====
-- The theorems on Merkle trees at a tree of three leaves.
use arxdb.Base.{
  ◌<◌, ◌≤◌, ◌≡◌, refl, ◌⊎◌, inl, inr, true, List, [], ◌∷◌, Memᴰ, arith, nat_eq, bytes_eq, pair_eq,
  length,
}
use arxdb.Base.Tests.{bytes_beq}
use arxdb.Base.Result.{ok, err, index_error}
use arxdb.Storage.Hashing.{Hash, hash_bytes, Collision}
use arxdb.Storage.Merkle.{get_or}
use arxdb.Storage.Hashing.{length-hash_bytes}
use mathlib.Core.List.Memᴰ
use arxdb.Examples.Packages.{toy_blake3, toy_digest, digits, mix}
use arxdb.Storage.Merkle.{
  MerkleInclusionProof, root_hash, inclusion_proof, verify_inclusion, leaf_node, internal_node,
}
use arxdb.Storage.Merkle.Complete.{inclusion_proof_complete}
use arxdb.Storage.Merkle.Levels.{IsSized}
use arxdb.Storage.Merkle.Sound.{verify_inclusion_sound}
use arxdb.Storage.Merkle.Levels.{RootMessage}
use arxdb.Storage.Merkle.Sound.{proof_messages}
use arxdb.Storage.Merkle.Binding.{root_hash_binding, root_hash-repeat_last}

abbrev three_leaves : List Hash
three_leaves = (7 ∷ []) ∷ (8 ∷ 9 ∷ []) ∷ (3 ∷ []) ∷ []

abbrev proof_of_second : MerkleInclusionProof
proof_of_second = record {
  leaf_hash = 8 ∷ 9 ∷ [];
  index = 1;
  path = leaf_node (7 ∷ []) ∷ internal_node (leaf_node (3 ∷ [])) (leaf_node (3 ∷ [])) ∷ [];
}

proof_of_second-accepted : verify_inclusion proof_of_second (root_hash three_leaves) ≡ true
unfolding verify_inclusion root_hash hash_bytes toy_digest digits mix bytes_beq
proof_of_second-accepted = refl

proof_of_second-IsSized : IsSized proof_of_second.path
unfolding leaf_node internal_node
proof_of_second-IsSized x m = elim (Memᴰ.cases_cons m) [
  | inl e ↦ rw e (length-hash_bytes _)
  | inr rest ↦ elim (Memᴰ.cases_cons rest) [
    | inl e ↦ rw e (length-hash_bytes _)
    | inr none_left ↦ absurd (Memᴰ.not-nil none_left)
  ]
]

inclusion_proof_complete_example :
    (1 < length three_leaves
      → (p : MerkleInclusionProof) × (inclusion_proof three_leaves 1 ≡ ok p)
        × (p.leaf_hash ≡ get_or three_leaves 1 [])
        × (p.index ≡ 1)
        × (verify_inclusion p (root_hash three_leaves) ≡ true))
    × (length three_leaves ≤ 1 → inclusion_proof three_leaves 1 ≡ err index_error)
inclusion_proof_complete_example = inclusion_proof_complete three_leaves 1

verify_inclusion_sound_example :
    Memᴰ (8 ∷ 9 ∷ []) three_leaves
    ⊎ Collision (λ m. Memᴰ m (proof_messages proof_of_second)) (RootMessage three_leaves)
verify_inclusion_sound_example =
    verify_inclusion_sound three_leaves proof_of_second proof_of_second-IsSized
      proof_of_second-accepted

root_hash_binding_example :
    (three_leaves ≡ three_leaves) ⊎ Collision (RootMessage three_leaves) (RootMessage three_leaves)
root_hash_binding_example = root_hash_binding three_leaves three_leaves refl refl

root_hash-repeat_last_example :
    root_hash ((7 ∷ []) ∷ (8 ∷ 9 ∷ []) ∷ (3 ∷ []) ∷ [])
    ≡ root_hash ((7 ∷ []) ∷ (8 ∷ 9 ∷ []) ∷ (3 ∷ []) ∷ (3 ∷ []) ∷ [])
root_hash-repeat_last_example =
    root_hash-repeat_last 1 ((7 ∷ []) ∷ (8 ∷ 9 ∷ []) ∷ []) (3 ∷ []) refl (omega arith)
