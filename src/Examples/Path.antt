-- ===== src/Examples/Path.antt =====
-- Path discovery in a storage with one edge, whose strength is below the threshold, and in one whose
-- edge lacks its premise.
use arxdb.Base.{
  List, ℕ, ◌≡◌, refl, ◌↔◌, Bool, true, false, none, some, List, [], ◌∷◌, nat_eq, bytes_eq, pair_eq,
}
use arxdb.Base.Dict.{get, set}
use arxdb.Query.Resolve.{resolve_edge}
use arxdb.Examples.Codec.{dump, load}
use arxdb.Query.Path.Ends.{missing_for_total}
use arxdb.Base.Result.{ok}
use arxdb.Storage.Hashing.{Hash, hash_bytes}
use arxdb.Verification.Schema.{Edge, Kappa, k2, deduction, pass}
use arxdb.Verification.Schema.EdgeCodec
use arxdb.Storage.Facade.{Storage, commit_edge_tx}
use arxdb.Query.Reachability.Reachable.{derivation_edges, derivation_item}
use arxdb.Query.Reachability.Spec.{Proved}
use arxdb.Query.Reachability.Answer.{IsBest, IsLeast}
use arxdb.Base.Tests.{bytes_beq}
use arxdb.Storage.Hashing.{hex}
use arxdb.Examples.Commit.{with_key, key}
use arxdb.Query.Path.{leaf_gap, missing_for, MissingEdge, PathResult, path_discovery}
use arxdb.Query.Path.Discovery.{
  IsFrontier, CandidatesDerive, path_discovery_correct, path_discovery-IsFrontier,
}
use arxdb.Examples.Packages.{toy_digest, digits, mix, toy_blake3, toy_cbor, toy_ed25519}
use arxdb.Examples.Query.{one_axiom}

abbrev goal : Hash
goal = hash_bytes (1 ∷ [])

path_discovery_correct_example :
    (r : PathResult) × (path_discovery goal one_axiom k2 ≡ some (ok r))
    × ((r.established ≡ true) ↔ Proved (derivation_edges one_axiom none) [] k2 goal)
    × ((k : Kappa) → (r.kappa ≡ some k) ↔ IsBest (derivation_edges one_axiom none) [] goal k)
    × ((d : ℕ) → (r.depth ≡ some d) ↔ IsLeast (derivation_edges one_axiom none) [] goal d)
path_discovery_correct_example = path_discovery_correct goal one_axiom k2

abbrev premise : Hash
premise = hash_bytes (3 ∷ [])

abbrev step_edge : Edge
step_edge = record {
  type = deduction;
  premises = premise ∷ [];
  conclusion = goal;
  rule = b'd' ∷ [];
  proof_hash = none;
  verdict = pass;
  kappa = k2;
  signer_pubkey = 5 ∷ [];
}

abbrev one_step : Storage
one_step =
    (commit_edge_tx (with_key key) 77 (premise ∷ []) goal (EdgeCodec.edge_bytes step_edge) none).1

-- The edge into the goal lacks its premise, and no edge leads to the premise.
abbrev no_answer : PathResult
no_answer = record {
  target = goal;
  established = false;
  depth = none;
  kappa = none;
  missing_edges =
      record {
        conclusion = goal;
        premises = premise ∷ [];
        blocking_nodes = premise ∷ [];
        rule = b'd' ∷ [];
      }
      ∷ leaf_gap premise
      ∷ [];
}

no_answer_found : path_discovery goal one_step k2 ≡ some (ok no_answer)
unfolding path_discovery get hash_bytes toy_digest digits mix bytes_beq hex EdgeCodec.edge_bytes
    commit_edge_tx set derivation_item resolve_edge dump load
no_answer_found = refl

path_discovery-IsFrontier_example :
    (established : Hash → Bool) × ((n : Hash)
      → (established n ≡ true) ↔ Proved (derivation_edges one_step none) [] k2 n)
    × (no_answer.established ≡ true → no_answer.missing_edges ≡ [])
    × (no_answer.established ≡ false
        → IsFrontier goal one_step k2 established no_answer.missing_edges)
    × CandidatesDerive goal one_step k2
path_discovery-IsFrontier_example =
    path_discovery-IsFrontier goal one_step k2 no_answer no_answer_found

missing_for_total_example :
    (result : List MissingEdge) × (missing_for one_axiom (λ n. false) [] goal ≡ some result)
missing_for_total_example = missing_for_total (λ n. false) one_axiom [] goal
