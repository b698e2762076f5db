-- ===== src/Examples/Attestation.antt =====
-- The theorems on attestation at an empty storage and a roster of one agent.
use arxdb.Base.{ℕ, ◌≡◌, refl, subst, ◌↔◌, true, some, [], ◌∷◌, nat_eq, bytes_eq, pair_eq}
use arxdb.Base.Result.{ok}
use arxdb.Storage.Hashing.{Hash, hash_bytes}
use arxdb.Storage.Hashing.Hex.{AreBytes, hash_bytes-AreBytes}
use arxdb.Storage.AppendLog.{LogEntry}
use arxdb.Storage.Facade.{Storage}
use arxdb.Verification.Schema.EdgeCodec.{edge_hash}
use arxdb.Attestation.Roster.{Roster, roster_bytes, identify}
use arxdb.Attestation.Attest.{AttestationResult, verify_edge_attestation, commit_roster}
use arxdb.Attestation.Attest.Provenance.{
  IsBound, IsLogged, verify_edge_attestation_correct, commit_roster_again,
}
use arxdb.Examples.Packages.{toy_blake3, toy_cbor, toy_ed25519, toy_public}
use arxdb.Examples.Commit.{with_key, key, with_key-IsSound}
use arxdb.Examples.Query.{axiom_edge}

abbrev one_agent : Roster
one_agent = record { entries = (b'a' ∷ [], toy_public key) ∷ [] }

axiom_edge-AreBytes : (h : Hash) → axiom_edge.proof_hash ≡ some h → AreBytes h
axiom_edge-AreBytes h q =
    let same : hash_bytes (2 ∷ []) ≡ h = cc q in subst AreBytes same (hash_bytes-AreBytes (2 ∷ []))

verify_edge_attestation_correct_example :
    (r : AttestationResult) × (verify_edge_attestation axiom_edge (with_key key) one_agent ≡ ok r)
    × (r.signer_agent_id ≡ identify one_agent axiom_edge.signer_pubkey)
    × ((r.signature_valid ≡ true) ↔ IsLogged (with_key key) (edge_hash axiom_edge))
    × ((r.proof_bound ≡ true) ↔ IsBound (with_key key).objects axiom_edge.proof_hash)
    × ((r.proof_intact ≡ true) ↔ IsBound (with_key key).objects axiom_edge.proof_hash)
verify_edge_attestation_correct_example =
    verify_edge_attestation_correct axiom_edge (with_key key) one_agent with_key-IsSound
      axiom_edge-AreBytes

commit_roster_again_example :
    (entry : LogEntry) × (s' : Storage) × (commit_roster (with_key key) 77 one_agent
      ≡ ok (some entry, s'))
    × (entry.payload ≡ roster_bytes one_agent)
    × (s'.log.rows ≡ entry ∷ [])
    × ((later : ℕ) → commit_roster s' later one_agent ≡ ok (some entry, s'))
commit_roster_again_example = commit_roster_again (with_key key) 77 one_agent with_key-IsSound refl
