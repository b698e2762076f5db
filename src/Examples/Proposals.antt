-- ===== src/Examples/Proposals.antt =====
-- A proposal that is verified and committed to an empty storage.
use arxdb.Base.{◌≡◌, refl, ◌⊎◌, none, some, [], ◌∷◌, nat_eq, Bytes, bytes_eq, pair_eq}
use arxdb.Base.Result.{Result, ok}
use arxdb.Base.Dict.{get}
use arxdb.Storage.AppendLog.{LogEntry}
use arxdb.Storage.Facade.{Storage}
use arxdb.Verification.Schema.{numerical}
use arxdb.Verification.Schema.EdgeCodec.{edge_hash}
use arxdb.Verification.Elenchus.Grounds.{IsRejectable}
use arxdb.Verification.Verifier.{VerificationResult, verify}
use arxdb.Verification.Verifier.Evidence.{IsWarranted}
use arxdb.Verification.Commit.{CommitResult, build_edge, verify_and_commit}
use arxdb.Verification.Commit.Accepted.{
  IsStored, verify_and_commit_accepted, verify_and_commit_gate,
}
use arxdb.Examples.Packages.{toy_blake3, toy_cbor, toy_ed25519}
use arxdb.Examples.Backends.{toy_strings, toy_sympy, toy_z3, toy_numpy, toy_lean}
use arxdb.Examples.Commit.{with_key, key, with_key-IsSound}
use arxdb.Examples.Verifier.{equation, by_identity, equation_result, equation_verified}

abbrev signer : Bytes
signer = 5 ∷ []

verify_and_commit_accepted_example :
    (entry : LogEntry) × (s' : Storage) × (verify_and_commit
        (with_key key)
        77
        signer
        []
        equation
        by_identity
        numerical
        none
        5000
      ≡ (
        ok (record {
          verification = equation_result;
          edge = some (build_edge equation_result signer [] equation by_identity numerical none);
          edge_hash = some (
              edge_hash (build_edge equation_result signer [] equation by_identity numerical none));
          log_entry = some entry;
        }),
        s',
      ))
    × IsStored none [] equation
        (build_edge equation_result signer [] equation by_identity numerical none)
        entry
        s'
unfolding get
verify_and_commit_accepted_example =
    verify_and_commit_accepted (with_key key) 77 signer [] equation by_identity numerical none 5000
      equation_result with_key-IsSound equation_verified refl refl

abbrev outcome : Result CommitResult × Storage
outcome = verify_and_commit (with_key key) 77 signer [] equation by_identity numerical none 5000

verify_and_commit_gate_example :
    (outcome.1 ≡ with_key key)
    ⊎ ((v : VerificationResult) × (verify [] equation by_identity numerical none 5000 ≡ ok v)
        × (¬ IsRejectable [] equation by_identity numerical)
        × IsWarranted [] equation none 5000 numerical v.kappa)
verify_and_commit_gate_example =
    verify_and_commit_gate (with_key key) 77 signer [] equation by_identity numerical none 5000
      outcome.0 outcome.1 refl
