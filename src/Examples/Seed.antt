-- ===== src/Examples/Seed.antt =====
-- The import of the seed corpus into an empty storage.
use arxdb.Base.{
  ◌+◌, ◌≡◌, refl, sym, ◌∙◌, subst, ◌⊎◌, Bool, true, List, [], ◌∷◌, map, Memᴰ, nat_eq, bytes_eq,
  pair_eq, all, any, all_iff, contains,
}
use arxdb.Base.Strings.{strip}
use arxdb.Base.Result.{Result, ok, err, map_result}
use arxdb.Base.Dict.{get, set}
use arxdb.Base.Tests.{bytes_beq}
use arxdb.Storage.ObjectStore.Held.{Clash}
use arxdb.Seed.Ingest.Again.{CorpusMessage}
use arxdb.Storage.Facade.{Storage}
use arxdb.Storage.Facade.Commit.{IsSound}
use arxdb.Verification.Schema.{Node}
use arxdb.Verification.Elenchus.{
  evaluate, category_error, self_model_leak, non_sequitur, empty_rule, circularity, fired,
  verdict_of,
}
use arxdb.Verification.Checkers.{perform, run_bounded, or_timed_out}
use arxdb.Verification.Checkers.Roster as RosterChecker
use arxdb.Verification.Checkers.Spectral
use arxdb.Verification.Verifier.{
  verify, check_formally, checker_for, run_checker, conclude, default_kappa,
}
use arxdb.Seed.Corpus.{CorpusEdge}
use arxdb.Seed.Corpus.Nodes.{corpus_nodes}
use arxdb.Seed.Corpus.Edges.{corpus_edges}
use arxdb.Seed.Known.{succeeds, succeeds-ok}
use arxdb.Seed.Twice.{Verifies, seed_idempotent}
use arxdb.Seed.Ingest.Settled.{built-cases}
use arxdb.Seed.Ingest.{
  verify_timeout, rejected, skipped, SeedRow, add_entries, node_map, look_up, claims_of,
  build_corpus_edge, seed,
}
use arxdb.Examples.Packages.{toy_blake3, toy_cbor, toy_ed25519}
use arxdb.Examples.Backends.{toy_strings, toy_sympy, toy_z3, toy_numpy, toy_lean}
use arxdb.Examples.Commit.{with_key, key, with_key-IsSound}

all-built :
    all (λ e. succeeds (build_corpus_edge (node_map corpus_nodes) e (5 ∷ []))) corpus_edges ≡ true
unfolding all build_corpus_edge node_map add_entries set get look_up map_result claims_of verify
    evaluate fired verdict_of category_error self_model_leak non_sequitur empty_rule circularity
    contains any strip check_formally checker_for run_checker conclude default_kappa perform
    run_bounded or_timed_out bytes_beq RosterChecker.check Spectral.check
all-built = refl

all_verify : (e : CorpusEdge) → Memᴰ e corpus_edges → Verifies e
all_verify e m ps claim known =
    let built : (x : CorpusEdge) → Bool =
      λ x. succeeds (build_corpus_edge (node_map corpus_nodes) x (5 ∷ [])) in
    let (o, done) =
      succeeds-ok (build_corpus_edge (node_map corpus_nodes) e (5 ∷ []))
        ((all_iff built corpus_edges).0 all-built e m) in
    let (qs, c, v, same, verified, _) = built-cases (node_map corpus_nodes) (5 ∷ []) e o done in
    let q : ok (qs, c) ≡ ok (ps, claim) = sym same ∙ known in
    (
      v,
      subst
          (λ (r : Result (List Node × Node)). elim r [
            | ok (xs, x) ↦ verify xs x e.rule e.edge_type e.proof_bytes verify_timeout ≡ ok v
            | err _ ↦ Unit {0}
          ])
          q verified,
    )

seed_idempotent_example :
    (rows : List SeedRow) × (s' : Storage) × (seed (with_key key) (λ n. n) (5 ∷ []) ≡ (ok rows, s'))
    × (map (λ (r : SeedRow). r.key) rows ≡ map (λ (e : CorpusEdge). e.key) corpus_edges)
    × IsSound s'
    × (((again : List SeedRow) × (seed s' (λ n. n + 99) (5 ∷ []) ≡ (ok again, s'))
          × ((r : SeedRow) → Memᴰ r again → (r.status ≡ rejected) ⊎ (r.status ≡ skipped)))
        ⊎ Clash s'.objects (CorpusMessage (node_map corpus_nodes) (5 ∷ []) corpus_edges))
seed_idempotent_example =
    seed_idempotent (λ n. n) (λ n. n + 99) (with_key key) (5 ∷ []) with_key-IsSound all_verify
