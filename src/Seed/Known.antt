-- ===== src/Seed/Known.antt =====
-- The keys of src/arxdb/seed/corpus.py.
use arxdb.Base.{◌≡◌, refl, Bool, true, false, List, Memᴰ, nat_eq, bytes_eq, pair_eq, all, all_iff}
use arxdb.Base.Result.{Result, ok, err, map_result}
use arxdb.Base.Dict.{get, set}
use arxdb.Base.Tests.{bytes_beq}
use arxdb.Verification.Schema.{Node}
use arxdb.Seed.Corpus.{CorpusEdge}
use arxdb.Seed.Corpus.Nodes.{corpus_nodes}
use arxdb.Seed.Corpus.Edges.{corpus_edges}
use arxdb.Seed.Ingest.{add_entries, node_map, look_up, claims_of}

abbrev pub succeeds {ℓ} : {A : Type ℓ} → Result A → Bool
succeeds (ok a) = true
succeeds (err e) = false

all-known : all (λ e. succeeds (claims_of (node_map corpus_nodes) e)) corpus_edges ≡ true
unfolding all claims_of map_result look_up node_map add_entries get set bytes_beq
all-known = refl

pub succeeds-ok {ℓ} : {A : Type ℓ} (r : Result A) → succeeds r ≡ true → (a : A) × (r ≡ ok a)
succeeds-ok (ok a) h = (a, refl)
succeeds-ok (err e) h = absurd (cc h)

-- The premises and the conclusion of each edge of the corpus are nodes of the corpus.
pub corpus_known :
    (e : CorpusEdge)
    → Memᴰ e corpus_edges
    → (q : List Node × Node) × (claims_of (node_map corpus_nodes) e ≡ ok q)
corpus_known e m =
    succeeds-ok (claims_of (node_map corpus_nodes) e)
      ((all_iff (λ x. succeeds (claims_of (node_map corpus_nodes) x)) corpus_edges).0 all-known e m)
