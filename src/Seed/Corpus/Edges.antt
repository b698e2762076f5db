-- ===== src/Seed/Corpus/Edges.antt =====
-- src/arxdb/seed/corpus.py: `CORPUS_EDGES`.
mod First
mod Second
mod Third
mod Fourth
use arxdb.Base.{List, [], ◌∷◌}
use arxdb.Seed.Corpus.{CorpusEdge}
use arxdb.Seed.Corpus.Edges.First.{e1, e2, e3, e4, e5, e6, e7, e8, e9, e10, e11, e12, e13, e14, e15}
use arxdb.Seed.Corpus.Edges.Second.{
  e16, e17, e18, e19, e20, e21, e22, e23, e24, e25, e26, e27, e28, e29, e30,
}
use arxdb.Seed.Corpus.Edges.Third.{
  e31, e32, e33, e34, e35, e36, e37, e38, e39, e40, e41, e42, e43, e44, e45,
}
use arxdb.Seed.Corpus.Edges.Fourth.{e46, e47, e48, e49, e50, e51, e52, e53, e54, e55, e56, e57, e58}

abbrev pub corpus_edges : List CorpusEdge
corpus_edges =
    e1 ∷ e2 ∷ e3 ∷ e4 ∷ e5 ∷ e6 ∷ e7 ∷ e8 ∷ e9 ∷ e10 ∷ e11 ∷ e12 ∷ e13 ∷ e14 ∷ e15 ∷ e16 ∷ e17 ∷ e18
    ∷ e19 ∷ e20 ∷ e21 ∷ e22 ∷ e23 ∷ e24 ∷ e25 ∷ e26 ∷ e27 ∷ e28 ∷ e29 ∷ e30 ∷ e31 ∷ e32 ∷ e33 ∷ e34
    ∷ e35 ∷ e36 ∷ e37 ∷ e38 ∷ e39 ∷ e40 ∷ e41 ∷ e42 ∷ e43 ∷ e44 ∷ e45 ∷ e46 ∷ e47 ∷ e48 ∷ e49 ∷ e50
    ∷ e51 ∷ e52 ∷ e53 ∷ e54 ∷ e55 ∷ e56 ∷ e57 ∷ e58 ∷ []
