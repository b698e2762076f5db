-- ===== src/Seed/Corpus/Nodes.antt =====
-- src/arxdb/seed/corpus.py: `CORPUS_NODES`.
mod First
mod Second
use arxdb.Base.{List, [], ◌∷◌}
use arxdb.Seed.Corpus.{CorpusNode}
use arxdb.Seed.Corpus.Nodes.First.{
  n1, n2, n3, n4, n5, n6, n7, n8, n9, n10, n11, n12, n13, n14, n15, n16, n17, n18,
}
use arxdb.Seed.Corpus.Nodes.Second.{
  n19, n20, n21, n22, n23, n24, n25, n26, n27, n28, n29, n30, n31, n32, n33, n34, n35, n36,
}

abbrev pub corpus_nodes : List CorpusNode
corpus_nodes =
    n1 ∷ n2 ∷ n3 ∷ n4 ∷ n5 ∷ n6 ∷ n7 ∷ n8 ∷ n9 ∷ n10 ∷ n11 ∷ n12 ∷ n13 ∷ n14 ∷ n15 ∷ n16 ∷ n17 ∷ n18
    ∷ n19 ∷ n20 ∷ n21 ∷ n22 ∷ n23 ∷ n24 ∷ n25 ∷ n26 ∷ n27 ∷ n28 ∷ n29 ∷ n30 ∷ n31 ∷ n32 ∷ n33 ∷ n34
    ∷ n35 ∷ n36 ∷ []
