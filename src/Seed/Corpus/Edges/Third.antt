-- ===== src/Seed/Corpus/Edges/Third.antt =====
-- src/arxdb/seed/corpus.py: edges of the corpus, E31 to E45.
use arxdb.Base.{none, [], ◌∷◌, ◌++◌}
use arxdb.Base.Strings.{codes}
use arxdb.Verification.Schema.{analogy, k0}
use arxdb.Seed.Corpus.{CorpusEdge}

abbrev pub e31 : CorpusEdge
e31 = record {
  key = codes "E31";
  edge_type = analogy;
  premise_keys = codes "N1" ∷ [];
  conclusion_key = codes "N10";
  rule = codes "flow orbits = primes <-> primon gas";
  expected_kappa = k0;
  source = codes "cross-thread bridge: both are 'primes as spectrum'";
  proof_bytes = none;
}

abbrev pub e32 : CorpusEdge
e32 = record {
  key = codes "E32";
  edge_type = analogy;
  premise_keys = codes "N12" ∷ [];
  conclusion_key = codes "N21";
  rule = codes "zeros = phase transitions <-> critical line = RG fixed point";
  expected_kappa = k0;
  source = codes "cross-thread bridge: both locate the critical line as equilibrium";
  proof_bytes = none;
}

abbrev pub e33 : CorpusEdge
e33 = record {
  key = codes "E33";
  edge_type = analogy;
  premise_keys = codes "N20" ∷ [];
  conclusion_key = codes "N21";
  rule = codes "1/3 balance <-> fixed point balance";
  expected_kappa = k0;
  source = codes "cross-thread bridge: both are 'the critical line is a balance point'";
  proof_bytes = none;
}

abbrev pub e34 : CorpusEdge
e34 = record {
  key = codes "E34";
  edge_type = analogy;
  premise_keys = codes "N22" ∷ [];
  conclusion_key = codes "N13";
  rule = codes "self-duality <-> self-adjointness gap";
  expected_kappa = k0;
  source =
      codes "cross-thread bridge: self-duality gives symmetry, self-adjointness "
      ++ codes "gives placement";
  proof_bytes = none;
}

abbrev pub e35 : CorpusEdge
e35 = record {
  key = codes "E35";
  edge_type = analogy;
  premise_keys = codes "N9" ∷ [];
  conclusion_key = codes "N24";
  rule = codes "Hilbert-Polya operator is the positivity structure";
  expected_kappa = k0;
  source = codes "hub: positivity is the missing structure";
  proof_bytes = none;
}

abbrev pub e36 : CorpusEdge
e36 = record {
  key = codes "E36";
  edge_type = analogy;
  premise_keys = codes "N13" ∷ [];
  conclusion_key = codes "N24";
  rule = codes "self-adjointness is the positivity structure";
  expected_kappa = k0;
  source = codes "hub: positivity is the missing structure";
  proof_bytes = none;
}

abbrev pub e37 : CorpusEdge
e37 = record {
  key = codes "E37";
  edge_type = analogy;
  premise_keys = codes "N16" ∷ [];
  conclusion_key = codes "N24";
  rule = codes "total positivity is the positivity structure";
  expected_kappa = k0;
  source = codes "hub: positivity is the missing structure";
  proof_bytes = none;
}

abbrev pub e38 : CorpusEdge
e38 = record {
  key = codes "E38";
  edge_type = analogy;
  premise_keys = codes "N23" ∷ [];
  conclusion_key = codes "N24";
  rule = codes "the Mellin transform fails to carry positivity";
  expected_kappa = k0;
  source = codes "hub: positivity is the missing structure";
  proof_bytes = none;
}

abbrev pub e39 : CorpusEdge
e39 = record {
  key = codes "E39";
  edge_type = analogy;
  premise_keys = codes "N1" ∷ [];
  conclusion_key = codes "N25";
  rule = codes "flow orbits = primes";
  expected_kappa = k0;
  source = codes "hub: primes as spectrum";
  proof_bytes = none;
}

abbrev pub e40 : CorpusEdge
e40 = record {
  key = codes "E40";
  edge_type = analogy;
  premise_keys = codes "N10" ∷ [];
  conclusion_key = codes "N25";
  rule = codes "primon gas = primes as spectrum";
  expected_kappa = k0;
  source = codes "hub: primes as spectrum";
  proof_bytes = none;
}

abbrev pub e41 : CorpusEdge
e41 = record {
  key = codes "E41";
  edge_type = analogy;
  premise_keys = codes "N21" ∷ [];
  conclusion_key = codes "N25";
  rule = codes "primes = relevant operator (input)";
  expected_kappa = k0;
  source = codes "hub: primes as spectrum";
  proof_bytes = none;
}

abbrev pub e42 : CorpusEdge
e42 = record {
  key = codes "E42";
  edge_type = analogy;
  premise_keys = codes "N12" ∷ [];
  conclusion_key = codes "N26";
  rule = codes "zeros = phase transitions at the balance";
  expected_kappa = k0;
  source = codes "hub: the critical line is a balance point";
  proof_bytes = none;
}

abbrev pub e43 : CorpusEdge
e43 = record {
  key = codes "E43";
  edge_type = analogy;
  premise_keys = codes "N20" ∷ [];
  conclusion_key = codes "N26";
  rule = codes "1/3 exponent = balance";
  expected_kappa = k0;
  source = codes "hub: the critical line is a balance point";
  proof_bytes = none;
}

abbrev pub e44 : CorpusEdge
e44 = record {
  key = codes "E44";
  edge_type = analogy;
  premise_keys = codes "N21" ∷ [];
  conclusion_key = codes "N26";
  rule = codes "fixed point = balance";
  expected_kappa = k0;
  source = codes "hub: the critical line is a balance point";
  proof_bytes = none;
}

abbrev pub e45 : CorpusEdge
e45 = record {
  key = codes "E45";
  edge_type = analogy;
  premise_keys = codes "N5" ∷ [];
  conclusion_key = codes "N9";
  rule =
      codes "failure of the naive Berry-Keating operator -> the Hilbert-Polya "
      ++ codes "operator is a genuine open problem";
  expected_kappa = k0;
  source = codes "cross-thread bridge: the negative result N5 is what makes N9 open";
  proof_bytes = none;
}
