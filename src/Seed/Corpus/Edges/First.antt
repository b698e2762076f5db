-- ===== src/Seed/Corpus/Edges/First.antt =====
-- src/arxdb/seed/corpus.py: edges of the corpus, E1 to E15.
use arxdb.Base.{none, [], ◌∷◌}
use arxdb.Base.Strings.{codes}
use arxdb.Verification.Schema.{definition, citation, analogy, k0, k1}
use arxdb.Seed.Corpus.{CorpusEdge}

abbrev pub e1 : CorpusEdge
e1 = record {
  key = codes "E1";
  edge_type = definition;
  premise_keys = [];
  conclusion_key = codes "N1";
  rule = codes "solenoid scaling flow";
  expected_kappa = k1;
  source = codes "solenoid-scaling-flow/results.md, NOEMA 9db25d9aa15e";
  proof_bytes = none;
}

abbrev pub e2 : CorpusEdge
e2 = record {
  key = codes "E2";
  edge_type = citation;
  premise_keys = [];
  conclusion_key = codes "N2";
  rule = codes "Euler product + explicit formula";
  expected_kappa = k1;
  source = codes "phase-is-the-valve/results.md, NOEMA a1f3c9d2b7e4";
  proof_bytes = none;
}

abbrev pub e3 : CorpusEdge
e3 = record {
  key = codes "E3";
  edge_type = citation;
  premise_keys = codes "N2" ∷ [];
  conclusion_key = codes "N3";
  rule = codes "phase-is-the-valve";
  expected_kappa = k1;
  source = codes "phase-is-the-valve/results.md, NOEMA a1f3c9d2b7e4";
  proof_bytes = none;
}

abbrev pub e4 : CorpusEdge
e4 = record {
  key = codes "E4";
  edge_type = citation;
  premise_keys = [];
  conclusion_key = codes "N4";
  rule = codes "Endres-Steiner 2010";
  expected_kappa = k1;
  source = codes "Endres-Steiner 2010, arXiv:0912.3183";
  proof_bytes = none;
}

abbrev pub e5 : CorpusEdge
e5 = record {
  key = codes "E5";
  edge_type = citation;
  premise_keys = codes "N4" ∷ [];
  conclusion_key = codes "N5";
  rule = codes "phaser uniqueness theorem";
  expected_kappa = k1;
  source = codes "phaser-uniqueness/results.md, NOEMA e07bfe33ea59";
  proof_bytes = none;
}

abbrev pub e6 : CorpusEdge
e6 = record {
  key = codes "E6";
  edge_type = citation;
  premise_keys = [];
  conclusion_key = codes "N6";
  rule = codes "Platt 2019 zeros bound";
  expected_kappa = k1;
  source = codes "Platt 2019";
  proof_bytes = none;
}

abbrev pub e7 : CorpusEdge
e7 = record {
  key = codes "E7";
  edge_type = citation;
  premise_keys = [];
  conclusion_key = codes "N8";
  rule = codes "Selberg trace formula";
  expected_kappa = k1;
  source = codes "Selberg trace formula (standard)";
  proof_bytes = none;
}

abbrev pub e8 : CorpusEdge
e8 = record {
  key = codes "E8";
  edge_type = analogy;
  premise_keys = [];
  conclusion_key = codes "N7";
  rule = codes "Riemann Hypothesis";
  expected_kappa = k0;
  source = codes "the conjecture itself";
  proof_bytes = none;
}

abbrev pub e9 : CorpusEdge
e9 = record {
  key = codes "E9";
  edge_type = citation;
  premise_keys = codes "N9" ∷ [];
  conclusion_key = codes "N7";
  rule = codes "Hilbert-Polya operator";
  expected_kappa = k1;
  source = codes "Hilbert-Polya program (standard)";
  proof_bytes = none;
}

abbrev pub e10 : CorpusEdge
e10 = record {
  key = codes "E10";
  edge_type = citation;
  premise_keys = [];
  conclusion_key = codes "N10";
  rule = codes "Euler product reinterpreted as primon gas";
  expected_kappa = k1;
  source = codes "primon_gas_free_energy.md (free-energy-spectrum, 2026-08-21)";
  proof_bytes = none;
}

abbrev pub e11 : CorpusEdge
e11 = record {
  key = codes "E11";
  edge_type = citation;
  premise_keys = codes "N10" ∷ [];
  conclusion_key = codes "N11";
  rule = codes "free energy = -log partition function";
  expected_kappa = k1;
  source = codes "primon_gas_free_energy.md";
  proof_bytes = none;
}

abbrev pub e12 : CorpusEdge
e12 = record {
  key = codes "E12";
  edge_type = citation;
  premise_keys = codes "N11" ∷ [];
  conclusion_key = codes "N12";
  rule = codes "zeros = singularities of -log zeta";
  expected_kappa = k1;
  source = codes "primon_gas_free_energy.md";
  proof_bytes = none;
}

abbrev pub e13 : CorpusEdge
e13 = record {
  key = codes "E13";
  edge_type = analogy;
  premise_keys = codes "N12" ∷ [];
  conclusion_key = codes "N13";
  rule = codes "Lee-Yang analogy: positivity forces zeros onto a line";
  expected_kappa = k0;
  source = codes "primon_gas_free_energy.md";
  proof_bytes = none;
}

abbrev pub e14 : CorpusEdge
e14 = record {
  key = codes "E14";
  edge_type = citation;
  premise_keys = [];
  conclusion_key = codes "N14";
  rule = codes "Fourier representation of xi";
  expected_kappa = k1;
  source = codes "positivity_condition.md (verified 30 digits)";
  proof_bytes = none;
}

abbrev pub e15 : CorpusEdge
e15 = record {
  key = codes "E15";
  edge_type = citation;
  premise_keys = codes "N14" ∷ [];
  conclusion_key = codes "N15";
  rule = codes "Polya 1926";
  expected_kappa = k1;
  source = codes "Polya 1926";
  proof_bytes = none;
}
