-- ===== src/Seed/Corpus/Edges/Second.antt =====
-- src/arxdb/seed/corpus.py: edges of the corpus, E16 to E30.
use arxdb.Base.{none, [], ◌∷◌, ◌++◌}
use arxdb.Base.Strings.{codes}
use arxdb.Verification.Schema.{citation, analogy, k0, k1}
use arxdb.Seed.Corpus.{CorpusEdge}

abbrev pub e16 : CorpusEdge
e16 = record {
  key = codes "E16";
  edge_type = analogy;
  premise_keys = codes "N15" ∷ [];
  conclusion_key = codes "N16";
  rule = codes "de Branges route (converse open)";
  expected_kappa = k0;
  source = codes "positivity_condition.md";
  proof_bytes = none;
}

abbrev pub e17 : CorpusEdge
e17 = record {
  key = codes "E17";
  edge_type = citation;
  premise_keys = [];
  conclusion_key = codes "N17";
  rule = codes "Selberg central limit theorem";
  expected_kappa = k1;
  source = codes "fluctuation_S_T.md";
  proof_bytes = none;
}

abbrev pub e18 : CorpusEdge
e18 = record {
  key = codes "E18";
  edge_type = citation;
  premise_keys = [];
  conclusion_key = codes "N18";
  rule = codes "Selberg 1946 + Tsang 1986";
  expected_kappa = k1;
  source = codes "tsang_mechanism.md, NOEMA 5ea45f72362c";
  proof_bytes = none;
}

abbrev pub e19 : CorpusEdge
e19 = record {
  key = codes "E19";
  edge_type = citation;
  premise_keys = [];
  conclusion_key = codes "N19";
  rule = codes "Selberg zero-density estimate";
  expected_kappa = k1;
  source = codes "zero_density_core.md, NOEMA 7fedaa8936b4";
  proof_bytes = none;
}

abbrev pub e20 : CorpusEdge
e20 = record {
  key = codes "E20";
  edge_type = analogy;
  premise_keys = codes "N18" ∷ codes "N19" ∷ [];
  conclusion_key = codes "N20";
  rule = codes "generator/spectrum balance";
  expected_kappa = k0;
  source = codes "tsang_mechanism.md";
  proof_bytes = none;
}

abbrev pub e21 : CorpusEdge
e21 = record {
  key = codes "E21";
  edge_type = analogy;
  premise_keys = [];
  conclusion_key = codes "N21";
  rule = codes "RG flow model";
  expected_kappa = k0;
  source = codes "22_rg_flow_model.md";
  proof_bytes = none;
}

abbrev pub e22 : CorpusEdge
e22 = record {
  key = codes "E22";
  edge_type = analogy;
  premise_keys = [];
  conclusion_key = codes "N22";
  rule = codes "Janus synthesis: functional equation = self-duality";
  expected_kappa = k0;
  source = codes "23_janus_rg_synthesis.md";
  proof_bytes = none;
}

abbrev pub e23 : CorpusEdge
e23 = record {
  key = codes "E23";
  edge_type = analogy;
  premise_keys = codes "N22" ∷ [];
  conclusion_key = codes "N23";
  rule = codes "Janus synthesis: valve = Mellin transform";
  expected_kappa = k0;
  source = codes "23_janus_rg_synthesis.md";
  proof_bytes = none;
}

abbrev pub e24 : CorpusEdge
e24 = record {
  key = codes "E24";
  edge_type = citation;
  premise_keys = codes "N2" ∷ [];
  conclusion_key = codes "N17";
  rule = codes "S(T) formula -> Selberg CLT for S(T)";
  expected_kappa = k1;
  source = codes "cross-thread bridge: S(T) defined in N2 satisfies the CLT in N17";
  proof_bytes = none;
}

abbrev pub e25 : CorpusEdge
e25 = record {
  key = codes "E25";
  edge_type = citation;
  premise_keys = codes "N2" ∷ [];
  conclusion_key = codes "N18";
  rule = codes "S(T) formula -> Omega-theorem for S(T)";
  expected_kappa = k1;
  source =
      codes "cross-thread bridge: S(T) defined in N2 satisfies the Omega-theorem "
      ++ codes "in N18";
  proof_bytes = none;
}

abbrev pub e26 : CorpusEdge
e26 = record {
  key = codes "E26";
  edge_type = analogy;
  premise_keys = codes "N6" ∷ [];
  conclusion_key = codes "N7";
  rule = codes "10^13 zeros on the line -> evidence for RH";
  expected_kappa = k0;
  source = codes "cross-thread bridge: numerical evidence supports the conjecture";
  proof_bytes = none;
}

abbrev pub e27 : CorpusEdge
e27 = record {
  key = codes "E27";
  edge_type = analogy;
  premise_keys = codes "N8" ∷ [];
  conclusion_key = codes "N7";
  rule = codes "Selberg zeta obeys RH -> analogy for RH";
  expected_kappa = k0;
  source = codes "cross-thread bridge: a proven analogue of RH";
  proof_bytes = none;
}

abbrev pub e28 : CorpusEdge
e28 = record {
  key = codes "E28";
  edge_type = analogy;
  premise_keys = codes "N9" ∷ [];
  conclusion_key = codes "N13";
  rule = codes "Hilbert-Polya operator <-> self-adjointness";
  expected_kappa = k0;
  source = codes "cross-thread bridge: the operator N9 is the self-adjointness N13";
  proof_bytes = none;
}

abbrev pub e29 : CorpusEdge
e29 = record {
  key = codes "E29";
  edge_type = analogy;
  premise_keys = codes "N13" ∷ [];
  conclusion_key = codes "N23";
  rule = codes "self-adjointness <-> Mellin symmetry gap";
  expected_kappa = k0;
  source =
      codes "cross-thread bridge: self-adjointness is what the Mellin transform "
      ++ codes "fails to carry";
  proof_bytes = none;
}

abbrev pub e30 : CorpusEdge
e30 = record {
  key = codes "E30";
  edge_type = analogy;
  premise_keys = codes "N16" ∷ [];
  conclusion_key = codes "N13";
  rule = codes "total positivity <-> self-adjointness";
  expected_kappa = k0;
  source = codes "cross-thread bridge: both are 'positivity forces the line'";
  proof_bytes = none;
}
