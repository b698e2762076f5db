-- ===== src/Seed/Corpus/Edges/Fourth.antt =====
-- src/arxdb/seed/corpus.py: edges of the corpus, E46 to E58.
use arxdb.Base.{none, [], ◌∷◌, ◌++◌}
use arxdb.Base.Strings.{codes}
use arxdb.Verification.Schema.{citation, spectral, refutation, analogy, k0, k1, k2}
use arxdb.Seed.Corpus.{CorpusEdge}

abbrev pub e46 : CorpusEdge
e46 = record {
  key = codes "E46";
  edge_type = analogy;
  premise_keys = codes "N3" ∷ [];
  conclusion_key = codes "N28";
  rule = codes "von Mangoldt formula read topologically as Lk = Tw + Wr";
  expected_kappa = k0;
  source = codes "zeta-curve-writhe/results.md, NOEMA 820255c9c327";
  proof_bytes = none;
}

abbrev pub e47 : CorpusEdge
e47 = record {
  key = codes "E47";
  edge_type = analogy;
  premise_keys = codes "N2" ∷ [];
  conclusion_key = codes "N27";
  rule = codes "phase arg zeta = the twist of the helix";
  expected_kappa = k0;
  source = codes "double-helix/results.md";
  proof_bytes = none;
}

abbrev pub e48 : CorpusEdge
e48 = record {
  key = codes "E48";
  edge_type = analogy;
  premise_keys = codes "N27" ∷ [];
  conclusion_key = codes "N28";
  rule = codes "helix twist -> writhe decomposition";
  expected_kappa = k0;
  source = codes "double-helix/results.md";
  proof_bytes = none;
}

abbrev pub e49 : CorpusEdge
e49 = record {
  key = codes "E49";
  edge_type = analogy;
  premise_keys = codes "N28" ∷ [];
  conclusion_key = codes "N29";
  rule = codes "writhe = S(T), so RH constrains the mean writhe";
  expected_kappa = k0;
  source = codes "zeta-curve-writhe/results.md";
  proof_bytes = none;
}

abbrev pub e50 : CorpusEdge
e50 = record {
  key = codes "E50";
  edge_type = refutation;
  premise_keys = [];
  conclusion_key = codes "N30";
  rule =
      codes "Littlewood 1924: S(T) = O(log T / log log T) is unconditional, so it "
      ++ codes "cannot be equivalent to RH";
  expected_kappa = k1;
  source = codes "zeta-curve-writhe correction (this session)";
  proof_bytes = none;
}

abbrev pub e51 : CorpusEdge
e51 = record {
  key = codes "E51";
  edge_type = citation;
  premise_keys = [];
  conclusion_key = codes "N29";
  rule = codes "RH <=> integral_0^T S(t) dt = O(log T) (mean bound)";
  expected_kappa = k1;
  source = codes "Titchmarsh (from training, medium-high confidence; verify)";
  proof_bytes = none;
}

abbrev pub e52 : CorpusEdge
e52 = record {
  key = codes "E52";
  edge_type = refutation;
  premise_keys = [];
  conclusion_key = codes "N29";
  rule =
      codes "the mean value integral_0^T S(t) dt grows like O(T) (numerically "
      ++ codes "verified 2026-08-27: M(1000) = -1670 vs log(1000) ~ 6.9), NOT O(log "
      ++ codes "T); it is unconditional, so it cannot be equivalent to RH";
  expected_kappa = k1;
  source =
      codes "numerical (mpmath, this session) + classical; premise corrected from "
      ++ codes "O(log T) to O(T)";
  proof_bytes = none;
}

abbrev pub e53 : CorpusEdge
e53 = record {
  key = codes "E53";
  edge_type = citation;
  premise_keys = [];
  conclusion_key = codes "N31";
  rule =
      codes "Mayer's theorem: det(1-L_beta) = zeta(2beta)/zeta(2beta+1); RH <=> "
      ++ codes "zeros of det(1-L_beta) on Re(beta)=1/4";
  expected_kappa = k1;
  source = codes "surface ontology (2026-09-22), Mayer transfer operator";
  proof_bytes = none;
}

abbrev pub e54 : CorpusEdge
e54 = record {
  key = codes "E54";
  edge_type = spectral;
  premise_keys = [];
  conclusion_key = codes "N32";
  rule =
      codes "L_beta is self-adjoint for real beta (Mayer transfer operator, " ++ codes "nu=-1/2)";
  expected_kappa = k2;
  source = codes "spectral checker: hermitian_err=0.0, max_im_eig=0.0";
  proof_bytes = none;
}

abbrev pub e55 : CorpusEdge
e55 = record {
  key = codes "E55";
  edge_type = spectral;
  premise_keys = [];
  conclusion_key = codes "N33";
  rule =
      codes "L_beta has complex spectrum off the real axis (broken PT-symmetry, "
      ++ codes "nu=-1/2+2i)";
  expected_kappa = k2;
  source = codes "spectral checker: max_im_eig=5.77";
  proof_bytes = none;
}

abbrev pub e56 : CorpusEdge
e56 = record {
  key = codes "E56";
  edge_type = spectral;
  premise_keys = [];
  conclusion_key = codes "N34";
  rule =
      codes "the defect D = L_beta - L_beta* has a dominant singular value "
      ++ codes "(sigma1/sigma2 = 36.5)";
  expected_kappa = k2;
  source = codes "spectral checker: ratio_s1_s2=36.53";
  proof_bytes = none;
}

abbrev pub e57 : CorpusEdge
e57 = record {
  key = codes "E57";
  edge_type = citation;
  premise_keys = [];
  conclusion_key = codes "N35";
  rule =
      codes "mpmath dps=30: zeta'(rho_1) != 0; residue of zeta'(2b)/zeta(2b) at "
      ++ codes "rho_1 = 1";
  expected_kappa = k1;
  source = codes "surface ontology (2026-09-22)";
  proof_bytes = none;
}

abbrev pub e58 : CorpusEdge
e58 = record {
  key = codes "E58";
  edge_type = citation;
  premise_keys = [];
  conclusion_key = codes "N36";
  rule = codes "mpmath dps=30: Im(spectrum) ~ 0.58*gamma, linear in gamma";
  expected_kappa = k1;
  source = codes "surface ontology (2026-09-22)";
  proof_bytes = none;
}
