-- ===== src/Seed/Corpus/Nodes/First.antt =====
-- src/arxdb/seed/corpus.py: nodes of the corpus, N1 to N18.
use arxdb.Base.{true, ◌++◌}
use arxdb.Base.Strings.{codes}
use arxdb.Seed.Corpus.{CorpusNode}

abbrev pub n1 : CorpusNode
n1 = record {
  key = codes "N1";
  claim =
      codes "the scaling flow phi_t on the adele class space has closed orbits "
      ++ codes "equal to the primes, with length log p";
  domain = codes "math";
  polarity = true;
}

abbrev pub n2 : CorpusNode
n2 = record {
  key = codes "N2";
  claim =
      codes "S(T) = (1/pi) arg zeta(1/2+iT) = -(1/pi) sum_p sum_k p^(-k/2) sin(k T "
      ++ codes "log p)/k";
  domain = codes "math";
  polarity = true;
}

abbrev pub n3 : CorpusNode
n3 = record {
  key = codes "N3";
  claim = codes "N(T) = theta(T)/pi + 1 + S(T)";
  domain = codes "math";
  polarity = true;
}

abbrev pub n4 : CorpusNode
n4 = record {
  key = codes "N4";
  claim = codes "H_BK = -i(x d/dx + 1/2) has purely continuous spectrum";
  domain = codes "math";
  polarity = true;
}

abbrev pub n5 : CorpusNode
n5 = record {
  key = codes "N5";
  claim = codes "no self-adjoint realization of H_BK yields the Riemann zeros";
  domain = codes "math";
  polarity = true;
}

abbrev pub n6 : CorpusNode
n6 = record {
  key = codes "N6";
  claim = codes "the first 10^13 nontrivial zeros of zeta lie on the critical line";
  domain = codes "math";
  polarity = true;
}

abbrev pub n7 : CorpusNode
n7 = record { key = codes "N7"; claim = codes "RH is true"; domain = codes "math"; polarity = true }

abbrev pub n8 : CorpusNode
n8 = record {
  key = codes "N8";
  claim = codes "the Selberg zeta zeros obey RH";
  domain = codes "math";
  polarity = true;
}

abbrev pub n9 : CorpusNode
n9 = record {
  key = codes "N9";
  claim =
      codes "there exists a self-adjoint operator whose eigenvalues are the "
      ++ codes "imaginary parts of the nontrivial zeros of zeta";
  domain = codes "math";
  polarity = true;
}

abbrev pub n10 : CorpusNode
n10 = record {
  key = codes "N10";
  claim =
      codes "zeta(s) = prod_p (1 - p^(-s))^(-1) is the partition function of the "
      ++ codes "primon gas: each prime p is a 'primon' with energy log p, and s is "
      ++ codes "the inverse temperature";
  domain = codes "math";
  polarity = true;
}

abbrev pub n11 : CorpusNode
n11 = record {
  key = codes "N11";
  claim =
      codes "F(s) = -log zeta(s) = sum_p log(1 - p^(-s)) is the free energy of the "
      ++ codes "primon gas";
  domain = codes "math";
  polarity = true;
}

abbrev pub n12 : CorpusNode
n12 = record {
  key = codes "N12";
  claim =
      codes "the zeros of zeta are the singularities of the free energy F(s), i.e. "
      ++ codes "the phase transitions of the primon gas";
  domain = codes "math";
  polarity = true;
}

abbrev pub n13 : CorpusNode
n13 = record {
  key = codes "N13";
  claim =
      codes "self-adjointness (reality of the free energy on the critical line) is "
      ++ codes "the missing structure that collapses the 4-fold zero symmetry {rho, "
      ++ codes "1-rho, rho-bar, 1-rho-bar} to 2-fold (rho = 1-rho-bar, i.e. Re(rho) = "
      ++ codes "1/2)";
  domain = codes "math";
  polarity = true;
}

abbrev pub n14 : CorpusNode
n14 = record {
  key = codes "N14";
  claim =
      codes "xi(1/2+it) = integral_{-inf}^{inf} Phi(u) e^(iut) du, with Phi(u) = "
      ++ codes "sum_{n>=1} (4 pi^2 n^4 e^(9u/2) - 6 pi n^2 e^(5u/2)) e^(-pi n^2 "
      ++ codes "e^(2u))";
  domain = codes "math";
  polarity = true;
}

abbrev pub n15 : CorpusNode
n15 = record {
  key = codes "N15";
  claim =
      codes "Polya's criterion: if Phi is a Polya frequency function (totally "
      ++ codes "positive, all minors >= 0), then xi(1/2+it) has all real zeros";
  domain = codes "math";
  polarity = true;
}

abbrev pub n16 : CorpusNode
n16 = record {
  key = codes "N16";
  claim =
      codes "RH is equivalent to Phi being totally positive (the de Branges route; "
      ++ codes "the converse to Polya is open)";
  domain = codes "math";
  polarity = true;
}

abbrev pub n17 : CorpusNode
n17 = record {
  key = codes "N17";
  claim =
      codes "S(T) = (1/pi) arg zeta(1/2+iT) satisfies Selberg's central limit "
      ++ codes "theorem: S(T)/sqrt((1/(2 pi^2)) log log T) -> N(0,1) in distribution";
  domain = codes "math";
  polarity = true;
}

abbrev pub n18 : CorpusNode
n18 = record {
  key = codes "N18";
  claim =
      codes "S(t) = Omega_+-[(log t)^(1/3) (log log t)^(-7/3)] (Selberg 1946); "
      ++ codes "Tsang (1986) removed the (log log t)^(-7/3) factor to get the clean "
      ++ codes "(log T/log log T)^(1/3)";
  domain = codes "math";
  polarity = true;
}
