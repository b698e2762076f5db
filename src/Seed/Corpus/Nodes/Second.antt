-- ===== src/Seed/Corpus/Nodes/Second.antt =====
-- src/arxdb/seed/corpus.py: nodes of the corpus, N19 to N36.
use arxdb.Base.{true, false, ◌++◌}
use arxdb.Base.Strings.{codes}
use arxdb.Seed.Corpus.{CorpusNode}

abbrev pub n19 : CorpusNode
n19 = record {
  key = codes "N19";
  claim =
      codes "the zero-density estimate N(sigma, T+H) - N(sigma, T) << H "
      ++ codes "(H/sqrt(T))^((1/2-sigma)/2) log T (Selberg)";
  domain = codes "math";
  polarity = true;
}

abbrev pub n20 : CorpusNode
n20 = record {
  key = codes "N20";
  claim =
      codes "the 1/3 exponent is the balance point between aligning the prime "
      ++ codes "generators (W ~ sqrt(k)) and keeping the spectrum quiet (the "
      ++ codes "zero-density bound caps k)";
  domain = codes "math";
  polarity = true;
}

abbrev pub n21 : CorpusNode
n21 = record {
  key = codes "N21";
  claim =
      codes "the critical line Re(s) = 1/2 is a renormalization-group fixed point: "
      ++ codes "primes = relevant operator (input), zeros = irrelevant operator "
      ++ codes "(output), valve = running coupling";
  domain = codes "math";
  polarity = true;
}

abbrev pub n22 : CorpusNode
n22 = record {
  key = codes "N22";
  claim =
      codes "the functional equation xi(s) = xi(1-s) is exactly the statement that "
      ++ codes "xi is self-dual under the Mellin transform";
  domain = codes "math";
  polarity = true;
}

abbrev pub n23 : CorpusNode
n23 = record {
  key = codes "N23";
  claim =
      codes "the valve is the Mellin transform (the specific Poisson summation for "
      ++ codes "zeta); self-duality gives symmetry about the line but not placement "
      ++ codes "on it";
  domain = codes "math";
  polarity = true;
}

abbrev pub n24 : CorpusNode
n24 = record {
  key = codes "N24";
  claim =
      codes "positivity is the missing structure: the single condition that forces "
      ++ codes "the zeros onto the critical line, unifying the Hilbert-Polya operator "
      ++ codes "(N9), self-adjointness (N13), total positivity (N16), and what the "
      ++ codes "Mellin transform fails to carry (N23)";
  domain = codes "math";
  polarity = true;
}

abbrev pub n25 : CorpusNode
n25 = record {
  key = codes "N25";
  claim =
      codes "the primes are the spectrum (input) of the system: the closed orbits "
      ++ codes "of the flow (N1), the primons of the gas (N10), and the relevant "
      ++ codes "operator of the RG flow (N21) are three faces of one claim";
  domain = codes "math";
  polarity = true;
}

abbrev pub n26 : CorpusNode
n26 = record {
  key = codes "N26";
  claim =
      codes "the critical line Re(s)=1/2 is a balance point: the phase transitions "
      ++ codes "of the primon gas (N12), the 1/3 exponent balance (N20), and the RG "
      ++ codes "fixed point (N21) all locate the same equilibrium";
  domain = codes "math";
  polarity = true;
}

abbrev pub n27 : CorpusNode
n27 = record {
  key = codes "N27";
  claim =
      codes "the primes<->zeros correspondence is a self-encoding double helix: "
      ++ codes "two complementary strands (primes = arithmetic, zeros = spectral) "
      ++ codes "linked by the functional equation, with the phase arg zeta as the "
      ++ codes "twist";
  domain = codes "math";
  polarity = true;
}

abbrev pub n28 : CorpusNode
n28 = record {
  key = codes "N28";
  claim =
      codes "the Riemann-von Mangoldt formula N(T) = theta(T)/pi + 1 + S(T) is the "
      ++ codes "topological identity Lk = Tw + Wr (Calugareanu-White-Fuller): gamma "
      ++ codes "factor = twist, zeta = writhe, N(T) = linking number";
  domain = codes "math";
  polarity = true;
}

abbrev pub n29 : CorpusNode
n29 = record {
  key = codes "N29";
  claim =
      codes "RH is equivalent to the mean writhe being bounded: integral_0^T S(t) "
      ++ codes "dt = O(log T)";
  domain = codes "math";
  polarity = false;
}

abbrev pub n30 : CorpusNode
n30 = record {
  key = codes "N30";
  claim = codes "RH is equivalent to the pointwise bound S(T) = O(log T / log log T)";
  domain = codes "math";
  polarity = false;
}

abbrev pub n31 : CorpusNode
n31 = record {
  key = codes "N31";
  claim =
      codes "RH is equivalent to: all zeros of det(1-L_beta) lie on Re(beta)=1/4 "
      ++ codes "(Mayer's transfer-operator theorem)";
  domain = codes "math";
  polarity = true;
}

abbrev pub n32 : CorpusNode
n32 = record {
  key = codes "N32";
  claim = codes "self_adjoint bessel_kernel(-0.5, 60)";
  domain = codes "math";
  polarity = true;
}

abbrev pub n33 : CorpusNode
n33 = record {
  key = codes "N33";
  claim = codes "complex_spectrum bessel_kernel(-0.5+2j, 40)";
  domain = codes "math";
  polarity = true;
}

abbrev pub n34 : CorpusNode
n34 = record {
  key = codes "N34";
  claim =
      codes "low_rank bessel_kernel(-0.5+2j, 40) - bessel_kernel(-0.5+2j, " ++ codes "40).conj().T";
  domain = codes "math";
  polarity = true;
}

abbrev pub n35 : CorpusNode
n35 = record {
  key = codes "N35";
  claim = codes "the first nontrivial zero rho_1 has multiplicity 1";
  domain = codes "math";
  polarity = true;
}

abbrev pub n36 : CorpusNode
n36 = record {
  key = codes "N36";
  claim = codes "the spectrum of L_beta leaves the real axis linearly in gamma";
  domain = codes "math";
  polarity = true;
}
