-- ===== src/Examples/Backends.antt =====
-- Instances of the text functions and of the checkers' libraries that compute: a formula or an
-- expression is its text, a matrix is a number, a property holds of the number zero.
use arxdb.Base.{
  ℕ, ◌/◌, none, some, [], ◌∷◌, ltb, nat_beq, if◌then◌else◌, ◌==◌, nat_eq, bytes_eq, pair_eq, length,
  contains,
}
use arxdb.Base.Strings.{Strings}
use arxdb.Base.Result.{ok}
use arxdb.Verification.Schema.{Text}
use arxdb.Verification.Checkers.{Call}
use arxdb.Verification.Checkers.Backends.{Sympy, Z3, Numpy, Lean, unsat, sat, pos}

instance abbrev pub toy_strings : Strings
toy_strings = record {
  lower = λ text. text;
  is_space = λ c. nat_beq c b' ';
  search = λ pattern text. pattern == text;
}

abbrev at_once {ℓ} : {A : Type ℓ} → A → Call A
at_once a = record { cost = 1; outcome = ok a }

instance abbrev pub toy_sympy : Sympy
toy_sympy = record {
  Expr = Text;
  parse_expr = λ text. at_once text;
  difference_is_zero = λ lhs rhs. at_once (lhs == rhs);
}

instance abbrev pub toy_z3 : Z3
toy_z3 = record {
  BoolRef = Text;
  evaluate_formula = λ text. at_once (some text);
  solve = λ timeout ps c. at_once (if contains ps c then unsat else sat);
}

instance abbrev pub toy_numpy : Numpy
toy_numpy = record {
  Object = ℕ;
  Array = ℕ;
  Float = ℕ;
  evaluate_object = λ text. at_once (length text);
  asarray = λ obj. at_once obj;
  shape = λ arr. 1 ∷ 1 ∷ [];
  hermitian_err = λ arr. at_once 0;
  symmetry_err = λ arr. at_once 0;
  max_im_eig = λ arr. at_once 0;
  svd = λ arr. at_once (arr ∷ []);
  less = ltb;
  quotient = λ a b. a / b;
  zero_float = 0;
  ten_float = 10;
  infinity = 1000;
  default_tol = 1;
  parse_int = λ text. at_once (pos (length text));
}

instance abbrev pub toy_lean : Lean
toy_lean = record {
  lean_binary = none;
  write_file = λ source. ok source;
  run_binary = λ binary file timeout. ok 1;
}
