-- ===== src/Verification/Checkers/Backends.antt =====
-- The libraries behind the checkers of src/arxdb/verification/checkers: sympy, z3, numpy with
-- mpmath, and the Lean binary with the file system it reads from.
use arxdb.Base.{ℕ, Bool, Option, List, nat_eq, Bytes, bytes_eq, pair_eq}
use arxdb.Base.Result.{Result}
use arxdb.Verification.Schema.{Text}
use arxdb.Verification.Checkers.{Call}

pub data Satisfiability : Type 0 where
  unsat sat unknown : Satisfiability

-- Python's `int`.
pub data ℤ : Type 0 where
  pos negsuc : ℕ → ℤ

pub record Sympy : Type 1 where
  pub Expr : Type 0
  -- `parse_expr(text, transformations="all")`
  pub parse_expr : Text → Call Expr
  -- `simplify(lhs - rhs) == 0`
  pub difference_is_zero : Expr → Expr → Call Bool

pub record Z3 : Type 1 where
  pub BoolRef : Type 0
  -- `eval(claim, {"__builtins__": {}}, _NAMESPACE)`, none if the value is no `BoolRef`.
  pub evaluate_formula : Text → Call (Option BoolRef)
  -- A solver with a budget, which is given the conjunction of the premises and the negated conclusion.
  pub solve : ℕ → List BoolRef → BoolRef → Call Satisfiability

pub record Numpy : Type 1 where
  pub Object : Type 0
  pub Array : Type 0
  pub Float : Type 0
  -- `eval(expr, {"__builtins__": {}}, _NAMESPACE)`
  pub evaluate_object : Text → Call Object
  -- `np.asarray(obj, dtype=complex)`
  pub asarray : Object → Call Array
  pub shape : Array → List ℕ
  -- `np.max(np.abs(M - M.conj().T))`
  pub hermitian_err : Array → Call Float
  -- `np.max(np.abs(M - M.T))`
  pub symmetry_err : Array → Call Float
  -- `np.max(np.abs(np.linalg.eigvals(M).imag))`
  pub max_im_eig : Array → Call Float
  -- `np.linalg.svd(M, compute_uv=False)`
  pub svd : Array → Call (List Float)
  pub less : Float → Float → Bool
  pub quotient : Float → Float → Float
  pub zero_float : Float
  pub ten_float : Float
  pub infinity : Float
  pub default_tol : Float
  -- `int(text)`
  pub parse_int : Text → Call ℤ

pub record Lean : Type 0 where
  -- `LEAN_BINARY`
  pub lean_binary : Option Text
  -- The temporary file with the proof.
  pub write_file : Bytes → Result Text
  -- `subprocess.run([binary, path], timeout=...)`: the return code.
  pub run_binary : Text → Text → ℕ → Result ℕ
