-- ===== src/Verification/Checkers.antt =====
-- src/arxdb/verification/checkers: base.py here, a module for each checker. The dict of details
-- and the text of an error are diagnostics; of them only the kind of a failure is modelled.
pub mod Backends
pub mod Runs
pub mod Roster
pub mod Cas
pub mod Z3
pub mod Lean
pub mod Spectral
use arxdb.Base.{
  ℕ, zero, suc, ◌-◌, Bool, true, false, Option, none, some, [], ltb, nat_beq, if◌then◌else◌, Eq,
  nat_eq, bytes_eq, pair_eq,
}
use arxdb.Base.Result.{Error, Result, ok, err, checker_timeout}
use arxdb.Verification.Schema.{Kappa, k0}

pub data Failure : Type 0 where
  not_an_equation parse_error sides_not_equal : Failure
  counter_model_found returned_unknown : Failure
  binary_not_found no_proof_supplied lean_timed_out failed_to_run proof_rejected : Failure
  malformed_claim evaluation_error property_failed : Failure
  timed_out : Failure

pub record CheckerResult : Type 0 where
  pub passed : Bool
  pub kappa : Kappa
  pub error_msg : Option Failure

abbrev pub passing : Kappa → CheckerResult
passing k = record { passed = true; kappa = k; error_msg = none }

abbrev pub failing : Failure → CheckerResult
failing reason = record { passed = false; kappa = k0; error_msg = some reason }

-- A call of a library: the milliseconds that it takes, and what it returns or raises.
pub record Call {ℓ} (A : Type ℓ) : Type ℓ where
  pub cost : ℕ
  pub outcome : Result A

-- Code under the interval timer: what is left of it before and after. It fires once.
abbrev pub Run {ℓ} : Type ℓ → Type ℓ
Run A = Option ℕ → Result A × Option ℕ

-- A call that outlasts the timer ends in the exception that the handler raises.
unfoldable pub perform {ℓ} : {A : Type ℓ} → Call A → Run A
perform call none = (call.outcome, none)
perform call (some left) =
    if ltb call.cost left
    then (call.outcome, some (left - call.cost))
    else (err checker_timeout, none)

abbrev pub done {ℓ} : {A : Type ℓ} → A → Run A
done a timer = (ok a, timer)

abbrev pub raised {ℓ} : {A : Type ℓ} → Error → Run A
raised e timer = (err e, timer)

abbrev pub continue_with {ℓ κ} :
    {A : Type ℓ} {B : Type κ} → Result A × Option ℕ → (A → Run B) → Result B × Option ℕ
continue_with (err e, timer) next = (err e, timer)
continue_with (ok a, timer) next = next a timer

infixl 5 ◌>>=◌
abbrev pub ◌>>=◌ {ℓ κ} : {A : Type ℓ} {B : Type κ} → Run A → (A → Run B) → Run B
(step >>= next) timer = continue_with (step timer) next

abbrev pub handle {ℓ} :
    {A : Type ℓ} → (Error → Bool) → Result A × Option ℕ → Result (Option A) × Option ℕ
handle caught (ok a, timer) = (ok (some a), timer)
handle caught (err e, timer) = if caught e then (ok none, timer) else (err e, timer)

-- `try: ... except (...)`: none if one of the exceptions that are caught was raised.
abbrev pub attempt {ℓ} : {A : Type ℓ} → (Error → Bool) → Run A → Run (Option A)
attempt caught step timer = handle caught (step timer)

-- No budget, or one that is not positive, sets no timer.
unfoldable pub run_bounded {ℓ} : {A : Type ℓ} → Run A → ℕ → Result A
run_bounded fn timeout = (fn (if nat_beq timeout 0 then none else some timeout)).0

-- `try: return run_bounded(...) except CheckerTimeout: ...`
unfoldable pub or_timed_out : Result CheckerResult → Result CheckerResult
or_timed_out (ok result) = ok result
or_timed_out (err checker_timeout) = ok (failing timed_out)
or_timed_out (err e) = err e
