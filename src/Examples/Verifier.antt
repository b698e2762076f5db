-- ===== src/Examples/Verifier.antt =====
-- The verifier at an equation that holds and at one that does not.
use arxdb.Base.{
  ◌≤◌, ◌≡◌, refl, ◌⊎◌, true, none, some, [], Memᴰ, nat_eq, bytes_eq, pair_eq, any, contains,
}
use arxdb.Base.Tests.{bytes_beq}
use arxdb.Base.Strings.{codes, strip}
use arxdb.Base.Result.{ok}
use arxdb.Verification.Schema.{Text, Node, definition, numerical, pass, hard_veto, k0, k2, k_inf}
use arxdb.Verification.Kappa.{rank}
use arxdb.Verification.Elenchus.{
  ElenchusResult, evaluate, category_error, self_model_leak, non_sequitur, empty_rule, circularity,
  fired, verdict_of,
}
use arxdb.Verification.Elenchus.Grounds.{IsRejectable}
use arxdb.Examples.Backends.{toy_strings, toy_sympy, toy_z3, toy_numpy, toy_lean}
use arxdb.Verification.Checkers.{
  passing, failing, perform, run_bounded, or_timed_out, sides_not_equal,
}
use arxdb.Verification.Checkers.Cas
use arxdb.Verification.Checkers.Cas.{cut, parse_sides, compare_sides, check_equation}
use arxdb.Verification.Checkers.Roster.{normalize, ground_claims}
use arxdb.Verification.Verifier.{
  VerificationResult, verify, check_formally, checker_for, run_checker, conclude,
}
use arxdb.Verification.Verifier.Evidence.{IsWarranted}
use arxdb.Verification.Verifier.Outcome.{verify_accepted, verify_rejected, HasFailedCheck}
use arxdb.Verification.Verifier.Strength.{ceiling, verify-kappa}

abbrev pub equation : Node
equation = record { claim = codes "a=a"; domain = codes "sets"; polarity = true }

abbrev false_equation : Node
false_equation = record { claim = codes "a=b"; domain = codes "sets"; polarity = true }

abbrev pub by_identity : Text
by_identity = codes "identity"

abbrev nothing_fired : ElenchusResult
nothing_fired = record { verdict = pass; flags = [] }

abbrev pub equation_result : VerificationResult
equation_result = record {
  verdict = pass;
  kappa = k2;
  elenchus = nothing_fired;
  checker = some (passing k2);
  edge_type = numerical;
  rule = by_identity;
}

abbrev false_equation_result : VerificationResult
false_equation_result = record {
  verdict = hard_veto;
  kappa = k0;
  elenchus = nothing_fired;
  checker = some (failing sides_not_equal);
  edge_type = numerical;
  rule = by_identity;
}

pub equation_verified : verify [] equation by_identity numerical none 5000 ≡ ok equation_result
unfolding verify evaluate fired verdict_of category_error self_model_leak non_sequitur empty_rule
    circularity contains any strip check_formally checker_for run_checker conclude Cas.check
    check_equation parse_sides compare_sides perform run_bounded or_timed_out cut bytes_beq
equation_verified = refl

false_equation_verified :
    verify [] false_equation by_identity numerical none 5000 ≡ ok false_equation_result
unfolding verify evaluate fired verdict_of category_error self_model_leak non_sequitur empty_rule
    circularity contains any strip check_formally checker_for run_checker conclude Cas.check
    check_equation parse_sides compare_sides perform run_bounded or_timed_out cut bytes_beq
false_equation_verified = refl

verify_accepted_example :
    (equation_result.verdict ≡ (evaluate [] equation by_identity numerical).verdict)
    × (¬ IsRejectable [] equation by_identity numerical)
    × IsWarranted [] equation none 5000 numerical k2
verify_accepted_example =
    verify_accepted [] equation by_identity numerical none 5000 equation_result equation_verified
      refl

verify_rejected_example :
    (k0 ≡ k0)
    × (IsRejectable [] false_equation by_identity numerical
        ⊎ HasFailedCheck [] false_equation by_identity numerical none 5000)
verify_rejected_example =
    verify_rejected [] false_equation by_identity numerical none 5000 false_equation_result
      false_equation_verified refl

verify-kappa_example :
    (rank k2 ≤ rank (ceiling numerical))
    × (k2 ≡ k_inf → (numerical ≡ definition) × Memᴰ (normalize equation.claim) ground_claims)
verify-kappa_example =
    verify-kappa [] equation none 5000 by_identity numerical equation_result equation_verified
