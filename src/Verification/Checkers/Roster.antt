-- ===== src/Verification/Checkers/Roster.antt =====
-- src/arxdb/verification/checkers/roster.py
use arxdb.Base.{List, [], ◌∷◌, map, if◌then◌else◌, nat_eq, bytes_eq, pair_eq, contains}
use arxdb.Base.Strings.{Strings, codes, split, join_by_space}
use arxdb.Base.Result.{Result, ok}
use arxdb.Verification.Schema.{Text, Node, Kappa, k1, k_inf}
use arxdb.Verification.Checkers.{CheckerResult, passing}

-- `ROSTER`
abbrev pub ground_claims : List Text
ground_claims = map codes (
    "0 is a natural number" ∷ "the successor of a natural number is a natural number"
    ∷ "a prime is an integer greater than 1 with exactly two positive divisors"
    ∷ "the empty set has no elements" ∷ "for all x, x = x" ∷ [])

module _ ⦃u : Strings⦄ where
  unfoldable pub normalize : Text → Text
  unfolding split join_by_space
  normalize claim = join_by_space (split claim)

  unfoldable pub check_roster : Node → Kappa
  unfolding normalize contains
  check_roster node = if contains ground_claims (normalize node.claim) then k_inf else k1

  unfoldable pub check : Node → Result CheckerResult
  unfolding check_roster
  check conclusion = ok (passing (check_roster conclusion))
