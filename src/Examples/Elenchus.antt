-- ===== src/Examples/Elenchus.antt =====
-- The verdicts at concrete edges.
use arxdb.Base.{◌≡◌, ◌↔◌, true, [], ◌∷◌, Memᴰ, nat_eq, bytes_eq, pair_eq}
use arxdb.Base.Strings.{codes}
use arxdb.Verification.Schema.{Node, deduction, pass, soft_flag, hard_veto}
use arxdb.Verification.Elenchus.{evaluate}
use arxdb.Verification.Elenchus.Grounds.{IsRejectable, IsUnnamed}
use arxdb.Verification.Elenchus.Verdicts.{evaluate-verdict, evaluate_as_set}
use arxdb.Examples.Backends.{toy_strings, toy_sympy, toy_z3, toy_numpy, toy_lean}
use mathlib.Core.List.Memᴰ
use mathlib.Core.Logic.{⊎_elim}

abbrev human : Node
human = record { claim = codes "socrates human"; domain = codes "ethics"; polarity = true }

abbrev mortal : Node
mortal = record { claim = codes "socrates mortal"; domain = codes "ethics"; polarity = true }

evaluate-verdict_example :
    (((evaluate (human ∷ []) mortal (codes "syllogism") deduction).verdict ≡ hard_veto)
      ↔ IsRejectable (human ∷ []) mortal (codes "syllogism") deduction)
    × (((evaluate (human ∷ []) mortal (codes "syllogism") deduction).verdict ≡ soft_flag) ↔ (
        ¬ IsRejectable (human ∷ []) mortal (codes "syllogism") deduction
        × IsUnnamed (human ∷ []) mortal (codes "syllogism") deduction))
    × (((evaluate (human ∷ []) mortal (codes "syllogism") deduction).verdict ≡ pass) ↔ (
        ¬ IsRejectable (human ∷ []) mortal (codes "syllogism") deduction
        × ¬ IsUnnamed (human ∷ []) mortal (codes "syllogism") deduction))
evaluate-verdict_example = evaluate-verdict (human ∷ []) mortal (codes "syllogism") deduction

swapped : (p : Node) → Memᴰ p (human ∷ mortal ∷ []) ↔ Memᴰ p (mortal ∷ human ∷ [])
swapped p = (
  λ m.
      ⊎_elim (λ e. Memᴰ.tail (Memᴰ.head e))
        (λ r. ⊎_elim (λ e. Memᴰ.head e) (λ q. absurd (Memᴰ.not-nil q)) (Memᴰ.cases_cons r))
        (Memᴰ.cases_cons m),
  λ m.
      ⊎_elim (λ e. Memᴰ.tail (Memᴰ.head e))
        (λ r. ⊎_elim (λ e. Memᴰ.head e) (λ q. absurd (Memᴰ.not-nil q)) (Memᴰ.cases_cons r))
        (Memᴰ.cases_cons m),
)

evaluate_as_set_example :
    (evaluate (human ∷ mortal ∷ []) mortal (codes "syllogism") deduction).verdict
    ≡ (evaluate (mortal ∷ human ∷ []) mortal (codes "syllogism") deduction).verdict
evaluate_as_set_example =
    evaluate_as_set (human ∷ mortal ∷ []) (mortal ∷ human ∷ []) mortal (codes "syllogism") deduction
      swapped
