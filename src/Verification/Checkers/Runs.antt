-- ===== src/Verification/Checkers/Runs.antt =====
-- What a run under the timer of src/arxdb/verification/checkers/base.py that ends well has done.
use arxdb.Base.{
  ℕ, ◌≡◌, refl, ◌⊎◌, inl, inr, Bool, true, Option, none, some, ltb, Bool-cases, nat_eq, bytes_eq,
  pair_eq,
}
use arxdb.Base.Result.{Error, Result, ok, err, checker_timeout}
use arxdb.Verification.Checkers.{
  CheckerResult, Call, Run, perform, handle, continue_with, or_timed_out, failing, timed_out,
}

module _ {ℓ} {A : Type ℓ} where
  pub perform_ok :
      (call : Call A) (timer : Option ℕ) (a : A)
      → (perform call timer).0 ≡ ok a
      → call.outcome ≡ ok a
  unfolding perform
  perform_ok call none a h = h
  perform_ok call (some left) a h = elim (Bool-cases (ltb call.cost left)) [
    | inl in_time ↦ rw in_time at h
    | inr late ↦ absurd (cc (rw late at h))
  ]

  pub handle-some :
      (caught : Error → Bool) (r : Result A × Option ℕ) (a : A)
      → (handle caught r).0 ≡ ok (some a)
      → r.0 ≡ ok a
  handle-some caught (ok b, timer) a h = cc h
  handle-some caught (err e, timer) a h = elim (Bool-cases (caught e)) [
    | inl t ↦ absurd (cc (rw t at h))
    | inr f ↦ absurd (cc (rw f at h))
  ]

module _ {A : Type 0} {B : Type 0} where
  -- A step that goes on and ends well has ended well itself.
  pub continue_with_ok :
      (r : Result A × Option ℕ) (next : A → Run B) (b : B)
      → (continue_with r next).0 ≡ ok b
      → (a : A) × (r.0 ≡ ok a) × ((next a r.1).0 ≡ ok b)
  continue_with_ok (err e, timer) next b h = absurd (cc h)
  continue_with_ok (ok a, timer) next b h = (a, refl, h)

or_timed_out-cases :
    (e : Error) → (or_timed_out (err e) ≡ err e) ⊎ (or_timed_out (err e) ≡ ok (failing timed_out))
unfolding or_timed_out
or_timed_out-cases checker_timeout = inr refl
or_timed_out-cases _ = inl refl

pub or_timed_out_passed :
    (r : Result CheckerResult) (result : CheckerResult)
    → or_timed_out r ≡ ok result
    → result.passed ≡ true
    → r ≡ ok result
unfolding or_timed_out
or_timed_out_passed (ok x) result h p = h
or_timed_out_passed (err e) result h p = elim (or_timed_out-cases e) [
  | inl same ↦ absurd (cc (same, h))
  | inr late ↦ absurd (cc (late, h, p))
]
