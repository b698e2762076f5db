-- ===== src/Query/Reachability/Lookups.antt =====
-- Lookups of all premises of an edge, and the update that only raises a value.
use arxdb.Base.{
  ℕ, ◌≤◌, ◌≡◌, refl, sym, subst, ◌⊎◌, inl, inr, some, List, [], ◌∷◌, Memᴰ, arith, ltb, Bool-cases,
  Option-cases, ◌==◌, ==_iff, ==_refl, eq_of_==, nat_eq, bytes_eq, pair_eq,
}
use mathlib.Core.Logic.{⊎_elim}
use mathlib.Core.List.Memᴰ
use arxdb.Base.Dict.{Dict, get, get-set}
use arxdb.Storage.Hashing.{Hash}
use arxdb.Verification.Schema.{Kappa}
use arxdb.Verification.Kappa.{rank}
use arxdb.Query.Reachability.{stronger, raise, lookups}

module _ {ℓ} {V : Type ℓ} where
  -- Every premise has a value, and each value is that of a premise.
  pub lookups-some :
      (d : Dict Hash V) (ps : List Hash) (vs : List V)
      → lookups d ps ≡ some vs
      → ((p : Hash) → Memᴰ p ps → (v : V) × (get d p ≡ some v) × Memᴰ v vs)
        × ((v : V) → Memᴰ v vs → (p : Hash) × Memᴰ p ps × (get d p ≡ some v))
  unfolding lookups
  lookups-some d [] vs h = (
    λ p m. absurd (Memᴰ.not-nil m),
    λ v m. absurd (Memᴰ.not-nil (subst (Memᴰ v) {x = vs} {y = []} (ground arith) m)),
  )
  lookups-some d (p ∷ ps) vs h = elim (Option-cases (get d p)) [
    | inl n ↦ cc (rw (n, lookups) at h)
    | inr (v, e) ↦ elim (Option-cases (lookups d ps)) [
      | inl n ↦ cc (rw (e, n, lookups) at h)
      | inr (ws, e') ↦
          let q : vs ≡ v ∷ ws = ground arith in
          let (to, from) = lookups-some d ps ws e' in
          rw q (
            λ x m.
                ⊎_elim (λ s. (v, subst (λ z. get d z ≡ some v) (sym s) e, Memᴰ.head refl))
                  (λ t. let (w, ew, mw) = to x t in (w, ew, Memᴰ.tail mw)) (Memᴰ.cases_cons m),
            λ w m.
                ⊎_elim (λ s. (p, Memᴰ.head refl, rw s e))
                  (λ t. let (x, mx, ex) = from w t in (x, Memᴰ.tail mx, ex)) (Memᴰ.cases_cons m),
          )
    ]
  ]

  pub lookups_total :
      (d : Dict Hash V) (ps : List Hash)
      → ((p : Hash) → Memᴰ p ps → (v : V) × (get d p ≡ some v))
      → (vs : List V) × (lookups d ps ≡ some vs)
  unfolding lookups
  lookups_total d [] h = ([], refl)
  lookups_total d (p ∷ ps) h =
      let (v, e) = h p (Memᴰ.head refl) in
      let (vs, e') = lookups_total d ps (λ q m. h q (Memᴰ.tail m)) in (v ∷ vs, ground arith)

-- The value at `n` has rank `r` or more.
abbrev pub AtLeast : Dict Hash Kappa → Hash → ℕ → Type 0
AtLeast d n r = (k : Kappa) × (get d n ≡ some k) × (r ≤ rank k)

pub AtLeast-raise :
    (d : Dict Hash Kappa) (node : Hash) (k : Kappa) (n : Hash) (r : ℕ)
    → AtLeast d n r
    → AtLeast (raise d node k) n r
unfolding raise stronger
AtLeast-raise d node k n r (j, e, h) = elim (Bool-cases (stronger d node k)) [
  | inl t ↦ elim (Bool-cases (node == n)) [
    | inl q ↦ let same = eq_of_== node n q in (k, ground (arith, get-set d node n k), ground arith)
    | inr f ↦ (j, ground (arith, get-set d node n k), h)
  ]
  | inr f ↦ (j, ground arith, h)
]

pub raise-AtLeast :
    (d : Dict Hash Kappa) (node : Hash) (k : Kappa) → AtLeast (raise d node k) node (rank k)
unfolding raise stronger
raise-AtLeast d node k = elim (Option-cases (get d node)) [
  | inl n ↦ (k, ground (arith, get-set d node node k, ==_refl node), omega arith)
  | inr (j, e) ↦ elim (Bool-cases (ltb (rank j) (rank k))) [
    | inl t ↦ (k, ground (arith, get-set d node node k, ==_refl node), omega arith)
    | inr f ↦ (j, ground arith, ground arith)
  ]
]

pub get-raise :
    (d : Dict Hash Kappa) (node : Hash) (k : Kappa) (n : Hash) (j : Kappa)
    → get (raise d node k) n ≡ some j
    → (get d n ≡ some j) ⊎ ((n ≡ node) × (j ≡ k))
unfolding raise stronger
get-raise d node k n j h = ground (arith, get-set d node n k, ==_iff node n)
