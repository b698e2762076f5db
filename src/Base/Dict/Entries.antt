-- ===== src/Base/Dict/Entries.antt =====
-- The entries of a dict as a list.
use arxdb.Base.{
  ◌≡◌, refl, sym, ap, ◌∙◌, ◌↔◌, ◌⊎◌, inl, inr, true, some, [], ◌∷◌, Memᴰ, Bool-cases, Option-cases,
  ◌==◌, ==_iff, eq_of_==, nat_eq, bytes_eq, pair_eq, Eq,
}
use mathlib.Core.List.Memᴰ
use mathlib.Core.Logic.{⊎_elim}
use arxdb.Base.Dict.{Dict, get, set, has, keys}
use arxdb.Storage.Hashing.{Hash}

pub Memᴰ-set :
    {K V : Type 0} ⦃e : Eq K⦄ (d : Dict K V) (k : K) (v : V) (j : K) (w : V)
    → Memᴰ (j, w) (set d k v)
    → ((j ≡ k) × (w ≡ v)) ⊎ Memᴰ (j, w) d
unfolding set
Memᴰ-set [] k v j w m =
    ⊎_elim (λ (q : _ ≡ _). inl (ap (λ x. x.0) q, ap (λ x. x.1) q)) (λ t. absurd (Memᴰ.not-nil t))
      (Memᴰ.cases_cons m)
Memᴰ-set ((i, u) ∷ d) k v j w m = elim (Bool-cases (i == k)) [
  | inl t ↦
      ⊎_elim (λ (q : _ ≡ _). inl (ap (λ x. x.0) q ∙ eq_of_== i k t, ap (λ x. x.1) q))
        (λ r. inr (Memᴰ.tail r)) (Memᴰ.cases_cons (rw t at m))
  | inr f ↦
      ⊎_elim (λ (q : _ ≡ _). inr (Memᴰ.head q))
        (λ r. ⊎_elim inl (λ x. inr (Memᴰ.tail x)) (Memᴰ-set d k v j w r))
        (Memᴰ.cases_cons (rw f at m))
]

pub get-Memᴰ :
    {K V : Type 0} ⦃e : Eq K⦄ (d : Dict K V) (k : K) (v : V) → get d k ≡ some v → Memᴰ (k, v) d
unfolding get
get-Memᴰ [] k v h = absurd (cc h)
get-Memᴰ ((j, w) ∷ d) k v h = elim (Bool-cases (j == k)) [
  | inl t ↦
      let key = eq_of_== j k t in let value : w ≡ v = cc (rw t at h) in Memᴰ.head (cc (key, value))
  | inr f ↦ Memᴰ.tail (get-Memᴰ d k v (rw f at h))
]

pub Memᴰ-has : {V : Type 0} (d : Dict Hash V) (k : Hash) (v : V) → Memᴰ (k, v) d → has d k ≡ true
unfolding get
Memᴰ-has {V = W} [] k v m = absurd (Memᴰ.not-nil m)
Memᴰ-has {V = W} ((j, w) ∷ d) k v m =
    let later = λ (t : Memᴰ (k, v) d). Memᴰ-has d k v t in
    elim (Bool-cases (j == k)) [
      | inl t ↦ rw (t, has) refl
      | inr f ↦
          rw (f, has)
            (⊎_elim
              (λ (q : _ ≡ _). absurd (cc (f, (==_iff j k).1 (ap (λ (x : Hash × W). x.0) (sym q)))))
              later (Memᴰ.cases_cons m))
    ]

pub has-Memᴰ : {V : Type 0} (d : Dict Hash V) (k : Hash) → has d k ≡ true → (v : V) × Memᴰ (k, v) d
has-Memᴰ d k h = elim (Option-cases (get d k)) [
  | inl z ↦ absurd (cc (rw (z, has) at h))
  | inr (v, z) ↦ (v, get-Memᴰ d k v z)
]

pub Memᴰ-keys_iff :
    {V : Type 0} (d : Dict Hash V) (k : Hash) → Memᴰ k (keys d) ↔ ((v : V) × Memᴰ (k, v) d)
Memᴰ-keys_iff [] k = (λ m. absurd (Memᴰ.not-nil m), λ (v, m). absurd (Memᴰ.not-nil m))
Memᴰ-keys_iff {V = W} ((j, w) ∷ d) k =
    let rest = Memᴰ-keys_iff d k in
    (
      λ m.
          ⊎_elim (λ (q : k ≡ j). (w, Memᴰ.head (ap (λ (z : Hash). (z, w)) q)))
            (λ t. let (v, there) = rest.0 t in (v, Memᴰ.tail there)) (Memᴰ.cases_cons m),
      λ (v, m).
          ⊎_elim (λ (q : _ ≡ _). Memᴰ.head (ap (λ (z : Hash × W). z.0) q))
            (λ t. Memᴰ.tail (rest.1 (v, t))) (Memᴰ.cases_cons m),
    )
