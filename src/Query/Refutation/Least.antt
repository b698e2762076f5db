-- ===== src/Query/Refutation/Least.antt =====
-- The labels of src/arxdb/query/refutation.py as the least labelling that its rules derive.
use arxdb.Base.{
  ◌+◌, ◌≡◌, refl, sym, ap, ◌∙◌, subst, ◌↔◌, ◌⊎◌, inl, inr, some, List, [], ◌∷◌, Memᴰ, arith,
  if◌then◌else◌, Bool-cases, nat_eq, bytes_eq, pair_eq, length, contains, contains_iff, sum_over,
  sum_over-bound,
}
use mathlib.Core.List.Memᴰ
use arxdb.Base.Loop.{until_stable, sweep, sweep_loop}
use arxdb.Storage.Hashing.{Hash}
use arxdb.Query.Refutation.{AttackGraph, Labels, members, defeat, label}
use arxdb.Query.Refutation.Attacks.{IsConverse}
use arxdb.Query.Refutation.Grounded.{
  defeat-inv, defeat-keeps, open_at, label_cases, label-same, label-less,
}

defeat-adds : (ts out : List Hash) (t : Hash) → Memᴰ t ts → Memᴰ t (defeat ts out)
unfolding defeat
defeat-adds [] out t m = absurd (Memᴰ.not-nil m)
defeat-adds (x ∷ ts) out t m = elim (Memᴰ.cases_cons m) [
  | inl e ↦ defeat-keeps ts (if contains out x then out else x ∷ out) t (
      subst (λ z. Memᴰ z (if contains out x then out else x ∷ out)) (sym e)
        (elim (Bool-cases (contains out x)) [
          | inl c ↦ rw c ((contains_iff out x).0 c)
          | inr c ↦ rw c (Memᴰ.head refl)
        ]))
  | inr later ↦ defeat-adds ts (if contains out x then out else x ∷ out) t later
]

-- What the rules derive from nothing: an edge is IN if all its attackers are OUT, and OUT if an edge
-- that is IN attacks it.
mutual
  pub data IsIn (g : AttackGraph) (hs : List Hash) : Hash → Type 0 where
    unbeaten :
        {h : Hash}
        → Memᴰ h hs
        → ((a : Hash) → Memᴰ a (members g.attacked_by h) → IsOut g hs a)
        → IsIn g hs h

  pub data IsOut (g : AttackGraph) (hs : List Hash) : Hash → Type 0 where
    beaten : {h : Hash} (a : Hash) → IsIn g hs a → Memᴰ h (members g.attackers a) → IsOut g hs h

module _ (g : AttackGraph) (hs : List Hash) (conv : IsConverse g) where
  attacker : (a h : Hash) → Memᴰ h (members g.attackers a) → Memᴰ a (members g.attacked_by h)
  attacker a h m =
      (contains_iff (members g.attacked_by h) a).0
        (sym (conv a h) ∙ (contains_iff (members g.attackers a) h).1 m)

  pub IsIn-not-IsOut : (h : Hash) → IsIn g hs h → ¬ IsOut g hs h
  IsIn-not-IsOut h (unbeaten m every) (beaten a (unbeaten m' every') hit) =
      elim (every a (attacker a h hit)) [
        | beaten b j hit' ↦ IsIn-not-IsOut b j (every' b (attacker b a hit'))
      ]

  abbrev Derived : Labels → Type 0
  Derived s =
      ((h : Hash) → Memᴰ h s.in_edges → IsIn g hs h)
      × ((h : Hash) → Memᴰ h s.out_edges → IsOut g hs h)
      × ((a : Hash)
          → Memᴰ a s.in_edges
          → (h : Hash) → Memᴰ h (members g.attackers a)
          → Memᴰ h s.out_edges)

  label-Derived : (h : Hash) (s : Labels) → Memᴰ h hs → Derived s → Derived (label g h s).0
  label-Derived h s m (ins, outs, hits) = elim (label_cases g hs h s) [
    | inl (q, _) ↦ subst Derived (sym (ap (λ r. r.0) q)) (ins, outs, hits)
    | inr (q, _, every) ↦
        let here : IsIn g hs h = unbeaten m (λ a ma. outs a (every a ma)) in
        subst Derived (sym (ap (λ r. r.0) q)) (
          λ x mx. elim (Memᴰ.cases_cons mx) [
            | inl e ↦ subst (IsIn g hs) (sym e) here
            | inr old ↦ ins x old
          ],
          λ x mx. elim (defeat-inv (members g.attackers h) s.out_edges x mx) [
            | inl hit ↦ beaten h here hit
            | inr old ↦ outs x old
          ],
          λ a ma x hit. elim (Memᴰ.cases_cons ma) [
            | inl e ↦
                defeat-adds (members g.attackers h) s.out_edges x
                  (subst (λ z. Memᴰ x (members g.attackers z)) e hit)
            | inr old ↦ defeat-keeps (members g.attackers h) s.out_edges x (hits a old x hit)
          ],
        )
  ]

  module _ (t : Labels) (derived : Derived t)
      (closed : (h : Hash)
        → Memᴰ h hs
        → ((a : Hash) → Memᴰ a (members g.attacked_by h) → Memᴰ a t.out_edges)
        → Memᴰ h t.in_edges ⊎ Memᴰ h t.out_edges) where
    mutual
      in_complete : (h : Hash) → IsIn g hs h → Memᴰ h t.in_edges
      in_complete h (unbeaten m every) = elim (closed h m (λ a ma. out_complete a (every a ma))) [
        | inl i ↦ i
        | inr o ↦ absurd (IsIn-not-IsOut h (unbeaten m every) (derived.1 h o))
      ]

      out_complete : (h : Hash) → IsOut g hs h → Memᴰ h t.out_edges
      out_complete h (beaten a i hit) = derived.2 a (in_complete a i) h hit

  -- Where the two dicts hold the same attacks, the labelling loop ends with exactly the edges that
  -- the rules derive.
  pub labelling_least :
      (t : Labels) × (until_stable
          (length hs + 1)
          (sweep (label g) hs)
          (record { in_edges = []; out_edges = [] })
        ≡ some t)
      × ((h : Hash) → (Memᴰ h t.in_edges ↔ IsIn g hs h) × (Memᴰ h t.out_edges ↔ IsOut g hs h))
  labelling_least =
      let start : Labels = record { in_edges = []; out_edges = [] } in
      let bound = sum_over-bound (open_at g hs start) 1 hs (λ h. unfold contains in omega arith) in
      let (t, ends, derived, stop) =
        sweep_loop (label g) Derived (λ s. sum_over (open_at g hs s) hs) hs
          (λ h s m p. label-Derived h s m p) (label-same g hs) (λ h s m p. label-less g hs h s m)
          (length hs + 1) start (omega arith)
          (
            λ h m. absurd (Memᴰ.not-nil m),
            λ h m. absurd (Memᴰ.not-nil m),
            λ a m. absurd (Memᴰ.not-nil m),
          ) in
      let closed : (h : Hash)
          → Memᴰ h hs
          → ((a : Hash) → Memᴰ a (members g.attacked_by h) → Memᴰ a t.out_edges)
          → Memᴰ h t.in_edges ⊎ Memᴰ h t.out_edges =
        λ h m every. elim (label_cases g hs h t) [
          | inl (_, done) ↦ done every
          | inr (q, _, _) ↦ absurd (cc (ap (λ r. r.1) q, stop h m))
        ] in
      (
        t,
        ends,
        λ h. (
          (derived.0 h, in_complete t derived closed h),
          (derived.1 h, out_complete t derived closed h),
        ),
      )
