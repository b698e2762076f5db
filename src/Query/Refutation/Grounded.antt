-- ===== src/Query/Refutation/Grounded.antt =====
-- The labelling loop ends, and its labels are justified and complete.
use arxdb.Base.{
  ℕ, ◌+◌, ◌<◌, ◌≤◌, ◌≡◌, refl, sym, ap, subst, ◌⊎◌, inl, inr, true, false, some, List, [], ◌∷◌,
  Memᴰ, arith, if◌then◌else◌, Bool-cases, ◌==◌, ==_refl, nat_eq, bytes_eq, pair_eq, length, all,
  all_iff, contains, contains_iff, sum_over, sum_over-lt, sum_over-bound,
}
use mathlib.Core.List.Memᴰ
use arxdb.Base.Loop.{until_stable, sweep, sweep_loop}
use arxdb.Storage.Hashing.{Hash}
use arxdb.Query.Refutation.{AttackGraph, Labels, members, defeat, label}

pub defeat-inv : (ts out : List Hash) (t : Hash) → Memᴰ t (defeat ts out) → Memᴰ t ts ⊎ Memᴰ t out
unfolding defeat
defeat-inv [] out t m = inr m
defeat-inv (x ∷ ts) out t m = elim (defeat-inv ts (if contains out x then out else x ∷ out) t m) [
  | inl there ↦ inl (Memᴰ.tail there)
  | inr old ↦ elim (Bool-cases (contains out x)) [
    | inl c ↦ inr (rw c at old)
    | inr c ↦ elim (Memᴰ.cases_cons (rw c at old)) [
      | inl e ↦ inl (Memᴰ.head e)
      | inr before ↦ inr before
    ]
  ]
]

pub defeat-keeps : (ts out : List Hash) (t : Hash) → Memᴰ t out → Memᴰ t (defeat ts out)
unfolding defeat
defeat-keeps [] out t m = m
defeat-keeps (x ∷ ts) out t m =
    let kept : Memᴰ t (if contains out x then out else x ∷ out) =
      elim (Bool-cases (contains out x)) [ inl c ↦ rw c m | inr c ↦ rw c (Memᴰ.tail m) ] in
    defeat-keeps ts (if contains out x then out else x ∷ out) t kept

module _ (g : AttackGraph) (hs : List Hash) where
  -- Each edge that is IN has only attackers that are OUT.
  abbrev pub InIsJustified : Labels → Type 0
  InIsJustified s =
      (h : Hash)
      → Memᴰ h s.in_edges
      → (a : Hash) → Memᴰ a (members g.attacked_by h)
      → Memᴰ a s.out_edges

  -- Each edge that is OUT has an attacker that is IN.
  abbrev pub OutIsJustified : Labels → Type 0
  OutIsJustified s =
      (h : Hash)
      → Memᴰ h s.out_edges
      → (a : Hash) × Memᴰ a s.in_edges × Memᴰ h (members g.attackers a)

  abbrev pub after : Hash → Labels → Labels
  after h s = record {
    in_edges = h ∷ s.in_edges;
    out_edges = defeat (members g.attackers h) s.out_edges;
  }

  pub label_cases :
      (h : Hash) (s : Labels)
      → ((label g h s ≡ (s, false))
          × (((a : Hash) → Memᴰ a (members g.attacked_by h) → Memᴰ a s.out_edges)
              → Memᴰ h s.in_edges ⊎ Memᴰ h s.out_edges))
        ⊎ ((label g h s ≡ (after h s, true))
            × (contains s.in_edges h ≡ false)
            × ((a : Hash) → Memᴰ a (members g.attacked_by h) → Memᴰ a s.out_edges))
  unfolding label
  label_cases h s = elim (Bool-cases (contains s.in_edges h)) [
    | inl i ↦ inl (rw (i, label) refl, λ _. inl ((contains_iff s.in_edges h).0 i))
    | inr i ↦ elim (Bool-cases (contains s.out_edges h)) [
      | inl o ↦ inl (rw (i, o, label) refl, λ _. inr ((contains_iff s.out_edges h).0 o))
      | inr o ↦ elim (Bool-cases (all (contains s.out_edges) (members g.attacked_by h))) [
        | inl v ↦ inr (
          rw (i, o, v, label) refl,
          i,
          λ a m.
              (contains_iff s.out_edges a).0
                ((all_iff (contains s.out_edges) (members g.attacked_by h)).0 v a m),
        )
        | inr v ↦ inl (
          rw (i, o, v, label) refl,
          λ every. absurd (
              cc (
                v,
                (all_iff (contains s.out_edges) (members g.attacked_by h)).1
                    (λ a m. (contains_iff s.out_edges a).1 (every a m)),
              )),
        )
      ]
    ]
  ]

  abbrev pub open_at : Labels → Hash → ℕ
  open_at s h = if contains s.in_edges h then 0 else 1

  pub label-same : (h : Hash) (s : Labels) → (label g h s).1 ≡ false → (label g h s).0 ≡ s
  label-same h s stop = elim (label_cases h s) [
    | inl (q, _) ↦ ap (λ r. r.0) q
    | inr (q, _, _) ↦ absurd (cc (ap (λ r. r.1) q, stop))
  ]

  closing : (h : Hash) (s : Labels) (x : Hash) → Memᴰ x hs → open_at (after h s) x ≤ open_at s x
  unfolding contains
  closing h s x m = elim (Bool-cases (x == h)) [
    | inl t ↦ rw t (omega arith)
    | inr f ↦ rw f (omega arith)
  ]

  closed :
      (h : Hash) (s : Labels) → contains s.in_edges h ≡ false → open_at (after h s) h < open_at s h
  unfolding contains
  closed h s new = rw (new, ==_refl h) (omega arith)

  pub label-less :
      (h : Hash) (s : Labels)
      → Memᴰ h hs
      → (label g h s).1 ≡ true
      → sum_over (open_at (label g h s).0) hs < sum_over (open_at s) hs
  label-less h s m go = elim (label_cases h s) [
    | inl (q, _) ↦ absurd (cc (ap (λ r. r.1) q, go))
    | inr (q, new, _) ↦
        subst (λ t. sum_over (open_at t) hs < sum_over (open_at s) hs) (sym (ap (λ r. r.0) q))
          (sum_over-lt (open_at (after h s)) (open_at s) hs (closing h s) h m (closed h s new))
  ]

  label-justified :
      (h : Hash) (s : Labels)
      → InIsJustified s × OutIsJustified s
      → InIsJustified (label g h s).0 × OutIsJustified (label g h s).0
  label-justified h s (ins, outs) = elim (label_cases h s) [
    | inl (q, _) ↦
        subst (λ t. InIsJustified t × OutIsJustified t) (sym (ap (λ r. r.0) q)) (ins, outs)
    | inr (q, _, every) ↦
        subst (λ t. InIsJustified t × OutIsJustified t) (sym (ap (λ r. r.0) q))
          (
            λ x m a ma.
                defeat-keeps (members g.attackers h) s.out_edges a (elim (Memᴰ.cases_cons m) [
                  | inl e ↦ every a (subst (λ y. Memᴰ a (members g.attacked_by y)) e ma)
                  | inr old ↦ ins x old a ma
                ]),
            λ x m. elim (defeat-inv (members g.attackers h) s.out_edges x m) [
              | inl hit ↦ (h, Memᴰ.head refl, hit)
              | inr old ↦ let (a, ma, hit) = outs x old in (a, Memᴰ.tail ma, hit)
            ],
          )
  ]

  -- The labelling loop ends. Afterwards each edge that is IN has only attackers that are OUT, each
  -- edge that is OUT is attacked by an edge that is IN, and an edge all of whose attackers are OUT
  -- is IN or OUT.
  pub labelling_correct :
      (t : Labels) × (until_stable
          (length hs + 1)
          (sweep (label g) hs)
          (record { in_edges = []; out_edges = [] })
        ≡ some t)
      × InIsJustified t
      × OutIsJustified t
      × ((h : Hash)
          → Memᴰ h hs
          → ((a : Hash) → Memᴰ a (members g.attacked_by h) → Memᴰ a t.out_edges)
          → Memᴰ h t.in_edges ⊎ Memᴰ h t.out_edges)
  labelling_correct =
      let start : Labels = record { in_edges = []; out_edges = [] } in
      let bound = sum_over-bound (open_at start) 1 hs (λ h. unfold contains in omega arith) in
      let (t, ends, (ins, outs), stop) =
        sweep_loop (label g) (λ s. InIsJustified s × OutIsJustified s)
          (λ s. sum_over (open_at s) hs) hs (λ h s m p. label-justified h s p) label-same
          (λ h s m p. label-less h s m) (length hs + 1) start (omega arith)
          (λ h m. absurd (Memᴰ.not-nil m), λ h m. absurd (Memᴰ.not-nil m)) in
      (
        t,
        ends,
        ins,
        outs,
        λ h m every. elim (label_cases h t) [
          | inl (_, done) ↦ done every
          | inr (q, _, _) ↦ absurd (cc (ap (λ r. r.1) q, stop h m))
        ],
      )
