-- ===== src/Query/Reachability/Derivations.antt =====
-- Which edges `_derivation_edges` lists.
use arxdb.Base.{
  ◌≡◌, refl, sym, ap, ◌∙◌, subst, ◌↔◌, inl, inr, true, false, Option, some, List, [], ◌∷◌, Memᴰ,
  Bool-cases, Option-cases, nat_eq, bytes_eq, pair_eq,
}
use mathlib.Core.List.Memᴰ
use arxdb.Base.Dict.{has}
use arxdb.Storage.Hashing.{Hash}
use arxdb.Storage.Serialization.{Cbor}
use arxdb.Storage.GraphIndex.{all_edges}
use arxdb.Storage.GraphIndex.Listing.{Memᴰ-all_edges}
use arxdb.Storage.Facade.{Storage}
use arxdb.Verification.Schema.{Edge}
use arxdb.Query.Resolve.{resolve_edge}
use arxdb.Query.Reachability.{Item}
use arxdb.Query.Reachability.Reachable.{
  is_active, is_refutation, is_accepted, derivation_item, derivation_items, derivation_edges,
}

module _ ⦃c : Cbor⦄ (s : Storage) (active : Option (List Hash)) where
  -- The edge may be used: it is active, stored, no refutation and not vetoed.
  abbrev pub IsUsable : Hash → Edge → Type 0
  IsUsable h e =
      (is_active active h ≡ true)
      × (resolve_edge h s ≡ some e)
      × (is_refutation e.type ≡ false)
      × (is_accepted e.verdict ≡ true)

  derivation_item-some :
      (g h : Hash) (e : Edge) → derivation_item s active g ≡ some (h, e) → (g ≡ h) × IsUsable h e
  unfolding derivation_item
  derivation_item-some g h e q = elim (Bool-cases (is_active active g)) [
    | inr off ↦ absurd (cc (rw (off) at q))
    | inl on ↦ elim (Option-cases (resolve_edge g s)) [
      | inl z ↦ absurd (cc (rw (on, z) at q))
      | inr (d, z) ↦ elim (Bool-cases (is_refutation d.type)) [
        | inl r ↦ absurd (cc (rw (on, z, r) at q))
        | inr r ↦ elim (Bool-cases (is_accepted d.verdict)) [
          | inr v ↦ absurd (cc (rw (on, z, r, v) at q))
          | inl v ↦
              let item : Item = (g, d) in
              let goal : Item = (h, e) in
              let p : some item ≡ some goal = rw (on, z, r, v) at q in
              let both : item ≡ goal = cc p in
              let same : g ≡ h = ap (λ (x : Item). x.0) both in
              let edge : d ≡ e = ap (λ (x : Item). x.1) both in
              (
                same,
                (
                  subst (λ x. is_active active x ≡ true) same on,
                  subst (λ x. resolve_edge x s ≡ some e) same (z ∙ ap some edge),
                  subst (λ (x : Edge). is_refutation x.type ≡ false) edge r,
                  subst (λ (x : Edge). is_accepted x.verdict ≡ true) edge v,
                ),
              )
        ]
      ]
    ]
  ]

  derivation_item-IsUsable :
      (h : Hash) (e : Edge) → IsUsable h e → derivation_item s active h ≡ some (h, e)
  unfolding derivation_item
  derivation_item-IsUsable h e (on, z, r, v) = rw (on, z, r, v) refl

  Memᴰ-derivation_items :
      (hs : List Hash) (h : Hash) (e : Edge)
      → Memᴰ (h, e) (derivation_items s active hs) ↔ (Memᴰ h hs × IsUsable h e)
  unfolding derivation_items
  Memᴰ-derivation_items [] h e = (λ m. absurd (Memᴰ.not-nil m), λ (m, _). absurd (Memᴰ.not-nil m))
  Memᴰ-derivation_items (g ∷ hs) h e =
      let rest = Memᴰ-derivation_items hs h e in
      elim (Option-cases (derivation_item s active g)) [
        | inl z ↦
            rw (z, derivation_items)
              (
                λ m. let (there, use_it) = rest.0 m in (Memᴰ.tail there, use_it),
                λ (m, use_it). elim (Memᴰ.cases_cons m) [
                  | inl q ↦
                      let item =
                        subst (λ x. derivation_item s active x ≡ some (h, e)) q
                          (derivation_item-IsUsable h e use_it) in
                      absurd (cc (z, item))
                  | inr there ↦ rest.1 (there, use_it)
                ],
              )
        | inr ((j, d), z) ↦
            rw (z, derivation_items)
              (
                λ m. elim (Memᴰ.cases_cons m) [
                  | inl q ↦
                      let (same, use_it) = derivation_item-some g h e (z ∙ ap some (sym q)) in
                      (Memᴰ.head (sym same), use_it)
                  | inr there ↦ let (in_rest, use_it) = rest.0 there in (Memᴰ.tail in_rest, use_it)
                ],
                λ (m, use_it). elim (Memᴰ.cases_cons m) [
                  | inl q ↦
                      let item =
                        subst (λ x. derivation_item s active x ≡ some (h, e)) q
                          (derivation_item-IsUsable h e use_it) in
                      let goal : Item = (h, e) in
                      let other : Item = (j, d) in
                      let p : some goal ≡ some other = sym item ∙ z in Memᴰ.head (cc p)
                  | inr there ↦ Memᴰ.tail (rest.1 (there, use_it))
                ],
              )
      ]

  -- The edges that derive are exactly the registered ones that are active, if a set of active edges
  -- is given, that resolve to a record, are no refutation and have the verdict PASS or SOFT_FLAG.
  pub Memᴰ-derivation_edges :
      (h : Hash) (e : Edge)
      → Memᴰ (h, e) (derivation_edges s active) ↔ ((has s.graph.edges h ≡ true) × IsUsable h e)
  unfolding derivation_edges
  Memᴰ-derivation_edges h e =
      let items = Memᴰ-derivation_items (all_edges s.graph) h e in
      let listed = Memᴰ-all_edges s.graph h in
      (
        λ m. let (there, use_it) = items.0 m in (listed.0 there, use_it),
        λ (there, use_it). items.1 (listed.1 there, use_it),
      )
