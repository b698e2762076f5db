-- ===== src/Query/Refutation/Grouping.antt =====
-- `by_prop` of src/arxdb/query/refutation.py: the edges by the proposition that they conclude.
use arxdb.Base.{
  ◌≡◌, refl, sym, ap, ◌∙◌, subst, inl, inr, Bool, none, some, List, [], ◌∷◌, ◌++◌, Memᴰ, Bool-cases,
  Option-cases, ◌==◌, ==_refl, eq_of_==, nat_eq, bytes_eq, pair_eq,
}
use mathlib.Core.List.Memᴰ
use mathlib.Core.Logic.{⊎_elim}
use arxdb.Base.Dict.{Dict, get, get-set}
use arxdb.Storage.Hashing.{Hash}
use arxdb.Storage.Serialization.{Cbor}
use arxdb.Storage.Facade.{Storage}
use arxdb.Verification.Schema.{Text, Node, Edge}
use arxdb.Query.Resolve.{resolve_node}
use arxdb.Query.Refutation.{Groups, add_to_group, by_prop}
use arxdb.Base.Dict.Entries.{Memᴰ-set, get-Memᴰ}

-- The items of the group of a proposition so far.
abbrev group : Groups → Node → List (Hash × Bool)
group groups n = elim (get groups (n.claim, n.domain)) [ none ↦ [] | some items ↦ items ]

group-cases :
    (groups : Groups) (n : Node) (x : Hash × Bool)
    → Memᴰ x (group groups n)
    → Memᴰ ((n.claim, n.domain), group groups n) groups
group-cases groups n x m = elim (Option-cases (get groups (n.claim, n.domain))) [
  | inl z ↦ absurd (Memᴰ.not-nil (rw (z, group) at m))
  | inr (items, z) ↦ rw (z, group) (get-Memᴰ groups (n.claim, n.domain) items z)
]

group-some :
    (groups : Groups) (n : Node) (items : List (Hash × Bool))
    → get groups (n.claim, n.domain) ≡ some items
    → group groups n ≡ items
group-some groups n items h = rw (h, group) refl

module _ ⦃c : Cbor⦄ (s : Storage) where
  -- The edge is among the given ones, and its conclusion resolves to the node.
  abbrev pub Concludes : Dict Hash Edge → Hash → Node → Type 0
  Concludes edges h n = (e : Edge) × Memᴰ (h, e) edges × (resolve_node e.conclusion s ≡ some n)

  -- Each item of a group is one of the given edges, with what it concludes.
  abbrev pub IsSorted : Dict Hash Edge → Groups → Type 0
  IsSorted edges groups =
      (prop : Text × Text) (items : List (Hash × Bool)) (h : Hash) (p : Bool)
      → Memᴰ (prop, items) groups
      → Memᴰ (h, p) items
      → (n : Node) × Concludes edges h n × (prop ≡ (n.claim, n.domain)) × (p ≡ n.polarity)

  -- The edge is an item of its group.
  abbrev pub IsGrouped : Groups → Hash → Node → Type 0
  IsGrouped groups h n =
      (items : List (Hash × Bool)) × (get groups (n.claim, n.domain) ≡ some items)
      × Memᴰ (h, n.polarity) items

  add_to_group-IsSorted :
      (edges : Dict Hash Edge) (h : Hash) (n : Node) (groups : Groups)
      → Concludes edges h n
      → IsSorted edges groups
      → IsSorted edges (add_to_group h n groups)
  unfolding add_to_group
  add_to_group-IsSorted edges h n groups known inv prop items x p m mx =
      ⊎_elim
        (λ (key, value).
          ⊎_elim
            (λ (old : Memᴰ (x, p) (group groups n)).
              let (d, concludes, same, polarity) =
                inv (n.claim, n.domain) (group groups n) x p (group-cases groups n (x, p) old)
                  old in
              (d, concludes, key ∙ same, polarity))
            (λ new.
              let q : _ ≡ _ = Memᴰ.eq_of_singleton new in
              let at : x ≡ h = ap (λ (z : Hash × Bool). z.0) q in
              (
                n,
                subst (λ z. Concludes edges z n) (sym at) known,
                key,
                ap (λ (z : Hash × Bool). z.1) q,
              ))
            (Memᴰ.append_cases (group groups n) (subst (Memᴰ (x, p)) value mx)))
        (λ old. inv prop items x p old mx)
        (Memᴰ-set groups (n.claim, n.domain) (group groups n ++ (h, n.polarity) ∷ []) prop items m)

  add_to_group-new :
      (h : Hash) (n : Node) (groups : Groups) → IsGrouped (add_to_group h n groups) h n
  unfolding add_to_group
  add_to_group-new h n groups = (
    group groups n ++ (h, n.polarity) ∷ [],
    rw
        (
          get-set groups (n.claim, n.domain) (n.claim, n.domain)
              (group groups n ++ (h, n.polarity) ∷ []),
          ==_refl {A = Text × Text} (n.claim, n.domain),
        )
        refl,
    Memᴰ.append_right (group groups n) (Memᴰ.head refl),
  )

  add_to_group-IsGrouped :
      (x : Hash) (m : Node) (groups : Groups) (h : Hash) (n : Node)
      → IsGrouped groups h n
      → IsGrouped (add_to_group x m groups) h n
  unfolding add_to_group
  add_to_group-IsGrouped x m groups h n (items, there, at) =
      let longer = group groups m ++ (x, m.polarity) ∷ [] in
      let from : Text × Text = (m.claim, m.domain) in
      let to : Text × Text = (n.claim, n.domain) in
      let written = get-set groups from to longer in
      elim (Bool-cases (from == to)) [
        | inl t ↦
            let found : get groups from ≡ some items =
              ap (get groups) (eq_of_== from to t) ∙ there in
            let same : group groups m ≡ items = group-some groups m items found in
            (
              longer,
              rw t at written,
              Memᴰ.append_left ((x, m.polarity) ∷ []) (subst (Memᴰ (h, n.polarity)) (sym same) at),
            )
        | inr f ↦ (items, (rw f at written) ∙ there, at)
      ]

  pub by_prop-IsSorted :
      (edges rest : Dict Hash Edge) (groups : Groups)
      → ((x : Hash × Edge) → Memᴰ x rest → Memᴰ x edges)
      → IsSorted edges groups
      → IsSorted edges (by_prop s rest groups)
  unfolding by_prop
  by_prop-IsSorted edges [] groups sub inv = inv
  by_prop-IsSorted edges ((h, e) ∷ rest) groups sub inv =
      elim (Option-cases (resolve_node e.conclusion s)) [
        | inl z ↦ rw z (by_prop-IsSorted edges rest groups (λ x m. sub x (Memᴰ.tail m)) inv)
        | inr (n, z) ↦ rw z (
            by_prop-IsSorted edges rest (add_to_group h n groups) (λ x m. sub x (Memᴰ.tail m))
              (add_to_group-IsSorted edges h n groups (e, sub (h, e) (Memᴰ.head refl), z) inv))
      ]

  by_prop-keeps :
      (rest : Dict Hash Edge) (groups : Groups) (h : Hash) (n : Node)
      → IsGrouped groups h n
      → IsGrouped (by_prop s rest groups) h n
  unfolding by_prop
  by_prop-keeps [] groups h n there = there
  by_prop-keeps ((x, e) ∷ rest) groups h n there =
      elim (Option-cases (resolve_node e.conclusion s)) [
        | inl z ↦ rw z (by_prop-keeps rest groups h n there)
        | inr (m, z) ↦ rw z (
            by_prop-keeps rest (add_to_group x m groups) h n
              (add_to_group-IsGrouped x m groups h n there))
      ]

  pub by_prop-IsGrouped :
      (rest : Dict Hash Edge) (groups : Groups) (h : Hash) (n : Node)
      → Concludes rest h n
      → IsGrouped (by_prop s rest groups) h n
  unfolding by_prop
  by_prop-IsGrouped [] groups h n (e, m, found) = absurd (Memᴰ.not-nil m)
  by_prop-IsGrouped ((x, d) ∷ rest) groups h n (e, m, found) =
      ⊎_elim
        (λ (q : _ ≡ _).
          let at : x ≡ h = ap (λ (z : Hash × Edge). z.0) (sym q) in
          let here : resolve_node d.conclusion s ≡ some n =
            ap (λ (z : Hash × Edge). resolve_node z.1.conclusion s) (sym q) ∙ found in
          rw here (
            by_prop-keeps rest (add_to_group x n groups) h n (
              subst (λ z. IsGrouped (add_to_group x n groups) z n) at
                (add_to_group-new x n groups))))
        (λ t. elim (Option-cases (resolve_node d.conclusion s)) [
          | inl z ↦ rw z (by_prop-IsGrouped rest groups h n (e, t, found))
          | inr (w, z) ↦ rw z (by_prop-IsGrouped rest (add_to_group x w groups) h n (e, t, found))
        ])
        (Memᴰ.cases_cons m)
