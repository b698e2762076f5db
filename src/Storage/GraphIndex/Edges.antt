-- ===== src/Storage/GraphIndex/Edges.antt =====
-- What the queries on edges see of a registration.
use arxdb.Base.{
  ℕ, suc, ◌≡◌, sym, ap, ◌∙◌, subst, ◌≢◌, ◌⊎◌, inl, inr, none, some, List, [], ◌∷◌, ◌++◌, map, Memᴰ,
  Bool-cases, Option-cases, ◌==◌, ==_refl, ==_false_of_ne, ne_of_==_false, nat_eq, bytes_eq,
  pair_eq, any, keep,
}
use mathlib.Core.List.Memᴰ
use arxdb.Base.Dict.{Dict, get, set_default, get-set_default}
use arxdb.Storage.Hashing.{Hash}
use arxdb.Storage.GraphIndex.{
  PremiseRow, GraphIndex, sort_rows, same_key, add_row, add_rows, register_edge, rows_of,
  get_connectivity,
}
use arxdb.Storage.GraphIndex.Rows.{
  enumerated, add_rows-free, sort_rows-enumerated, map-enumerated, keep-append, keep-none,
  keep-enumerated, rows_of-add_rows,
}

-- Each row of `premises` belongs to an edge of `edges`.
abbrev pub IsConsistent : GraphIndex → Type 0
IsConsistent g = (r : PremiseRow) → Memᴰ r g.premises → get g.edges r.edge_hash ≢ none

rows_of-new :
    (g : GraphIndex) (e : Hash) (ps : List Hash)
    → IsConsistent g
    → get g.edges e ≡ none
    → add_rows e 0 ps g.premises ≡ g.premises ++ enumerated e 0 ps
rows_of-new g e ps ok new =
    add_rows-free e 0 ps g.premises
      (λ r m q. absurd (ok r m (subst (λ h. get g.edges h ≡ none) (sym q) new)))

connectivity-new :
    (g : GraphIndex) (e : Hash) (ps : List Hash) (c : Hash)
    → IsConsistent g
    → get g.edges e ≡ none
    → get_connectivity (register_edge g e ps c) e ≡ some (ps, c)
unfolding get_connectivity register_edge rows_of
connectivity-new g e ps c ok new =
    let at : get (set_default g.edges e c) e ≡ some c =
      get-set_default g.edges e e c ∙ rw (==_refl e, new) in
    let none_old =
      keep-none (λ (r : PremiseRow). r.edge_hash == e) g.premises
        (λ r m.
          ==_false_of_ne r.edge_hash e
            (λ q. ok r m (subst (λ h. get g.edges h ≡ none) (sym q) new))) in
    let rows : rows_of (add_rows e 0 ps g.premises) e ≡ enumerated e 0 ps =
      ap (λ rs. rows_of rs e) (rows_of-new g e ps ok new)
      ∙ keep-append (λ (r : PremiseRow). r.edge_hash == e) g.premises (enumerated e 0 ps)
      ∙ ap (λ rs. rs ++ keep (λ (r : PremiseRow). r.edge_hash == e) (enumerated e 0 ps)) none_old
      ∙ keep-enumerated e 0 ps in
    rw at (
      ap (λ rs. some (map (λ (r : PremiseRow). r.premise_hash) (sort_rows rs), c)) rows
      ∙ ap (λ rs. some (map (λ (r : PremiseRow). r.premise_hash) rs, c))
          (sort_rows-enumerated e 0 ps)
      ∙ ap (λ qs. some (qs, c)) (map-enumerated e 0 ps))

connectivity-other :
    (g : GraphIndex) (e : Hash) (ps : List Hash) (c h : Hash)
    → e ≢ h
    → get_connectivity (register_edge g e ps c) h ≡ get_connectivity g h
unfolding get_connectivity register_edge
connectivity-other g e ps c h ne =
    let same : get (set_default g.edges e c) h ≡ get g.edges h =
      get-set_default g.edges e h c ∙ rw (==_false_of_ne e h ne) in
    rw (same, get_connectivity, rows_of-add_rows e 0 ps g.premises h ne)

add_row-mem :
    (q r : PremiseRow) (rows : List PremiseRow) → Memᴰ r (add_row q rows) → Memᴰ r rows ⊎ (r ≡ q)
unfolding add_row
add_row-mem q r rows m = elim (Bool-cases (any (same_key q) rows)) [
  | inl t ↦ inl (rw t at m)
  | inr f ↦ elim (Memᴰ.append_cases rows (rw f at m)) [
    | inl old ↦ inl old
    | inr new ↦ inr (Memᴰ.eq_of_singleton new)
  ]
]

add_rows-mem :
    (e : Hash) (position : ℕ) (ps : List Hash) (rows : List PremiseRow) (r : PremiseRow)
    → Memᴰ r (add_rows e position ps rows)
    → Memᴰ r rows ⊎ (r.edge_hash ≡ e)
unfolding add_rows
add_rows-mem e position [] rows r m = inl m
add_rows-mem e position (p ∷ ps) rows r m =
    let q : PremiseRow = record { edge_hash = e; premise_hash = p; position = position } in
    elim (add_rows-mem e (suc position) ps (add_row q rows) r m) [
      | inl before ↦ elim (add_row-mem q r rows before) [
        | inl old ↦ inl old
        | inr new ↦ inr (ap (λ (x : PremiseRow). x.edge_hash) new)
      ]
      | inr here ↦ inr here
    ]

set_default-ne-none :
    (d : Dict Hash Hash) (e h c : Hash)
    → (get d h ≢ none) ⊎ (h ≡ e)
    → get (set_default d e c) h ≢ none
set_default-ne-none d e h c known z = elim (Bool-cases (e == h)) [
  | inl t ↦ elim (Option-cases (get d h)) [
    | inl absent ↦ cc (rw (t, absent) at (get-set_default d e h c), z)
    | inr (x, there) ↦ cc (rw (t, there) at (get-set_default d e h c), z)
  ]
  | inr f ↦ elim known [
    | inl there ↦ there (sym (rw f at (get-set_default d e h c)) ∙ z)
    | inr same ↦ ne_of_==_false e h f (sym same)
  ]
]

pub register_edge-IsConsistent :
    (g : GraphIndex) (e : Hash) (ps : List Hash) (c : Hash)
    → IsConsistent g
    → IsConsistent (register_edge g e ps c)
unfolding register_edge
register_edge-IsConsistent g e ps c consistent r m =
    set_default-ne-none g.edges e r.edge_hash c (elim (add_rows-mem e 0 ps g.premises r m) [
      | inl old ↦ inl (consistent r old)
      | inr new ↦ inr new
    ])

-- Registering an edge that is new to a consistent index makes `get_connectivity` return its
-- premises in their order and its conclusion, leaves the connectivity of every other edge as it
-- was, and leaves the index consistent.
pub register_edge_new :
    (g : GraphIndex) (e : Hash) (ps : List Hash) (c : Hash)
    → IsConsistent g
    → get g.edges e ≡ none
    → (get_connectivity (register_edge g e ps c) e ≡ some (ps, c))
      × ((h : Hash) → e ≢ h → get_connectivity (register_edge g e ps c) h ≡ get_connectivity g h)
      × IsConsistent (register_edge g e ps c)
register_edge_new g e ps c ok new = (
  connectivity-new g e ps c ok new,
  connectivity-other g e ps c,
  register_edge-IsConsistent g e ps c ok,
)
