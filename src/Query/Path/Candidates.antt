-- ===== src/Query/Path/Candidates.antt =====
-- The edges into a node that `path_discovery` in src/arxdb/query/path.py considers.
use arxdb.Base.{
  ◌≡◌, refl, sym, ap, ◌∙◌, ◌↔◌, ◌⊎◌, inl, inr, none, some, List, [], ◌∷◌, Memᴰ, Bool-cases,
  Option-cases, ◌==◌, ==_iff, eq_of_==, nat_eq, bytes_eq, pair_eq,
}
use mathlib.Core.List.Memᴰ
use mathlib.Core.Logic.{⊎_elim}
use arxdb.Base.Dict.{Dict, get, set, get-set}
use arxdb.Storage.Hashing.{Hash}
use arxdb.Storage.Serialization.{Cbor}
use arxdb.Storage.GraphIndex.{select_edges, incoming_edges}
use arxdb.Storage.GraphIndex.Listing.{Memᴰ-sort_hashes}
use arxdb.Storage.Facade.{Storage}
use arxdb.Verification.Schema.{Edge}
use arxdb.Query.Resolve.{resolve_edge}
use arxdb.Query.Reachability.{Item}
use arxdb.Query.Reachability.Reachable.{derivation_edges, edge_map_of}
use arxdb.Query.Reachability.Derivations.{Memᴰ-derivation_edges}
use arxdb.Query.Path.{with_edges, candidates}

-- A later entry with the same key replaces an earlier one.
edge_map_of-some :
    (m : Dict Hash Edge) (es : List Item) (h : Hash) (e : Edge)
    → get (edge_map_of m es) h ≡ some e
    → Memᴰ (h, e) es ⊎ (get m h ≡ some e)
unfolding edge_map_of
edge_map_of-some m [] h e q = inr q
edge_map_of-some m ((g, d) ∷ es) h e q = elim (edge_map_of-some (set m g d) es h e q) [
  | inl later ↦ inl (Memᴰ.tail later)
  | inr now ↦
      let written = sym (get-set m g h d) ∙ now in
      elim (Bool-cases (g == h)) [
        | inl same ↦
            let key = eq_of_== g h same in
            let value : d ≡ e = cc (rw same at written) in inl (Memᴰ.head (cc (key, value)))
        | inr other ↦ inr (rw other at written)
      ]
]

edge_map_of-keeps :
    (m : Dict Hash Edge) (es : List Item) (h : Hash)
    → ((e : Edge) × (get m h ≡ some e))
    → (e : Edge) × (get (edge_map_of m es) h ≡ some e)
unfolding edge_map_of
edge_map_of-keeps m [] h there = there
edge_map_of-keeps m ((g, d) ∷ es) h (e, there) =
    edge_map_of-keeps (set m g d) es h (elim (Bool-cases (g == h)) [
      | inl same ↦ (d, rw (get-set m g h d, same) refl)
      | inr other ↦ (e, rw (get-set m g h d, other) there)
    ])

edge_map_of-has :
    (m : Dict Hash Edge) (es : List Item) (h : Hash) (e : Edge)
    → Memᴰ (h, e) es
    → (d : Edge) × (get (edge_map_of m es) h ≡ some d)
unfolding edge_map_of
edge_map_of-has m [] h e q = absurd (Memᴰ.not-nil q)
edge_map_of-has m ((g, d) ∷ es) h e q =
    ⊎_elim
      (λ (here : _ ≡ _).
        let key : g ≡ h = ap (λ (x : Item). x.0) (sym here) in
        edge_map_of-keeps (set m g d) es h (d, rw (get-set m g h d, (==_iff g h).1 key) refl))
      (λ later. edge_map_of-has (set m g d) es h e later) (Memᴰ.cases_cons q)

Memᴰ-select_edges :
    (n : Hash) (rows : Dict Hash Hash) (h : Hash)
    → Memᴰ h (select_edges (λ c. c == n) rows) ↔ Memᴰ (h, n) rows
unfolding select_edges
Memᴰ-select_edges n [] h = (λ m. absurd (Memᴰ.not-nil m), λ m. absurd (Memᴰ.not-nil m))
Memᴰ-select_edges n ((g, c) ∷ rows) h =
    let rest = Memᴰ-select_edges n rows h in
    elim (Bool-cases (c == n)) [
      | inl same ↦
          let at = eq_of_== c n same in
          rw same (
            λ m.
                ⊎_elim (λ (q : h ≡ g). Memᴰ.head (cc (q, at))) (λ t. Memᴰ.tail (rest.0 t))
                  (Memᴰ.cases_cons m),
            λ m.
                ⊎_elim (λ (q : _ ≡ _). Memᴰ.head (ap (λ (x : Hash × Hash). x.0) q))
                  (λ t. Memᴰ.tail (rest.1 t)) (Memᴰ.cases_cons m),
          )
      | inr other ↦ rw other (
        λ m. Memᴰ.tail (rest.0 m),
        λ m.
            ⊎_elim
              (λ (q : _ ≡ _).
                absurd (cc (other, (==_iff c n).1 (ap (λ (x : Hash × Hash). x.1) (sym q)))))
              rest.1 (Memᴰ.cases_cons m),
      )
    ]

Memᴰ-with_edges :
    (edge_map : Dict Hash Edge) (hs : List Hash) (h : Hash) (e : Edge)
    → Memᴰ (h, e) (with_edges edge_map hs) ↔ (Memᴰ h hs × (get edge_map h ≡ some e))
unfolding with_edges
Memᴰ-with_edges edge_map [] h e = (λ m. absurd (Memᴰ.not-nil m), λ (m, _). absurd (Memᴰ.not-nil m))
Memᴰ-with_edges edge_map (g ∷ hs) h e =
    let rest = Memᴰ-with_edges edge_map hs h e in
    elim (Option-cases (get edge_map g)) [
      | inl absent ↦
          rw (absent, with_edges)
            (
              λ m. let (there, found) = rest.0 m in (Memᴰ.tail there, found),
              λ (m, found).
                  ⊎_elim (λ (q : h ≡ g). absurd (cc (found, absent, ap (get edge_map) q)))
                    (λ t. rest.1 (t, found)) (Memᴰ.cases_cons m),
            )
      | inr (d, here) ↦
          rw (here, with_edges)
            (
              λ m.
                  ⊎_elim
                    (λ (q : _ ≡ _).
                      let key : h ≡ g = ap (λ (x : Item). x.0) q in
                      let value : e ≡ d = ap (λ (x : Item). x.1) q in
                      (Memᴰ.head key, ap (get edge_map) key ∙ here ∙ ap some (sym value)))
                    (λ t. let (there, found) = rest.0 t in (Memᴰ.tail there, found))
                    (Memᴰ.cases_cons m),
              λ (m, found).
                  ⊎_elim
                    (λ (q : h ≡ g).
                      let value : some e ≡ some d = sym found ∙ ap (get edge_map) q ∙ here in
                      let same : e ≡ d = cc value in Memᴰ.head (cc (q, same)))
                    (λ t. Memᴰ.tail (rest.1 (t, found))) (Memᴰ.cases_cons m),
            )
    ]

edge_map_of-Memᴰ :
    (es : List Item) (h : Hash) (e : Edge) → get (edge_map_of [] es) h ≡ some e → Memᴰ (h, e) es
unfolding get
edge_map_of-Memᴰ es h e q =
    ⊎_elim (λ t. t) (λ none_there. absurd (cc none_there)) (edge_map_of-some [] es h e q)

module _ ⦃c : Cbor⦄ (s : Storage) where
  -- The candidates at a node are exactly the edges that derive and that are registered with the node
  -- as their conclusion.
  pub Memᴰ-candidates :
      (n h : Hash) (e : Edge)
      → Memᴰ (h, e) (candidates s (edge_map_of [] (derivation_edges s none)) n)
        ↔ (Memᴰ (h, n) s.graph.edges × Memᴰ (h, e) (derivation_edges s none))
  unfolding candidates incoming_edges
  Memᴰ-candidates n h e =
      let es = derivation_edges s none in
      let m = edge_map_of [] es in
      let listed = Memᴰ-with_edges m (incoming_edges s.graph n) h e in
      let sorted = Memᴰ-sort_hashes h (select_edges (λ c. c == n) s.graph.edges) in
      let selected = Memᴰ-select_edges n s.graph.edges h in
      let record_of : (d : Edge) → Memᴰ (h, d) es → resolve_edge h s ≡ some d =
        λ d t. let (_, (_, found, _, _)) = (Memᴰ-derivation_edges s none h d).0 t in found in
      (
        λ q.
            let (there, found) = listed.0 q in
            (selected.0 (sorted.0 there), edge_map_of-Memᴰ es h e found),
        λ (row, t).
            let (d, found) = edge_map_of-has [] es h e t in
            let same : d ≡ e = cc (record_of d (edge_map_of-Memᴰ es h d found), record_of e t) in
            listed.1 (sorted.1 (selected.1 row), found ∙ ap some same),
      )
