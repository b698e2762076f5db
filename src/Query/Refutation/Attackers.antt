-- ===== src/Query/Refutation/Attackers.antt =====
-- The attacks in the graph that src/arxdb/query/refutation.py builds, in terms of what is stored.
use arxdb.Base.{
  ◌≡◌, sym, ap, ◌∙◌, subst, ◌↔◌, ◌⊎◌, inl, inr, true, not, some, List, [], ◌∷◌, Memᴰ, Option-cases,
  nat_eq, bytes_eq, pair_eq, contains_iff,
}
use mathlib.Core.List.Memᴰ
use mathlib.Core.Logic.{⊎_elim}
use arxdb.Base.Dict.{get, has, keys}
use arxdb.Storage.Hashing.{Hash}
use arxdb.Storage.Serialization.{Cbor}
use arxdb.Storage.GraphIndex.{all_edges}
use arxdb.Storage.Facade.{Storage}
use arxdb.Verification.Schema.{Text, Node, Edge}
use arxdb.Query.Resolve.{resolve_node, resolve_edge}
use arxdb.Query.Reachability.Reachable.{is_refutation}
use arxdb.Query.Refutation.{
  AttackGraph, members, no_attacks, add_refutations, contend_groups, by_prop, attack_graph,
  resolved,
}
use arxdb.Query.Refutation.Attacks.{members-no_attacks}
use arxdb.Query.Refutation.Contention.{Rivals, add_refutations-Hits, contend_groups-Hits}
use arxdb.Storage.GraphIndex.Listing.{Memᴰ-all_edges}
use arxdb.Base.Dict.Entries.{get-Memᴰ, Memᴰ-has, has-Memᴰ, Memᴰ-keys_iff}
use arxdb.Query.Refutation.Grouping.{Concludes, by_prop-IsSorted, by_prop-IsGrouped}

module _ ⦃c : Cbor⦄ (s : Storage) where
  Memᴰ-resolved :
      (hs : List Hash) (h : Hash) (e : Edge)
      → Memᴰ (h, e) (resolved s hs) ↔ (Memᴰ h hs × (resolve_edge h s ≡ some e))
  unfolding resolved
  Memᴰ-resolved [] h e = (λ m. absurd (Memᴰ.not-nil m), λ (m, _). absurd (Memᴰ.not-nil m))
  Memᴰ-resolved (g ∷ hs) h e =
      let rest = Memᴰ-resolved hs h e in
      elim (Option-cases (resolve_edge g s)) [
        | inl absent ↦
            rw (absent, resolved)
              (
                λ m. let (there, found) = rest.0 m in (Memᴰ.tail there, found),
                λ (m, found).
                    ⊎_elim
                      (λ (q : h ≡ g).
                        absurd (cc (found, absent, ap (λ (z : Hash). resolve_edge z s) q)))
                      (λ t. rest.1 (t, found)) (Memᴰ.cases_cons m),
              )
        | inr (d, here) ↦
            rw (here, resolved)
              (
                λ m.
                    ⊎_elim
                      (λ (q : _ ≡ _).
                        let key : h ≡ g = ap (λ (z : Hash × Edge). z.0) q in
                        let value : e ≡ d = ap (λ (z : Hash × Edge). z.1) q in
                        (
                          Memᴰ.head key,
                          ap (λ (z : Hash). resolve_edge z s) key ∙ here ∙ ap some (sym value),
                        ))
                      (λ t. let (there, found) = rest.0 t in (Memᴰ.tail there, found))
                      (Memᴰ.cases_cons m),
                λ (m, found).
                    ⊎_elim
                      (λ (q : h ≡ g).
                        let value : some e ≡ some d =
                          sym found ∙ ap (λ (z : Hash). resolve_edge z s) q ∙ here in
                        let same : e ≡ d = cc value in Memᴰ.head (cc (q, same)))
                      (λ t. Memᴰ.tail (rest.1 (t, found))) (Memᴰ.cases_cons m),
              )
      ]

  -- The edge is registered, and its record resolves.
  abbrev pub IsHeld : Hash → Edge → Type 0
  IsHeld h e = (has s.graph.edges h ≡ true) × (resolve_edge h s ≡ some e)

  -- A held edge concludes the node.
  abbrev pub Argues : Hash → Node → Type 0
  Argues h n = (e : Edge) × IsHeld h e × (resolve_node e.conclusion s ≡ some n)

  -- `a` is a refutation of the held edge `h`, or the two argue for one proposition with opposite
  -- polarity.
  abbrev pub Attacks : Hash → Hash → Type 0
  Attacks a h =
      ((e : Edge) × IsHeld a e
        × (is_refutation e.type ≡ true)
        × (h ≡ e.conclusion)
        × ((d : Edge) × IsHeld h d))
      ⊎ ((n : Node) × (m : Node) × Argues a n
          × Argues h m
          × (n.claim ≡ m.claim)
          × (n.domain ≡ m.domain)
          × (m.polarity ≡ not n.polarity))

  Memᴰ-IsHeld : (h : Hash) (e : Edge) → Memᴰ (h, e) (resolved s (all_edges s.graph)) ↔ IsHeld h e
  Memᴰ-IsHeld h e =
      let found = Memᴰ-resolved (all_edges s.graph) h e in
      let listed = Memᴰ-all_edges s.graph h in
      (
        λ m. let (there, q) = found.0 m in (listed.0 there, q),
        λ (there, q). found.1 (listed.1 there, q),
      )

  pub keys-IsHeld :
      (h : Hash) → Memᴰ h (keys (resolved s (all_edges s.graph))) ↔ ((e : Edge) × IsHeld h e)
  keys-IsHeld h =
      let listed = Memᴰ-keys_iff (resolved s (all_edges s.graph)) h in
      (
        λ m. let (e, there) = listed.0 m in (e, (Memᴰ-IsHeld h e).0 there),
        λ (e, held). listed.1 (e, (Memᴰ-IsHeld h e).1 held),
      )

  Concludes-Argues :
      (h : Hash) (n : Node) → Concludes s (resolved s (all_edges s.graph)) h n ↔ Argues h n
  Concludes-Argues h n = (
    λ (e, m, found). (e, (Memᴰ-IsHeld h e).0 m, found),
    λ (e, held, found). (e, (Memᴰ-IsHeld h e).1 held, found),
  )

  Rivals-Attacks :
      (a h : Hash)
      → Rivals (by_prop s (resolved s (all_edges s.graph)) []) a h ↔ (
          (n : Node) × (m : Node) × Argues a n
          × Argues h m
          × (n.claim ≡ m.claim)
          × (n.domain ≡ m.domain)
          × (m.polarity ≡ not n.polarity))
  Rivals-Attacks a h =
      let edges = resolved s (all_edges s.graph) in
      let groups = by_prop s edges [] in
      let inv =
        by_prop-IsSorted s edges edges [] (λ x m. m) (λ _ _ _ _ m _. absurd (Memᴰ.not-nil m)) in
      (
        λ (prop, items, p, m, ma, mh).
            let (n, known_n, prop_n, pol_n) = inv prop items a p m ma in
            let (w, known_w, prop_w, pol_w) = inv prop items h (not p) m mh in
            let one : (n.claim, n.domain) ≡ (w.claim, w.domain) = sym prop_n ∙ prop_w in
            (
              n,
              w,
              (Concludes-Argues a n).0 known_n,
              (Concludes-Argues h w).0 known_w,
              ap (λ (z : Text × Text). z.0) one,
              ap (λ (z : Text × Text). z.1) one,
              sym pol_w ∙ ap not pol_n,
            ),
        λ (n, w, argues_n, argues_w, claim, domain, opposite).
            let (xs, at_n, mn) =
              by_prop-IsGrouped s edges [] a n ((Concludes-Argues a n).1 argues_n) in
            let (ys, at_w, mw) =
              by_prop-IsGrouped s edges [] h w ((Concludes-Argues h w).1 argues_w) in
            let prop_n : Text × Text = (n.claim, n.domain) in
            let prop_w : Text × Text = (w.claim, w.domain) in
            let one : prop_n ≡ prop_w = cc (claim, domain) in
            let same : some ys ≡ some xs = sym at_w ∙ ap (get groups) (sym one) ∙ at_n in
            let at : ys ≡ xs = cc same in
            (
              prop_n,
              xs,
              n.polarity,
              get-Memᴰ groups prop_n xs at_n,
              mn,
              subst (λ z. Memᴰ (h, z) xs) opposite (subst (Memᴰ (h, w.polarity)) at mw),
            ),
      )

  -- The attacks of the graph are exactly those among the held edges.
  pub attack_graph-Attacks :
      (a h : Hash)
      → Memᴰ h (members (attack_graph s (resolved s (all_edges s.graph))).attackers a) ↔ Attacks a h
  unfolding attack_graph
  attack_graph-Attacks a h =
      let edges = resolved s (all_edges s.graph) in
      let none_yet = no_attacks (keys edges) in
      let start : AttackGraph = record { attackers = none_yet; attacked_by = none_yet } in
      let refuted = add_refutations edges edges start in
      let groups = by_prop s edges [] in
      let listed = contains_iff (members (contend_groups groups refuted).attackers a) h in
      let last = contend_groups-Hits groups refuted a h in
      let first = add_refutations-Hits edges edges start a h in
      let rivals = Rivals-Attacks a h in
      (
        λ m.
            ⊎_elim (λ r. inr (rivals.0 r))
              (λ r.
                ⊎_elim
                  (λ (e, there, one, has_h, at).
                    let (d, held) = has-Memᴰ edges h has_h in
                    inl (e, (Memᴰ-IsHeld a e).0 there, one, at, (d, (Memᴰ-IsHeld h d).0 held)))
                  (λ nothing. absurd (cc (rw (members-no_attacks (keys edges) a) at nothing)))
                  (first.0 r))
              (last.0 (listed.1 m)),
        ⊎_elim
            (λ (e, held, one, at, (d, held_d)). listed.0 (
              last.1 (
                inr (
                  first.1 (
                    inl (
                      e,
                      (Memᴰ-IsHeld a e).1 held,
                      one,
                      Memᴰ-has edges h d ((Memᴰ-IsHeld h d).1 held_d),
                      at,
                    ))))))
            (λ r. listed.0 (last.1 (inl (rivals.1 r)))),
      )
