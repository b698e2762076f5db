-- ===== src/Query/Refutation/Contention.antt =====
-- Which edges attack which in the graph that src/arxdb/query/refutation.py builds.
use arxdb.Base.{
  ◌≡◌, ◌≢◌, refl, sym, ap, ◌∙◌, subst, ◌↔◌, ◌⊎◌, inl, inr, Bool, true, false, not, ◌&&◌, List, [],
  ◌∷◌, Memᴰ, arith, Bool-cases, ==_iff, nat_eq, bytes_eq, pair_eq, if◌then◌else◌, contains,
  Memᴰ-cons,
}
use mathlib.Core.List.Memᴰ
use mathlib.Core.Logic.{⊎_elim}
use arxdb.Base.Dict.{Dict, has}
use arxdb.Storage.Hashing.{Hash}
use arxdb.Verification.Schema.{Text, Edge}
use arxdb.Query.Reachability.Reachable.{is_refutation}
use arxdb.Query.Refutation.{
  AttackGraph, Groups, members, attack, add_refutations, contend_with, contend, of_polarity,
  contend_groups,
}
use arxdb.Query.Refutation.Attacks.{contains-members-set}

-- `h in attackers[a]`
abbrev pub Hits : AttackGraph → Hash → Hash → Type 0
Hits g a h = contains (members g.attackers a) h ≡ true

attack-Hits :
    (x y : Hash) (g : AttackGraph) (a h : Hash)
    → Hits (attack x y g) a h ↔ (((a ≡ x) × (h ≡ y)) ⊎ Hits g a h)
unfolding attack
attack-Hits x y g a h =
    rw (contains-members-set g.attackers x y a h) (ground (arith, ==_iff x a, ==_iff h y))

both : {x y : Bool} → (x && y) ≡ true → (x ≡ true) × (y ≡ true)
both {x = true} {y = true} h = (refl, refl)
both {x = true} {y = false} h = absurd (cc h)
both {x = false} {y = y} h = absurd (cc h)

missed : {x y : Bool} → (x && y) ≡ false → x ≡ true → y ≡ true → ⊥
missed h p q = cc (rw (p, q) at h)

-- `a` refutes the stored edge `h`.
abbrev pub Refutes : Dict Hash Edge → Dict Hash Edge → Hash → Hash → Type 0
Refutes edges rest a h =
    (e : Edge) × Memᴰ (a, e) rest
    × (is_refutation e.type ≡ true)
    × (has edges h ≡ true)
    × (h ≡ e.conclusion)

pub add_refutations-Hits :
    (edges rest : Dict Hash Edge) (g : AttackGraph) (a h : Hash)
    → Hits (add_refutations edges rest g) a h ↔ (Refutes edges rest a h ⊎ Hits g a h)
unfolding add_refutations
add_refutations-Hits edges [] g a h =
    (inr, ⊎_elim (λ (e, m, _, _, _). absurd (Memᴰ.not-nil m)) (λ q. q))
add_refutations-Hits edges ((x, e) ∷ rest) g a h =
    let hit = is_refutation e.type && has edges e.conclusion in
    let later = add_refutations-Hits edges rest (if hit then attack x e.conclusion g else g) a h in
    let now = attack-Hits x e.conclusion g a h in
    let widen : Refutes edges rest a h → Refutes edges ((x, e) ∷ rest) a h =
      λ (d, m, one, there, at). (d, Memᴰ.tail m, one, there, at) in
    elim (Bool-cases hit) [
      | inl t ↦ (
        λ q.
            ⊎_elim (λ r. inl (widen r))
              (λ r.
                ⊎_elim
                  (λ (same, at).
                    let (is_one, there) = both t in
                    inl (e, Memᴰ.head (ap (λ (z : Hash). (z, e)) same), is_one, rw at there, at))
                  inr (now.0 (rw t at r)))
              (later.0 q),
        ⊎_elim
            (λ (d, m, one, there, at).
              ⊎_elim
                (λ (q : _ ≡ _).
                  let same : a ≡ x = ap (λ (z : Hash × Edge). z.0) q in
                  let edge : d ≡ e = ap (λ (z : Hash × Edge). z.1) q in
                  later.1
                    (inr (rw t (now.1 (inl (same, at ∙ ap (λ (z : Edge). z.conclusion) edge))))))
                (λ r. later.1 (inl (d, r, one, there, at))) (Memᴰ.cases_cons m))
            (λ q. later.1 (inr (rw t (now.1 (inr q))))),
      )
      | inr f ↦ (
        λ q. ⊎_elim (λ r. inl (widen r)) (λ r. inr (rw f at r)) (later.0 q),
        ⊎_elim
            (λ (d, m, one, there, at).
              ⊎_elim
                (λ (q : _ ≡ _).
                  let edge : d ≡ e = ap (λ (z : Hash × Edge). z.1) q in
                  absurd (
                    missed f (ap (λ (z : Edge). is_refutation z.type) (sym edge) ∙ one) (
                      ap (has edges) (ap (λ (z : Edge). z.conclusion) (sym edge) ∙ sym at)
                      ∙ there)))
                (λ r. later.1 (inl (d, r, one, there, at))) (Memᴰ.cases_cons m))
            (λ q. later.1 (inr (rw f q))),
      )
    ]

contend_with-Hits :
    (x : Hash) (neg : List Hash) (g : AttackGraph) (a h : Hash)
    → Hits (contend_with x neg g) a h
      ↔ ((((a ≡ x) × Memᴰ h neg) ⊎ ((h ≡ x) × Memᴰ a neg)) ⊎ Hits g a h)
unfolding contend_with
contend_with-Hits x [] g a h = (
  inr,
  ⊎_elim (⊎_elim (λ (_, m). absurd (Memᴰ.not-nil m)) (λ (_, m). absurd (Memᴰ.not-nil m))) (λ q. q),
)
contend_with-Hits x (y ∷ neg) g a h = ground (
  arith,
  contend_with-Hits x neg (attack y x (attack x y g)) a h,
  attack-Hits y x (attack x y g) a h,
  attack-Hits x y g a h,
  Memᴰ-cons a y neg,
  Memᴰ-cons h y neg,
)

contend-Hits :
    (pos neg : List Hash) (g : AttackGraph) (a h : Hash)
    → Hits (contend pos neg g) a h
      ↔ (((Memᴰ a pos × Memᴰ h neg) ⊎ (Memᴰ h pos × Memᴰ a neg)) ⊎ Hits g a h)
unfolding contend
contend-Hits [] neg g a h = (
  inr,
  ⊎_elim (⊎_elim (λ (m, _). absurd (Memᴰ.not-nil m)) (λ (m, _). absurd (Memᴰ.not-nil m))) (λ q. q),
)
contend-Hits (x ∷ pos) neg g a h = ground (
  arith,
  contend-Hits pos neg (contend_with x neg g) a h,
  contend_with-Hits x neg g a h,
  Memᴰ-cons a x pos,
  Memᴰ-cons h x pos,
)

Memᴰ-same :
    (h x : Hash) (p : Bool) {hs : List Hash} {items : List (Hash × Bool)}
    → Memᴰ h hs ↔ Memᴰ (h, p) items
    → Memᴰ h (x ∷ hs) ↔ Memᴰ (h, p) ((x, p) ∷ items)
Memᴰ-same h x p rest = (
  λ m.
      ⊎_elim (λ (q : h ≡ x). Memᴰ.head (ap (λ (z : Hash). (z, p)) q)) (λ t. Memᴰ.tail (rest.0 t))
        (Memᴰ.cases_cons m),
  λ m.
      ⊎_elim (λ (q : _ ≡ _). Memᴰ.head (ap (λ (z : Hash × Bool). z.0) q))
        (λ t. Memᴰ.tail (rest.1 t)) (Memᴰ.cases_cons m),
)

Memᴰ-other :
    (h x : Hash) (p r : Bool) {hs : List Hash} {items : List (Hash × Bool)}
    → p ≢ r
    → Memᴰ h hs ↔ Memᴰ (h, p) items
    → Memᴰ h hs ↔ Memᴰ (h, p) ((x, r) ∷ items)
Memᴰ-other h x p r ne rest = (
  λ m. Memᴰ.tail (rest.0 m),
  λ m.
      ⊎_elim (λ (q : _ ≡ _). absurd (ne (ap (λ (z : Hash × Bool). z.1) q))) rest.1
        (Memᴰ.cases_cons m),
)

Memᴰ-of_polarity :
    (p : Bool) (items : List (Hash × Bool)) (h : Hash)
    → Memᴰ h (of_polarity p items) ↔ Memᴰ (h, p) items
unfolding of_polarity
Memᴰ-of_polarity p [] h = (λ m. absurd (Memᴰ.not-nil m), λ m. absurd (Memᴰ.not-nil m))
Memᴰ-of_polarity true ((x, true) ∷ items) h = Memᴰ-same h x true (Memᴰ-of_polarity true items h)
Memᴰ-of_polarity false ((x, false) ∷ items) h = Memᴰ-same h x false (Memᴰ-of_polarity false items h)
Memᴰ-of_polarity true ((x, false) ∷ items) h =
    Memᴰ-other h x true false (λ q. cc q) (Memᴰ-of_polarity true items h)
Memᴰ-of_polarity false ((x, true) ∷ items) h =
    Memᴰ-other h x false true (λ q. cc q) (Memᴰ-of_polarity false items h)

-- Edges of one group with opposite polarity.
abbrev pub Rivals : Groups → Hash → Hash → Type 0
Rivals groups a h =
    (prop : Text × Text) × (items : List (Hash × Bool)) × (p : Bool) × Memᴰ (prop, items) groups
    × Memᴰ (a, p) items
    × Memᴰ (h, not p) items

opposed :
    (p : Bool) (items : List (Hash × Bool)) (a h : Hash)
    → Memᴰ (a, p) items
    → Memᴰ (h, not p) items
    → (Memᴰ a (of_polarity true items) × Memᴰ h (of_polarity false items))
      ⊎ (Memᴰ h (of_polarity true items) × Memᴰ a (of_polarity false items))
opposed true items a h ma mh =
    inl ((Memᴰ-of_polarity true items a).1 ma, (Memᴰ-of_polarity false items h).1 mh)
opposed false items a h ma mh =
    inr ((Memᴰ-of_polarity true items h).1 mh, (Memᴰ-of_polarity false items a).1 ma)

pub contend_groups-Hits :
    (groups : Groups) (g : AttackGraph) (a h : Hash)
    → Hits (contend_groups groups g) a h ↔ (Rivals groups a h ⊎ Hits g a h)
unfolding contend_groups
contend_groups-Hits [] g a h =
    (inr, ⊎_elim (λ (_, _, _, m, _, _). absurd (Memᴰ.not-nil m)) (λ q. q))
contend_groups-Hits ((prop, items) ∷ groups) g a h =
    let pos = of_polarity true items in
    let neg = of_polarity false items in
    let later = contend_groups-Hits groups (contend pos neg g) a h in
    let now = contend-Hits pos neg g a h in
    let list = λ (p : Bool) (x : Hash). Memᴰ-of_polarity p items x in
    (
      λ q.
          ⊎_elim (λ (other, xs, p, m, ma, mh). inl (other, xs, p, Memᴰ.tail m, ma, mh))
            (λ r.
              ⊎_elim
                (⊎_elim
                  (λ (ma, mh).
                    inl
                      (prop, items, true, Memᴰ.head refl, (list true a).0 ma, (list false h).0 mh))
                  (λ (mh, ma).
                    inl (
                      prop,
                      items,
                      false,
                      Memᴰ.head refl,
                      (list false a).0 ma,
                      (list true h).0 mh,
                    )))
                inr (now.0 r))
            (later.0 q),
      ⊎_elim
          (λ (other, xs, p, m, ma, mh).
            ⊎_elim
              (λ (same : _ ≡ _).
                let at : xs ≡ items = ap (λ (z : (Text × Text) × List (Hash × Bool)). z.1) same in
                later.1 (
                  inr (
                    now.1 (
                      inl (
                        opposed p items a h (subst (Memᴰ (a, p)) at ma)
                          (subst (Memᴰ (h, not p)) at mh))))))
              (λ r. later.1 (inl (other, xs, p, r, ma, mh))) (Memᴰ.cases_cons m))
          (λ q. later.1 (inr (now.1 (inr q)))),
    )
