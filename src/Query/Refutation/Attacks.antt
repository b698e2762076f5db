-- ===== src/Query/Refutation/Attacks.antt =====
-- The two dicts of attacks that src/arxdb/query/refutation.py builds hold the same attacks.
use arxdb.Base.{
  ◌≡◌, refl, ap, inl, inr, Bool, true, false, ◌&&◌, ◌||◌, List, [], ◌∷◌, arith, if◌then◌else◌,
  Bool-cases, ◌==◌, ==_iff, eq_of_==, nat_eq, bytes_eq, pair_eq, contains, add, contains-add,
}
use arxdb.Base.Dict.{Dict, get, set, has, keys, get-set}
use arxdb.Storage.Hashing.{Hash}
use arxdb.Storage.Serialization.{Cbor}
use arxdb.Storage.Facade.{Storage}
use arxdb.Verification.Schema.{Edge}
use arxdb.Query.Reachability.Reachable.{is_refutation}
use arxdb.Query.Refutation.{
  AttackGraph, Groups, members, attack, no_attacks, add_refutations, contend_with, contend,
  of_polarity, contend_groups, by_prop, attack_graph,
}

-- The two dicts hold the same attacks.
abbrev pub IsConverse : AttackGraph → Type 0
IsConverse g =
    (a h : Hash) → contains (members g.attackers a) h ≡ contains (members g.attacked_by h) a

members-set :
    (d : Dict Hash (List Hash)) (k j : Hash) (v : List Hash)
    → members (set d k v) j ≡ (if k == j then v else members d j)
members-set d k j v = elim (Bool-cases (k == j)) [
  | inl t ↦ rw (get-set d k j v, t, members) refl
  | inr f ↦ rw (get-set d k j v, f, members) refl
]

-- The members of the set at one key after `d[k].add(x)`.
pub contains-members-set :
    (d : Dict Hash (List Hash)) (k x j y : Hash)
    → contains (members (set d k (add x (members d k))) j) y
      ≡ (((k == j) && (y == x)) || contains (members d j) y)
contains-members-set d k x j y = elim (Bool-cases (k == j)) [
  | inl t ↦
      rw (members-set d k j (add x (members d k)), t, contains-add x y (members d k))
        (ap (λ z. (y == x) || contains (members d z) y) (eq_of_== k j t))
  | inr f ↦ rw (members-set d k j (add x (members d k)), f) refl
]

==_comm : (x y : Hash) → (x == y) ≡ (y == x)
==_comm x y = ground (arith, ==_iff x y, ==_iff y x)

and_comm : (x y : Bool) → (x && y) ≡ (y && x)
and_comm true true = refl
and_comm true false = refl
and_comm false true = refl
and_comm false false = refl

attack-IsConverse : (h t : Hash) (g : AttackGraph) → IsConverse g → IsConverse (attack h t g)
unfolding attack
attack-IsConverse h t g conv a x =
    rw
      (
        contains-members-set g.attackers h t a x,
        contains-members-set g.attacked_by t h x a,
        conv a x,
        ==_comm a h,
        ==_comm x t,
        and_comm (h == a) (t == x),
      )
      refl

add_refutations-IsConverse :
    (edges rest : Dict Hash Edge) (g : AttackGraph)
    → IsConverse g
    → IsConverse (add_refutations edges rest g)
unfolding add_refutations
add_refutations-IsConverse edges [] g conv = conv
add_refutations-IsConverse edges ((h, e) ∷ rest) g conv =
    add_refutations-IsConverse edges rest
      (if is_refutation e.type && has edges e.conclusion then attack h e.conclusion g else g)
      (elim (Bool-cases (is_refutation e.type && has edges e.conclusion)) [
        | inl t ↦ rw t (attack-IsConverse h e.conclusion g conv)
        | inr f ↦ rw f conv
      ])

contend_with-IsConverse :
    (h : Hash) (neg : List Hash) (g : AttackGraph)
    → IsConverse g
    → IsConverse (contend_with h neg g)
unfolding contend_with
contend_with-IsConverse h [] g conv = conv
contend_with-IsConverse h (x ∷ neg) g conv =
    contend_with-IsConverse h neg (attack x h (attack h x g))
      (attack-IsConverse x h (attack h x g) (attack-IsConverse h x g conv))

contend-IsConverse :
    (pos neg : List Hash) (g : AttackGraph) → IsConverse g → IsConverse (contend pos neg g)
unfolding contend
contend-IsConverse [] neg g conv = conv
contend-IsConverse (h ∷ pos) neg g conv =
    contend-IsConverse pos neg (contend_with h neg g) (contend_with-IsConverse h neg g conv)

contend_groups-IsConverse :
    (groups : Groups) (g : AttackGraph) → IsConverse g → IsConverse (contend_groups groups g)
unfolding contend_groups
contend_groups-IsConverse [] g conv = conv
contend_groups-IsConverse ((prop, items) ∷ groups) g conv =
    contend_groups-IsConverse groups (contend (of_polarity true items) (of_polarity false items) g)
      (contend-IsConverse (of_polarity true items) (of_polarity false items) g conv)

pub members-no_attacks : (hs : List Hash) (h : Hash) → members (no_attacks hs) h ≡ []
unfolding no_attacks get
members-no_attacks [] h = refl
members-no_attacks (x ∷ hs) h = elim (Bool-cases (x == h)) [
  | inl t ↦ rw (t, members) refl
  | inr f ↦ rw (f, members) (members-no_attacks hs h)
]

module _ ⦃c : Cbor⦄ where
  pub attack_graph-IsConverse :
      (s : Storage) (edges : Dict Hash Edge) → IsConverse (attack_graph s edges)
  unfolding attack_graph
  attack_graph-IsConverse s edges =
      let none_yet = no_attacks (keys edges) in
      let start : AttackGraph = record { attackers = none_yet; attacked_by = none_yet } in
      contend_groups-IsConverse (by_prop s edges []) (add_refutations edges edges start) (
        add_refutations-IsConverse edges edges start
          (λ a h. rw (members-no_attacks (keys edges) a, members-no_attacks (keys edges) h) refl))
