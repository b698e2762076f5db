-- ===== src/Storage/GraphIndex/Listing.antt =====
-- What the sorted listings of the index contain.
use arxdb.Base.{
  ◌≡◌, ◌↔◌, ◌⊎◌, inl, inr, true, List, [], ◌∷◌, Memᴰ, arith, Bool-cases, ==_iff, nat_eq, bytes_eq,
  pair_eq, bytes_leb, Memᴰ-cons,
}
use mathlib.Core.List.Memᴰ
use arxdb.Base.Dict.{Dict, get, has, keys}
use arxdb.Storage.Hashing.{Hash}
use arxdb.Storage.GraphIndex.{GraphIndex, insert_hash, sort_hashes, all_edges}

Memᴰ-insert_hash : (a h : Hash) (hs : List Hash) → Memᴰ a (insert_hash h hs) ↔ ((a ≡ h) ⊎ Memᴰ a hs)
unfolding insert_hash
Memᴰ-insert_hash a h [] = Memᴰ-cons a h []
Memᴰ-insert_hash a h (g ∷ gs) = elim (Bool-cases (bytes_leb h g)) [
  | inl t ↦ rw t (Memᴰ-cons a h (g ∷ gs))
  | inr f ↦
      rw f (
        ground (arith, Memᴰ-cons a g (insert_hash h gs), Memᴰ-cons a g gs, Memᴰ-insert_hash a h gs))
]

pub Memᴰ-sort_hashes : (a : Hash) (hs : List Hash) → Memᴰ a (sort_hashes hs) ↔ Memᴰ a hs
unfolding sort_hashes
Memᴰ-sort_hashes a [] = (λ m. m, λ m. m)
Memᴰ-sort_hashes a (h ∷ hs) =
    ground (arith, Memᴰ-insert_hash a h (sort_hashes hs), Memᴰ-sort_hashes a hs, Memᴰ-cons a h hs)

Memᴰ-keys : (d : Dict Hash Hash) (k : Hash) → Memᴰ k (keys d) ↔ (has d k ≡ true)
unfolding get
Memᴰ-keys [] k = (λ m. absurd (Memᴰ.not-nil m), λ h. cc)
Memᴰ-keys ((j, v) ∷ d) k = ground (arith, Memᴰ-keys d k, Memᴰ-cons k j (keys d), ==_iff j k)

-- `all_edges` lists exactly the registered edges.
pub Memᴰ-all_edges : (g : GraphIndex) (h : Hash) → Memᴰ h (all_edges g) ↔ (has g.edges h ≡ true)
unfolding all_edges
Memᴰ-all_edges g h =
    let a = Memᴰ-sort_hashes h (keys g.edges) in
    let b = Memᴰ-keys g.edges h in (λ m. b.0 (a.0 m), λ t. a.1 (b.1 t))
