-- ===== src/Storage/Merkle/Levels.antt =====
-- The nodes of a level of the Merkle tree of src/arxdb/storage/merkle.py: their lengths, their
-- parents, and what equal nodes tell of their children.
use arxdb.Base.{
  ◌<◌, ◌≡◌, refl, ◌⊎◌, inl, inr, List, [], ◌∷◌, ◌++◌, map, Memᴰ, arith, nat_eq, Bytes, bytes_eq,
  pair_eq, length,
}
use mathlib.Core.List.Memᴰ
use mathlib.Core.Logic.{⊎_elim}
use arxdb.Storage.Hashing.{
  Blake3, Hash, Collision, hash_size, hash_bytes_binding, length-hash_bytes,
}
use arxdb.Storage.Merkle.{leaf_node, internal_node, next_level}

append_split : (a c b d : Bytes) → length a ≡ length c → a ++ b ≡ c ++ d → (a ≡ c) × (b ≡ d)
append_split [] [] b d e h = (refl, h)
append_split [] (y ∷ c) b d e h = absurd (omega arith)
append_split (x ∷ a) [] b d e h = absurd (omega arith)
append_split (x ∷ a) (y ∷ c) b d e h =
    let r = append_split a c b d (omega arith) (cc) in (cc (r.0, h), r.1)

module _ ⦃b : Blake3⦄ where
  -- The messages that are hashed for the level above.
  unfoldable pub joined : List Hash → List Bytes
  joined [] = []
  joined (left ∷ []) = (1 ∷ (left ++ left)) ∷ []
  joined (left ∷ right ∷ rest) = (1 ∷ (left ++ right)) ∷ joined rest

  -- The messages that are hashed on the way from a level to the root.
  pub data TreeMessage (m : Bytes) : List Hash → Type 0 where
    at_level : {level : List Hash} → 1 < length level → Memᴰ m (joined level) → TreeMessage m level
    above :
        {level : List Hash}
        → 1 < length level
        → TreeMessage m (next_level level)
        → TreeMessage m level

  -- The messages that `root_hash` hashes.
  pub data RootMessage (leaves : List Hash) : Bytes → Type 0 where
    sentinel : leaves ≡ [] → RootMessage leaves (2 ∷ [])
    leaf : {x : Hash} → Memᴰ x leaves → RootMessage leaves (0 ∷ x)
    inner : {m : Bytes} → TreeMessage m (map leaf_node leaves) → RootMessage leaves m

  pub leaf_node_binding :
      {P Q : Bytes → Type 0} (x y : Hash)
      → P (0 ∷ x)
      → Q (0 ∷ y)
      → leaf_node x ≡ leaf_node y
      → (x ≡ y) ⊎ Collision P Q
  unfolding leaf_node
  leaf_node_binding x y px qy h = elim (hash_bytes_binding (0 ∷ x) (0 ∷ y) px qy h) [
    | inl e ↦ inl (cc)
    | inr c ↦ inr c
  ]

  pub internal_node_binding :
      {P Q : Bytes → Type 0} (l r l' r' : Hash)
      → P (1 ∷ (l ++ r))
      → Q (1 ∷ (l' ++ r'))
      → length l ≡ length l'
      → internal_node l r ≡ internal_node l' r'
      → ((l ≡ l') × (r ≡ r')) ⊎ Collision P Q
  unfolding internal_node
  internal_node_binding l r l' r' p q n h =
      elim (hash_bytes_binding (1 ∷ (l ++ r)) (1 ∷ (l' ++ r')) p q h) [
        | inl e ↦ inl (append_split l l' r r' n (cc))
        | inr c ↦ inr c
      ]

  -- The prefixes keep leaves and internal nodes apart.
  pub leaf_internal :
      {P Q : Bytes → Type 0} (x l r : Hash)
      → P (0 ∷ x)
      → Q (1 ∷ (l ++ r))
      → leaf_node x ≡ internal_node l r
      → Collision P Q
  unfolding leaf_node internal_node
  leaf_internal x l r p q h = elim (hash_bytes_binding (0 ∷ x) (1 ∷ (l ++ r)) p q h) [
    | inl e ↦ absurd (grind arith)
    | inr c ↦ c
  ]

  pub internal_leaf :
      {P Q : Bytes → Type 0} (x l r : Hash)
      → P (1 ∷ (l ++ r))
      → Q (0 ∷ x)
      → internal_node l r ≡ leaf_node x
      → Collision P Q
  unfolding leaf_node internal_node
  internal_leaf x l r p q h = elim (hash_bytes_binding (1 ∷ (l ++ r)) (0 ∷ x) p q h) [
    | inl e ↦ absurd (grind arith)
    | inr c ↦ c
  ]

  -- The parents of a level.
  pub mem-next_level :
      (x : Hash) (level : List Hash)
      → Memᴰ x (next_level level)
      → (l : Hash) × (r : Hash) × Memᴰ l level
        × Memᴰ r level
        × (x ≡ internal_node l r)
        × Memᴰ (1 ∷ (l ++ r)) (joined level)
  unfolding next_level joined
  mem-next_level x [] m = absurd (Memᴰ.not-nil m)
  mem-next_level x (y ∷ []) m =
      (y, y, Memᴰ.head refl, Memᴰ.head refl, Memᴰ.eq_of_singleton m, Memᴰ.head refl)
  mem-next_level x (y ∷ z ∷ rest) m =
      ⊎_elim (λ e. (y, z, Memᴰ.head refl, Memᴰ.tail (Memᴰ.head refl), e, Memᴰ.head refl))
        (λ t.
          let (l, r, ml, mr, e, mj) = mem-next_level x rest t in
          (l, r, Memᴰ.tail (Memᴰ.tail ml), Memᴰ.tail (Memᴰ.tail mr), e, Memᴰ.tail mj))
        (Memᴰ.cases_cons m)

  abbrev pub IsSized : List Hash → Type 0
  IsSized level = (x : Hash) → Memᴰ x level → length x ≡ hash_size

  pub next_level-IsSized : (level : List Hash) → IsSized (next_level level)
  unfolding internal_node
  next_level-IsSized level x m =
      let (l, r, ml, mr, e, _) = mem-next_level x level m in rw e (length-hash_bytes (1 ∷ (l ++ r)))

  pub mem-map_leaf :
      (x : Hash) (leaves : List Hash)
      → Memᴰ x (map leaf_node leaves)
      → (y : Hash) × Memᴰ y leaves × (x ≡ leaf_node y)
  mem-map_leaf x [] m = absurd (Memᴰ.not-nil m)
  mem-map_leaf x (y ∷ ys) m =
      ⊎_elim (λ e. (y, Memᴰ.head refl, e))
        (λ t. let (z, mz, e) = mem-map_leaf x ys t in (z, Memᴰ.tail mz, e)) (Memᴰ.cases_cons m)

  pub leaves-IsSized : (leaves : List Hash) → IsSized (map leaf_node leaves)
  unfolding leaf_node
  leaves-IsSized leaves x m =
      let (y, my, e) = mem-map_leaf x leaves m in rw e (length-hash_bytes (0 ∷ y))
