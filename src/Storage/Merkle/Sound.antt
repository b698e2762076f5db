-- ===== src/Storage/Merkle/Sound.antt =====
-- What a verified proof and an equal root guarantee: the leaves, or a collision of the hash.
use arxdb.Base.{
  ℕ, zero, suc, ◌/◌, ◌%◌, ◌<◌, ◌≤◌, ◌≡◌, refl, sym, ap, ◌∙◌, subst, ◌≢◌, ◌⊎◌, inl, inr, true, List,
  [], ◌∷◌, ◌++◌, map, Memᴰ, arith, nat_beq, if◌then◌else◌, Bool-cases, eq_of_==, nat_eq, Bytes,
  bytes_eq, pair_eq, length,
}
use mathlib.Core.Logic.{⊎_elim}
use arxdb.Storage.Hashing.{
  Blake3, Hash, Collision, Collision-map, hash_size, hash_bytes_binding, length-hash_bytes,
  hash_bytes,
}
use arxdb.Storage.Merkle.{
  MerkleInclusionProof, leaf_node, internal_node, next_level, root_of, root_hash, fold_path,
  verify_inclusion, root_of-next, root_of-single, next_level-Shorter, empty_root,
}
use arxdb.Storage.Merkle.Levels.{
  TreeMessage, at_level, above, RootMessage, sentinel, leaf, inner, IsSized, leaf_node_binding,
  internal_node_binding, leaf_internal, internal_leaf, mem-next_level, next_level-IsSized,
  mem-map_leaf, leaves-IsSized,
}

module _ ⦃b : Blake3⦄ where
  -- The nodes of the tree that the loop builds over a level.
  data InTree (x : Hash) : List Hash → Type 0 where
    here : {level : List Hash} → Memᴰ x level → InTree x level
    up : {level : List Hash} → 1 < length level → InTree x (next_level level) → InTree x level

  root_of-InTree :
      (n : ℕ) (level : List Hash)
      → length level ≤ n
      → 0 < length level
      → InTree (root_of level) level
  root_of-InTree n [] m h = absurd (omega arith)
  root_of-InTree n (x ∷ []) m h = here (Memᴰ.head (root_of-single x))
  root_of-InTree zero (x ∷ y ∷ rest) m h = absurd (omega arith)
  root_of-InTree (suc n) (x ∷ y ∷ rest) m h =
      let level = x ∷ y ∷ rest in
      let shorter = next_level-Shorter level (omega arith) in
      let pos : 0 < length (next_level level) = unfold next_level in omega arith in
      rw (root_of-next level (omega arith))
        (up (omega arith) (root_of-InTree n (next_level level) (omega arith) pos))

  -- Above the leaves a node of the tree has both its children in the tree.
  children :
      {P : Bytes → Type 0} (l r : Hash) {nodes : List Hash} (level : List Hash)
      → P (1 ∷ (l ++ r))
      → length l ≡ hash_size
      → InTree (internal_node l r) nodes
      → nodes ≡ next_level level
      → 1 < length level
      → IsSized level
      → (InTree l level × InTree r level) ⊎ Collision P (λ m. TreeMessage m level)
  children l r level p n (here m) e more sized =
      let (l', r', ml, mr, same, mj) =
        mem-next_level (internal_node l r) level (subst (Memᴰ _) e m) in
      elim (internal_node_binding {Q = λ w. TreeMessage w level} l r l' r' p (at_level more mj)
        (n ∙ sym (sized l' ml)) same) [
          | inl q ↦ inl (
            here (subst (λ z. Memᴰ z level) (sym q.0) ml),
            here (subst (λ z. Memᴰ z level) (sym q.1) mr),
          )
          | inr c ↦ inr c
        ]
  children l r level p n (up {level = nodes} h t) e more sized =
      elim (children l r nodes p n t refl h (subst IsSized (sym e) (next_level-IsSized level))) [
        | inl q ↦ inl (up more (subst (InTree l) e q.0), up more (subst (InTree r) e q.1))
        | inr c ↦ inr (Collision-map (λ m k. k) (λ m t. above more (subst (TreeMessage m) e t)) c)
      ]

  -- A hash of a leaf stands in no level above the leaves.
  leaf_above :
      {P : Bytes → Type 0} (x : Hash) {nodes : List Hash} (level : List Hash)
      → P (0 ∷ x)
      → InTree (leaf_node x) nodes
      → nodes ≡ next_level level
      → 1 < length level
      → Collision P (λ m. TreeMessage m level)
  leaf_above x level p (here m) e more =
      let (l, r, _, _, same, mj) = mem-next_level (leaf_node x) level (subst (Memᴰ _) e m) in
      leaf_internal x l r p (at_level more mj) same
  leaf_above x level p (up {level = nodes} h t) e more =
      Collision-map (λ m k. k) (λ m t. above more (subst (TreeMessage m) e t))
        (leaf_above x nodes p t refl h)

  InTree-leaf :
      {P : Bytes → Type 0} (x : Hash) (leaves : List Hash) {nodes : List Hash}
      → P (0 ∷ x)
      → InTree (leaf_node x) nodes
      → nodes ≡ map leaf_node leaves
      → Memᴰ x leaves ⊎ Collision P (RootMessage leaves)
  InTree-leaf x leaves p (here m) e =
      let (y, my, same) = mem-map_leaf (leaf_node x) leaves (subst (Memᴰ _) e m) in
      elim (leaf_node_binding {Q = RootMessage leaves} x y p (leaf my) same) [
        | inl q ↦ inl (subst (λ z. Memᴰ z leaves) (sym q) my)
        | inr c ↦ inr c
      ]
  InTree-leaf x leaves p (up {level = nodes} h t) e = inr (
      Collision-map (λ m k. k) (λ m t. inner (subst (TreeMessage m) e t))
        (leaf_above x nodes p t refl h))

  InTree-internal :
      {P : Bytes → Type 0} (l r : Hash) (leaves : List Hash) {nodes : List Hash}
      → P (1 ∷ (l ++ r))
      → length l ≡ hash_size
      → InTree (internal_node l r) nodes
      → nodes ≡ map leaf_node leaves
      → (InTree l nodes × InTree r nodes) ⊎ Collision P (RootMessage leaves)
  InTree-internal l r leaves p n (here m) e =
      let (y, my, same) = mem-map_leaf (internal_node l r) leaves (subst (Memᴰ _) e m) in
      inr (internal_leaf y l r p (leaf my) same)
  InTree-internal l r leaves p n (up {level = nodes} h t) e =
      ⊎_elim inl (λ c. inr (Collision-map (λ m k. k) (λ m t. inner (subst (TreeMessage m) e t)) c))
        (children l r nodes p n t refl h (subst IsSized (sym e) (leaves-IsSized leaves)))

  abbrev parent : ℕ → Hash → Hash → Hash
  parent idx c s = if nat_beq (idx % 2) 0 then internal_node c s else internal_node s c

  abbrev parent_message : ℕ → Hash → Hash → Bytes
  parent_message idx c s = if nat_beq (idx % 2) 0 then 1 ∷ (c ++ s) else 1 ∷ (s ++ c)

  -- The messages that are hashed along a path.
  unfoldable path_messages : List Hash → ℕ → Hash → List Bytes
  path_messages [] idx c = []
  path_messages (s ∷ path) idx c =
      parent_message idx c s ∷ path_messages path (idx / 2) (parent idx c s)

  -- The messages that `verify_inclusion` hashes.
  unfoldable pub proof_messages : MerkleInclusionProof → List Bytes
  unfolding path_messages
  proof_messages p = (0 ∷ p.leaf_hash) ∷ path_messages p.path p.index (leaf_node p.leaf_hash)

  length-parent : (idx : ℕ) (c s : Hash) → length (parent idx c s) ≡ hash_size
  unfolding internal_node
  length-parent idx c s = elim (Bool-cases (nat_beq (idx % 2) 0)) [
    | inl e ↦ rw e (length-hash_bytes _)
    | inr e ↦ rw e (length-hash_bytes _)
  ]

  InTree-parent :
      {P : Bytes → Type 0} (idx : ℕ) (c s : Hash) (leaves : List Hash)
      → P (parent_message idx c s)
      → length c ≡ hash_size
      → length s ≡ hash_size
      → InTree (parent idx c s) (map leaf_node leaves)
      → InTree c (map leaf_node leaves) ⊎ Collision P (RootMessage leaves)
  InTree-parent {P = P} idx c s leaves p nc ns t = elim (Bool-cases (nat_beq (idx % 2) 0)) [
    | inl e ↦ elim (InTree-internal {P = P} c s leaves (rw e at p) nc (rw e at t) refl) [
      | inl q ↦ inl q.0
      | inr x ↦ inr x
    ]
    | inr e ↦ elim (InTree-internal {P = P} s c leaves (rw e at p) ns (rw e at t) refl) [
      | inl q ↦ inl q.1
      | inr x ↦ inr x
    ]
  ]

  fold_path-InTree :
      {P : Bytes → Type 0} (path : List Hash) (idx : ℕ) (c : Hash) (leaves : List Hash)
      → ((m : Bytes) → Memᴰ m (path_messages path idx c) → P m)
      → length c ≡ hash_size
      → IsSized path
      → 0 < length (map leaf_node leaves)
      → fold_path path idx c ≡ root_of (map leaf_node leaves)
      → InTree c (map leaf_node leaves) ⊎ Collision P (RootMessage leaves)
  unfolding fold_path path_messages
  fold_path-InTree [] idx c leaves known n sized pos h = inl (
      subst (λ z. InTree z (map leaf_node leaves)) (sym h)
        (root_of-InTree (length (map leaf_node leaves)) (map leaf_node leaves) (omega arith) pos))
  fold_path-InTree (s ∷ path) idx c leaves known n sized pos h =
      elim (fold_path-InTree path (idx / 2) (parent idx c s) leaves (λ m t. known m (Memᴰ.tail t))
        (length-parent idx c s) (λ x m. sized x (Memᴰ.tail m)) pos h) [
          | inl t ↦
              InTree-parent idx c s leaves (known (parent_message idx c s) (Memᴰ.head refl)) n
                (sized s (Memᴰ.head refl)) t
          | inr x ↦ inr x
        ]

  -- No fold of a path reaches the sentinel root of the empty tree.
  abbrev Tagged : (Bytes → Type 0) → Hash → Type 0
  Tagged P c = (t : ℕ) × (body : Bytes) × (t ≢ 2) × P (t ∷ body) × (c ≡ hash_bytes (t ∷ body))

  parent-Tagged :
      (P : Bytes → Type 0) (idx : ℕ) (c s : Hash)
      → P (parent_message idx c s)
      → Tagged P (parent idx c s)
  unfolding internal_node
  parent-Tagged P idx c s p = elim (Bool-cases (nat_beq (idx % 2) 0)) [
    | inl e ↦ rw e (1, c ++ s, omega arith, rw e at p, refl)
    | inr e ↦ rw e (1, s ++ c, omega arith, rw e at p, refl)
  ]

  fold_path-ne-empty_root :
      (P : Bytes → Type 0) (path : List Hash) (idx : ℕ) (c : Hash)
      → ((m : Bytes) → Memᴰ m (path_messages path idx c) → P m)
      → Tagged P c
      → fold_path path idx c ≡ empty_root
      → Collision P (RootMessage [])
  unfolding fold_path path_messages
  fold_path-ne-empty_root P [] idx c known (t, body, ne, p, e) h =
      elim (hash_bytes_binding {P = P} {Q = RootMessage []} (t ∷ body) (2 ∷ []) p (sentinel refl)
        (unfold empty_root in sym e ∙ h)) [
          | inl q ↦ absurd (ne (ap (λ (xs : Bytes). elim xs [ [] ↦ 0 | x ∷ _ ↦ x ]) q))
          | inr x ↦ x
        ]
  fold_path-ne-empty_root P (s ∷ path) idx c known tagged h =
      fold_path-ne-empty_root P path (idx / 2) (parent idx c s) (λ m t. known m (Memᴰ.tail t))
        (parent-Tagged P idx c s (known (parent_message idx c s) (Memᴰ.head refl))) h

  -- A proof that `verify_inclusion` accepts against the root of `leaves`, whatever its index and
  -- the length of its path, names one of the leaves, or a message that `verify_inclusion` hashes and
  -- another one that `root_hash` hashes for the leaves have one hash.
  pub verify_inclusion_sound :
      (leaves : List Hash) (p : MerkleInclusionProof)
      → IsSized p.path
      → verify_inclusion p (root_hash leaves) ≡ true
      → Memᴰ p.leaf_hash leaves ⊎ Collision (λ m. Memᴰ m (proof_messages p)) (RootMessage leaves)
  unfolding verify_inclusion root_hash proof_messages
  verify_inclusion_sound [] p sized h = inr (
      fold_path-ne-empty_root (λ m. Memᴰ m (proof_messages p)) p.path p.index
        (leaf_node p.leaf_hash) (λ m t. Memᴰ.tail t)
        (unfold leaf_node in (0, p.leaf_hash, omega arith, Memᴰ.head refl, refl)) (eq_of_== _ _ h))
  verify_inclusion_sound (x ∷ xs) p sized h =
      elim (fold_path-InTree {P = λ m. Memᴰ m (proof_messages p)} p.path p.index
        (leaf_node p.leaf_hash) (x ∷ xs) (λ m t. Memᴰ.tail t)
        (unfold leaf_node in length-hash_bytes (0 ∷ p.leaf_hash)) sized (omega arith)
        (eq_of_== _ _ h)) [
          | inl t ↦ InTree-leaf p.leaf_hash (x ∷ xs) (Memᴰ.head refl) t refl
          | inr c ↦ inr c
        ]
