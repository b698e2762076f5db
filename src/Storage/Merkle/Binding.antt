-- ===== src/Storage/Merkle/Binding.antt =====
-- How far the root determines the leaves.
use arxdb.Base.{
  ℕ, zero, suc, ◌+◌, ◌/◌, ◌<◌, ◌≤◌, ◌≡◌, refl, sym, ap, ◌∙◌, ◌⊎◌, inl, inr, List, [], ◌∷◌, ◌++◌,
  map, Memᴰ, arith, nat_eq, Bytes, bytes_eq, pair_eq, length, length-append,
}
use arxdb.Storage.Hashing.{Blake3, Hash, Collision}
use arxdb.Storage.Merkle.{
  leaf_node, internal_node, next_level, root_of, root_hash, root_of-next, root_of-single,
  next_level-Shorter,
}
use arxdb.Storage.Merkle.Complete.{length-map, length-next_level}
use arxdb.Storage.Merkle.Levels.{
  joined, TreeMessage, at_level, above, RootMessage, leaf, inner, leaf_node_binding,
  internal_node_binding, IsSized, next_level-IsSized, leaves-IsSized,
}

module _ ⦃b : Blake3⦄ where
  next_level_binding :
      (P Q : Bytes → Type 0) (xs ys : List Hash)
      → ((m : Bytes) → Memᴰ m (joined xs) → P m)
      → ((m : Bytes) → Memᴰ m (joined ys) → Q m)
      → length xs ≡ length ys
      → IsSized xs
      → IsSized ys
      → next_level xs ≡ next_level ys
      → (xs ≡ ys) ⊎ Collision P Q
  unfolding next_level joined
  next_level_binding P Q [] [] kx ky n sx sy h = inl refl
  next_level_binding P Q [] (y ∷ ys) kx ky n sx sy h = absurd (omega arith)
  next_level_binding P Q (x ∷ xs) [] kx ky n sx sy h = absurd (omega arith)
  next_level_binding P Q (x ∷ []) (y ∷ []) kx ky n sx sy h =
      elim (internal_node_binding {P = P} {Q = Q} x x y y (kx _ (Memᴰ.head refl))
        (ky _ (Memᴰ.head refl)) (sx x (Memᴰ.head refl) ∙ sym (sy y (Memᴰ.head refl))) (cc)) [
          | inl q ↦ inl (cc (q.0))
          | inr c ↦ inr c
        ]
  next_level_binding P Q (x ∷ []) (y ∷ z ∷ ys) kx ky n sx sy h = absurd (omega arith)
  next_level_binding P Q (x ∷ z ∷ xs) (y ∷ []) kx ky n sx sy h = absurd (omega arith)
  next_level_binding P Q (x ∷ x' ∷ xs) (y ∷ y' ∷ ys) kx ky n sx sy h =
      let rest =
        next_level_binding P Q xs ys (λ m t. kx m (Memᴰ.tail t)) (λ m t. ky m (Memᴰ.tail t))
          (omega arith) (λ a m. sx a (Memᴰ.tail (Memᴰ.tail m)))
          (λ a m. sy a (Memᴰ.tail (Memᴰ.tail m))) (cc) in
      elim (internal_node_binding {P = P} {Q = Q} x x' y y' (kx _ (Memᴰ.head refl))
        (ky _ (Memᴰ.head refl)) (sx x (Memᴰ.head refl) ∙ sym (sy y (Memᴰ.head refl))) (cc)) [
          | inl q ↦ elim rest [ inl r ↦ inl (cc (q.0, q.1, r)) | inr c ↦ inr c ]
          | inr c ↦ inr c
        ]

  root_of_binding :
      (P Q : Bytes → Type 0) (n : ℕ) (xs ys : List Hash)
      → ((m : Bytes) → TreeMessage m xs → P m)
      → ((m : Bytes) → TreeMessage m ys → Q m)
      → length xs ≤ n
      → length xs ≡ length ys
      → IsSized xs
      → IsSized ys
      → root_of xs ≡ root_of ys
      → (xs ≡ ys) ⊎ Collision P Q
  root_of_binding P Q n [] [] kx ky m e sx sy h = inl refl
  root_of_binding P Q n [] (y ∷ ys) kx ky m e sx sy h = absurd (omega arith)
  root_of_binding P Q n (x ∷ xs) [] kx ky m e sx sy h = absurd (omega arith)
  root_of_binding P Q n (x ∷ []) (y ∷ []) kx ky m e sx sy h =
      inl (ap (λ z. z ∷ []) (sym (root_of-single x) ∙ h ∙ root_of-single y))
  root_of_binding P Q n (x ∷ []) (y ∷ z ∷ ys) kx ky m e sx sy h = absurd (omega arith)
  root_of_binding P Q n (x ∷ z ∷ xs) (y ∷ []) kx ky m e sx sy h = absurd (omega arith)
  root_of_binding P Q zero (x ∷ x' ∷ xs) (y ∷ y' ∷ ys) kx ky m e sx sy h = absurd (omega arith)
  root_of_binding P Q (suc n) (x ∷ x' ∷ xs) (y ∷ y' ∷ ys) kx ky m e sx sy h =
      let left = x ∷ x' ∷ xs in
      let right = y ∷ y' ∷ ys in
      let shorter = next_level-Shorter left (omega arith) in
      let size = length-next_level left in
      let size' = length-next_level right in
      let same : root_of (next_level left) ≡ root_of (next_level right) =
        sym (root_of-next left (omega arith)) ∙ h ∙ root_of-next right (omega arith) in
      let above =
        root_of_binding P Q n (next_level left) (next_level right)
          (λ m t. kx m (above (omega arith) t)) (λ m t. ky m (above (omega arith) t)) (omega arith)
          (size ∙ ap (λ k. (k + 1) / 2) e ∙ sym size') (next_level-IsSized left)
          (next_level-IsSized right) same in
      elim above [
        | inl q ↦
            next_level_binding P Q left right (λ m t. kx m (at_level (omega arith) t))
              (λ m t. ky m (at_level (omega arith) t)) e sx sy q
        | inr c ↦ inr c
      ]

  map_leaf_binding :
      (P Q : Bytes → Type 0) (xs ys : List Hash)
      → ((x : Hash) → Memᴰ x xs → P (0 ∷ x))
      → ((y : Hash) → Memᴰ y ys → Q (0 ∷ y))
      → map leaf_node xs ≡ map leaf_node ys
      → (xs ≡ ys) ⊎ Collision P Q
  map_leaf_binding P Q [] [] kx ky h = inl refl
  map_leaf_binding P Q [] (y ∷ ys) kx ky h = cc
  map_leaf_binding P Q (x ∷ xs) [] kx ky h = cc
  map_leaf_binding P Q (x ∷ xs) (y ∷ ys) kx ky h =
      let rest =
        map_leaf_binding P Q xs ys (λ a m. kx a (Memᴰ.tail m)) (λ a m. ky a (Memᴰ.tail m)) (cc) in
      elim (leaf_node_binding {P = P} {Q = Q} x y (kx x (Memᴰ.head refl)) (ky y (Memᴰ.head refl))
        (cc)) [ inl q ↦ elim rest [ inl r ↦ inl (cc (q, r)) | inr c ↦ inr c ] | inr c ↦ inr c ]

  -- Two lists of leaves of one length with one root are the same list, or different messages
  -- that `root_hash` hashes, one for each list, have one hash.
  pub root_hash_binding :
      (xs ys : List Hash)
      → length xs ≡ length ys
      → root_hash xs ≡ root_hash ys
      → (xs ≡ ys) ⊎ Collision (RootMessage xs) (RootMessage ys)
  unfolding root_hash
  root_hash_binding [] [] n h = inl refl
  root_hash_binding [] (y ∷ ys) n h = absurd (omega arith)
  root_hash_binding (x ∷ xs) [] n h = absurd (omega arith)
  root_hash_binding (x ∷ xs) (y ∷ ys) n h =
      let left = map leaf_node (x ∷ xs) in
      let right = map leaf_node (y ∷ ys) in
      let size = length-map leaf_node (x ∷ xs) ∙ n ∙ sym (length-map leaf_node (y ∷ ys)) in
      elim (root_of_binding (RootMessage (x ∷ xs)) (RootMessage (y ∷ ys)) (length left) left right
        (λ m t. inner t) (λ m t. inner t) (omega arith) size (leaves-IsSized (x ∷ xs))
        (leaves-IsSized (y ∷ ys)) h) [
          | inl q ↦
              map_leaf_binding (RootMessage (x ∷ xs)) (RootMessage (y ∷ ys)) (x ∷ xs) (y ∷ ys)
                (λ a m. leaf m) (λ a m. leaf m) q
          | inr c ↦ inr c
        ]

  next_level-repeat_last :
      (k : ℕ) (xs : List Hash) (x : Hash)
      → length xs ≡ k + k
      → next_level (xs ++ x ∷ []) ≡ next_level (xs ++ x ∷ x ∷ [])
  unfolding next_level
  next_level-repeat_last k [] x h = refl
  next_level-repeat_last k (y ∷ []) x h = absurd (omega arith)
  next_level-repeat_last zero (y ∷ z ∷ ys) x h = absurd (omega arith)
  next_level-repeat_last (suc k) (y ∷ z ∷ ys) x h =
      ap (◌∷◌ (internal_node y z)) (next_level-repeat_last k ys x (omega arith))

  map-append_leaf :
      (xs ys : List Hash) → map leaf_node (xs ++ ys) ≡ map leaf_node xs ++ map leaf_node ys
  map-append_leaf [] ys = refl
  map-append_leaf (x ∷ xs) ys = ap (◌∷◌ (leaf_node x)) (map-append_leaf xs ys)

  -- The root does not determine the number of leaves: where an odd number of leaves, three or more,
  -- ends in `x`, one more `x` at the end leaves the root as it was.
  pub root_hash-repeat_last :
      (k : ℕ) (xs : List Hash) (x : Hash)
      → length xs ≡ k + k
      → 0 < k
      → root_hash (xs ++ x ∷ []) ≡ root_hash (xs ++ x ∷ x ∷ [])
  unfolding root_hash
  root_hash-repeat_last k [] x h pos = absurd (omega arith)
  root_hash-repeat_last k (y ∷ ys) x h pos =
      let low = map leaf_node (y ∷ ys) in
      let size = length-map leaf_node (y ∷ ys) in
      let one = length-append low (leaf_node x ∷ []) in
      let two = length-append low (leaf_node x ∷ leaf_node x ∷ []) in
      ap root_of (map-append_leaf (y ∷ ys) (x ∷ []))
      ∙ root_of-next (low ++ leaf_node x ∷ []) (omega arith)
      ∙ ap root_of (next_level-repeat_last k low (leaf_node x) (omega arith))
      ∙ sym (root_of-next (low ++ leaf_node x ∷ leaf_node x ∷ []) (omega arith))
      ∙ sym (ap root_of (map-append_leaf (y ∷ ys) (x ∷ x ∷ [])))
