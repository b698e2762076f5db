-- ===== src/Storage/Merkle/Complete.antt =====
-- Every leaf has a proof, and the proof verifies against the root.
use arxdb.Base.{
  leb-false_of_lt, leb-true_of_le, ℕ, zero, suc, ◌+◌, ◌/◌, ◌%◌, ◌<◌, ◌≤◌, ◌≡◌, refl, sym, ap, ◌∙◌,
  subst, true, List, [], ◌∷◌, map, arith, nat_beq, if◌then◌else◌, ==_iff, nat_eq, bytes_eq, pair_eq,
  length,
}
use arxdb.Base.Result.{ok, err, index_error}
use arxdb.Storage.Hashing.{Blake3, Hash}
use arxdb.Storage.Merkle.{
  MerkleInclusionProof, get_or, leaf_node, internal_node, next_level, root_of, root_hash, sibling,
  path_of, inclusion_proof, fold_path, verify_inclusion, root_of-next, root_of-single, path_of-next,
  path_of-single, next_level-Shorter,
}

module _ ⦃b : Blake3⦄ where
  pub length-next_level : (level : List Hash) → length (next_level level) ≡ (length level + 1) / 2
  unfolding next_level
  length-next_level [] = omega arith
  length-next_level (x ∷ []) = omega arith
  length-next_level (x ∷ y ∷ rest) = omega (arith, length-next_level rest)

  -- A node joined with its sibling is its parent in the next level.
  abbrev join : List Hash → ℕ → Hash
  join level idx =
      if nat_beq (idx % 2) 0
      then internal_node (get_or level idx []) (sibling level idx)
      else internal_node (sibling level idx) (get_or level idx [])

  join-step :
      (x y : Hash) (rest : List Hash) (i : ℕ)
      → i < length rest
      → join (x ∷ y ∷ rest) (suc (suc i)) ≡ join rest i
  unfolding sibling
  join-step x y rest i h = ground arith

  join-parent :
      (level : List Hash) (idx : ℕ)
      → idx < length level
      → join level idx ≡ get_or (next_level level) (idx / 2) []
  unfolding next_level
  join-parent [] idx h = absurd (omega arith)
  join-parent (x ∷ []) zero h = unfold sibling in refl
  join-parent (x ∷ []) (suc i) h = absurd (omega arith)
  join-parent (x ∷ y ∷ rest) zero h = unfold sibling in ground arith
  join-parent (x ∷ y ∷ rest) (suc zero) h = unfold sibling in refl
  join-parent (x ∷ y ∷ rest) (suc (suc i)) h =
      let e : suc (suc i) / 2 ≡ suc (i / 2) = omega arith in
      rw e (join-step x y rest i (omega arith) ∙ join-parent rest i (omega arith))

  fold_path-cons :
      (s : Hash) (path : List Hash) (idx : ℕ) (c : Hash)
      → fold_path (s ∷ path) idx c
        ≡ fold_path path
            (idx / 2)
            (if nat_beq (idx % 2) 0 then internal_node c s else internal_node s c)
  unfolding fold_path
  fold_path-cons s path idx c = refl

  fold_path-path_of :
      (n : ℕ) (level : List Hash) (idx : ℕ)
      → length level ≤ n
      → idx < length level
      → fold_path (path_of level idx) idx (get_or level idx []) ≡ root_of level
  fold_path-path_of n [] idx m h = absurd (omega arith)
  fold_path-path_of n (x ∷ []) zero m h =
      rw (path_of-single x 0) (unfold fold_path in sym (root_of-single x))
  fold_path-path_of n (x ∷ []) (suc i) m h = absurd (omega arith)
  fold_path-path_of zero (x ∷ y ∷ rest) idx m h = absurd (omega arith)
  fold_path-path_of (suc n) (x ∷ y ∷ rest) idx m h =
      let level = x ∷ y ∷ rest in
      let shorter = next_level-Shorter level (omega arith) in
      let size = length-next_level level in
      let up = fold_path-path_of n (next_level level) (idx / 2) (omega arith) (omega arith) in
      rw (path_of-next level idx (omega arith), root_of-next level (omega arith))
        (fold_path-cons (sibling level idx) (path_of (next_level level) (idx / 2)) idx
            (get_or level idx [])
          ∙ ap (fold_path (path_of (next_level level) (idx / 2)) (idx / 2))
              (join-parent level idx h)
          ∙ up)

  get_or-map :
      (f : Hash → Hash) (xs : List Hash) (i : ℕ)
      → i < length xs
      → get_or (map f xs) i [] ≡ f (get_or xs i [])
  get_or-map f [] i h = absurd (omega arith)
  get_or-map f (x ∷ xs) zero h = refl
  get_or-map f (x ∷ xs) (suc i) h = get_or-map f xs i (omega arith)

  pub length-map : (f : Hash → Hash) (xs : List Hash) → length (map f xs) ≡ length xs
  length-map f [] = refl
  length-map f (x ∷ xs) = ap suc (length-map f xs)

  -- For an index in range `inclusion_proof` succeeds, its proof names the leaf at that index and
  -- `verify_inclusion` accepts it against the root; out of range it raises `IndexError`.
  pub inclusion_proof_complete :
      (leaves : List Hash) (index : ℕ)
      → (index < length leaves
          → (p : MerkleInclusionProof) × (inclusion_proof leaves index ≡ ok p)
            × (p.leaf_hash ≡ get_or leaves index [])
            × (p.index ≡ index)
            × (verify_inclusion p (root_hash leaves) ≡ true))
        × (length leaves ≤ index → inclusion_proof leaves index ≡ err index_error)
  unfolding inclusion_proof verify_inclusion root_hash
  inclusion_proof_complete [] index = (λ h. absurd (omega arith), λ h. refl)
  inclusion_proof_complete (x ∷ xs) index = (
    λ h.
        let level = map leaf_node (x ∷ xs) in
        let size = length-map leaf_node (x ∷ xs) in
        let folds = fold_path-path_of (length level) level index (omega arith) (omega arith) in
        let leaf = get_or-map leaf_node (x ∷ xs) index h in
        (
          record {
            leaf_hash = get_or (x ∷ xs) index [];
            index = index;
            path = path_of level index;
          },
          rw (leb-false_of_lt _ _ h),
          refl,
          refl,
          (==_iff _ _).1
              (subst (λ c. fold_path (path_of level index) index c ≡ root_of level) leaf folds),
        ),
    λ h. rw (leb-true_of_le _ _ h),
  )
