-- ===== src/Storage/Merkle.antt =====
-- src/arxdb/storage/merkle.py. A level of the tree is the list of its node hashes; the loop over the
-- levels recurs on a proof that levels get shorter.
pub mod Complete
pub mod Levels
pub mod Sound
pub mod Binding
use arxdb.Base.{
  ℕ, zero, suc, ◌+◌, ◌-◌, ◌/◌, ◌%◌, ◌<◌, ◌≤◌, ◌≡◌, ap, Bool, List, [], ◌∷◌, ◌++◌, map, arith, leb,
  nat_beq, if◌then◌else◌, ◌==◌, nat_eq, bytes_eq, pair_eq, length,
}
use mathlib.Core.Logic.{dite, dif_pos, dif_neg}
use mathlib.Core.WellFounded.{Acc, Acc-prop}
use native.Mathlib.Bridge.{le_prop}
use native.Mathlib.Decide.{dec_lt}
use arxdb.Base.Result.{Result, ok, err, index_error}
use arxdb.Storage.Hashing.{Blake3, Hash, hash_bytes}

pub record MerkleInclusionProof : Type 0 where
  pub leaf_hash : Hash
  pub index : ℕ
  pub path : List Hash

-- `level[i]`
abbrev pub get_or : List Hash → ℕ → Hash → Hash
get_or [] i d = d
get_or (x ∷ xs) zero d = x
get_or (x ∷ xs) (suc i) d = get_or xs i d

abbrev pub Shorter : List Hash → List Hash → Type 0
Shorter a b = length a < length b

Acc-shorter : (n : ℕ) (level : List Hash) → length level < n → Acc Shorter level
Acc-shorter zero level h = absurd (omega arith)
Acc-shorter (suc n) level h = Acc.intro level (λ m hm. Acc-shorter n m (omega arith))

unfoldable pub shorter_acc : (level : List Hash) → Acc Shorter level
unfolding Acc-shorter
shorter_acc level = Acc-shorter (suc (length level)) level (omega arith)

module _ ⦃b : Blake3⦄ where
  unfoldable pub leaf_node : Hash → Hash
  leaf_node leaf = hash_bytes (0 ∷ leaf)

  unfoldable pub internal_node : Hash → Hash → Hash
  internal_node left right = hash_bytes (1 ∷ (left ++ right))

  unfoldable pub empty_root : Hash
  empty_root = hash_bytes (2 ∷ [])

  -- `for i in range(0, len(level), 2)`: the last node of an odd level is paired with itself.
  unfoldable pub next_level : List Hash → List Hash
  next_level [] = []
  next_level (left ∷ []) = internal_node left left ∷ []
  next_level (left ∷ right ∷ rest) = internal_node left right ∷ next_level rest

  pub next_level-le : (level : List Hash) → length (next_level level) ≤ length level
  unfolding next_level
  next_level-le [] = omega arith
  next_level-le (x ∷ []) = omega arith
  next_level-le (x ∷ y ∷ rest) = omega (arith, next_level-le rest)

  pub next_level-Shorter : (level : List Hash) → 1 < length level → Shorter (next_level level) level
  unfolding next_level
  next_level-Shorter [] h = absurd (omega arith)
  next_level-Shorter (x ∷ []) h = absurd (omega arith)
  next_level-Shorter (x ∷ y ∷ rest) h = omega (arith, next_level-le rest)

  -- `while len(level) > 1: ...; return level[0]`
  pub climb : (level : List Hash) → Acc Shorter level → Hash
  climb level (Acc.intro _ smaller) =
      dite (dec_lt 1 (length level))
        (λ h. climb (next_level level) (smaller (next_level level) (next_level-Shorter level h)))
        (λ _. get_or level 0 [])

  unfoldable pub root_of : List Hash → Hash
  unfolding climb shorter_acc dec_lt next_level
  root_of level = climb level (shorter_acc level)

  unfoldable pub root_hash : List Hash → Hash
  unfolding root_of leaf_node empty_root internal_node
  root_hash [] = empty_root
  root_hash (h ∷ hs) = root_of (map leaf_node (h ∷ hs))

  -- The sibling of the node at `idx`; the last node of an odd level is its own.
  unfoldable pub sibling : List Hash → ℕ → Hash
  sibling level idx =
      if nat_beq (idx % 2) 0
      then get_or level (if leb (length level) (idx + 1) then idx else idx + 1) []
      else get_or level (idx - 1) []

  pub climb_path : (level : List Hash) → ℕ → Acc Shorter level → List Hash
  climb_path level idx (Acc.intro _ smaller) =
      dite (dec_lt 1 (length level))
        (λ h.
          sibling level idx
          ∷ climb_path (next_level level) (idx / 2)
              (smaller (next_level level) (next_level-Shorter level h)))
        (λ _. [])

  unfoldable pub path_of : List Hash → ℕ → List Hash
  unfolding climb_path shorter_acc dec_lt next_level sibling
  path_of level idx = climb_path level idx (shorter_acc level)

  unfoldable pub inclusion_proof : List Hash → ℕ → Result MerkleInclusionProof
  unfolding path_of leaf_node internal_node
  inclusion_proof [] index = err index_error
  inclusion_proof (h ∷ hs) index =
      if leb (length (h ∷ hs)) index
      then err index_error
      else ok (record {
        leaf_hash = get_or (h ∷ hs) index [];
        index = index;
        path = path_of (map leaf_node (h ∷ hs)) index;
      })

  -- `for sibling in proof.path`
  unfoldable pub fold_path : List Hash → ℕ → Hash → Hash
  fold_path [] idx current = current
  fold_path (s ∷ path) idx current =
      fold_path path (idx / 2)
        (if nat_beq (idx % 2) 0 then internal_node current s else internal_node s current)

  unfoldable pub verify_inclusion : MerkleInclusionProof → Hash → Bool
  unfolding fold_path leaf_node internal_node
  verify_inclusion proof root = fold_path proof.path proof.index (leaf_node proof.leaf_hash) == root

  climb-next :
      (level : List Hash) (v : Acc Shorter level) (w : Acc Shorter (next_level level))
      → 1 < length level
      → climb level v ≡ climb (next_level level) w
  unfolding climb
  climb-next level (Acc.intro _ f) w h = rw (dif_pos _ le_prop h) (
      ap (climb (next_level level)) {x = f (next_level level) (next_level-Shorter level h)}
        (Acc-prop _ w))

  climb-single : (x : Hash) (v : Acc Shorter (x ∷ [])) → climb (x ∷ []) v ≡ x
  unfolding climb
  climb-single x (Acc.intro _ f) =
      (let h : ¬ (1 < length (x ∷ [])) = omega arith in rw (dif_neg _ h))

  climb_path-next :
      (level : List Hash) (idx : ℕ) (v : Acc Shorter level) (w : Acc Shorter (next_level level))
      → 1 < length level
      → climb_path level idx v ≡ sibling level idx ∷ climb_path (next_level level) (idx / 2) w
  unfolding climb_path
  climb_path-next level idx (Acc.intro _ f) w h = rw (dif_pos _ le_prop h) (
      ap (λ v. sibling level idx ∷ climb_path (next_level level) (idx / 2) v)
        {x = f (next_level level) (next_level-Shorter level h)} (Acc-prop _ w))

  climb_path-single :
      (x : Hash) (idx : ℕ) (v : Acc Shorter (x ∷ [])) → climb_path (x ∷ []) idx v ≡ []
  unfolding climb_path
  climb_path-single x idx (Acc.intro _ f) =
      (let h : ¬ (1 < length (x ∷ [])) = omega arith in rw (dif_neg _ h))

  -- One round of the loop over the levels.
  pub root_of-next :
      (level : List Hash) → 1 < length level → root_of level ≡ root_of (next_level level)
  root_of-next level h =
      unfold root_of in climb-next level (shorter_acc level) (shorter_acc (next_level level)) h

  pub root_of-single : (x : Hash) → root_of (x ∷ []) ≡ x
  root_of-single x = unfold root_of in climb-single x (shorter_acc (x ∷ []))

  pub path_of-next :
      (level : List Hash) (idx : ℕ)
      → 1 < length level
      → path_of level idx ≡ sibling level idx ∷ path_of (next_level level) (idx / 2)
  path_of-next level idx h =
      unfold path_of in
      climb_path-next level idx (shorter_acc level) (shorter_acc (next_level level)) h

  pub path_of-single : (x : Hash) (idx : ℕ) → path_of (x ∷ []) idx ≡ []
  path_of-single x idx = unfold path_of in climb_path-single x idx (shorter_acc (x ∷ []))
