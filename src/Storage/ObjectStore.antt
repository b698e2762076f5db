-- ===== src/Storage/ObjectStore.antt =====
-- src/arxdb/storage/object_store.py. The file system is a dict from paths to contents. A temporary
-- file that `put` writes and renames is not modelled: the rename is atomic.
pub mod Held
use arxdb.Base.{
  ◌≡◌, refl, sym, ap, ◌∙◌, subst, inl, inr, Bool, Option, none, some, List, [], ◌∷◌, ◌++◌, map,
  if◌then◌else◌, Bool-cases, ◌==◌, ==_iff, eq_of_==, ==_false_of_ne, ne_of_==_false, nat_eq, Bytes,
  bytes_eq, pair_eq,
}
use arxdb.Base.Dict.{Dict, get, set, has, get-set, set_default, get-set_default}
use arxdb.Storage.Hashing.{Blake3, Hash, hash_bytes, hex}
use arxdb.Storage.Hashing.Hex.{AreBytes, hash_bytes-AreBytes, hex_injective}

-- The directory `hex[:2]` and the file name `hex[2:]`.
abbrev pub FilePath : Type 0
FilePath = Bytes × Bytes

pub record ObjectStore : Type 0 where
  pub files : Dict FilePath Bytes

abbrev pub empty_store : ObjectStore
empty_store = record { files = [] }

-- `s[:2]` and `s[2:]`
abbrev pub take_two : Bytes → Bytes
take_two [] = []
take_two (x ∷ []) = x ∷ []
take_two (x ∷ y ∷ rest) = x ∷ y ∷ []

abbrev pub drop_two : Bytes → Bytes
drop_two [] = []
drop_two (x ∷ []) = []
drop_two (x ∷ y ∷ rest) = rest

unfoldable pub path : Hash → FilePath
path h = (take_two (hex h), drop_two (hex h))

module _ ⦃b : Blake3⦄ where
  unfoldable pub put : ObjectStore → Bytes → Hash × ObjectStore
  unfolding path
  put s blob =
      let h = hash_bytes blob in
      if has s.files (path h) then (h, s) else (h, record { files = set s.files (path h) blob })

  unfoldable pub put_batch : ObjectStore → List Bytes → List Hash × ObjectStore
  unfolding put
  put_batch s [] = ([], s)
  put_batch s (x ∷ xs) = let (h, s1) = put s x in let (hs, s2) = put_batch s1 xs in (h ∷ hs, s2)

unfoldable pub read : ObjectStore → Hash → Option Bytes
unfolding path
read s h = get s.files (path h)

unfoldable pub read_batch : ObjectStore → List Hash → List (Option Bytes)
unfolding read
read_batch s hs = map (read s) hs

unfoldable pub exists : ObjectStore → Hash → Bool
unfolding path
exists s h = has s.files (path h)

unfoldable pub exists_batch : ObjectStore → List Hash → List Bool
unfolding exists
exists_batch s hs = map (exists s) hs

take_two-drop_two : (xs : Bytes) → take_two xs ++ drop_two xs ≡ xs
take_two-drop_two [] = refl
take_two-drop_two (x ∷ []) = refl
take_two-drop_two (x ∷ y ∷ rest) = refl

-- Two byte strings with one path are the same.
pub path_injective : (g h : Hash) → AreBytes g → AreBytes h → path g ≡ path h → g ≡ h
unfolding path
path_injective g h bg bh e = hex_injective g h bg bh (
    sym (take_two-drop_two (hex g))
    ∙ ap (λ (p : FilePath). p.0 ++ p.1) e
    ∙ take_two-drop_two (hex h))

module _ ⦃b : Blake3⦄ where
  -- Each file stands at the path of the hash of its contents.
  abbrev pub IsAddressed : ObjectStore → Type 0
  IsAddressed s =
      (p : FilePath) (blob : Bytes) → get s.files p ≡ some blob → path (hash_bytes blob) ≡ p

  pub put-IsAddressed :
      (s : ObjectStore) (blob : Bytes) → IsAddressed s → IsAddressed (put s blob).1
  unfolding put
  put-IsAddressed s blob inv p x g = elim (Bool-cases (has s.files (path (hash_bytes blob)))) [
    | inl t ↦ inv p x (rw t at g)
    | inr f ↦
        let g' = rw (get-set s.files (path (hash_bytes blob)) p blob) at (rw f at g) in
        elim (Bool-cases (path (hash_bytes blob) == p)) [
          | inl same ↦
              let e : blob ≡ x = cc (rw same at g') in
              subst (λ y. path (hash_bytes y) ≡ p) e (eq_of_== (path (hash_bytes blob)) p same)
          | inr other ↦ inv p x (rw other at g')
        ]
  ]

  -- What a store holds under a hash has that hash.
  pub read_integrity :
      (s : ObjectStore) (h : Hash) (blob : Bytes)
      → IsAddressed s
      → AreBytes h
      → read s h ≡ some blob
      → hash_bytes blob ≡ h
  unfolding read
  read_integrity s h blob inv hb g =
      path_injective (hash_bytes blob) h (hash_bytes-AreBytes blob) hb (inv (path h) blob g)

  put-files :
      (s : ObjectStore) (blob : Bytes)
      → (put s blob).1.files ≡ set_default s.files (path (hash_bytes blob)) blob
  unfolding put
  put-files s blob = elim (Bool-cases (has s.files (path (hash_bytes blob)))) [
    | inl t ↦ rw t
    | inr f ↦ rw f
  ]

  -- After `put`, the hash of the blob is held, a hash that was held before is held with the same
  -- contents, and no other hash is new.
  pub read-put :
      (s : ObjectStore) (blob : Bytes) (h : Hash)
      → AreBytes h
      → read (put s blob).1 h ≡ (
          if hash_bytes blob == h
          then elim (read s h) [ none ↦ some blob | some old ↦ some old ]
          else read s h)
  unfolding read
  read-put s blob h hb = elim (Bool-cases (hash_bytes blob == h)) [
    | inl t ↦
        let same = eq_of_== (hash_bytes blob) h t in
        let there = (==_iff (path (hash_bytes blob)) (path h)).1 (ap path same) in
        rw (put-files s blob, get-set_default, there, t)
    | inr f ↦
        let apart = ==_false_of_ne (path (hash_bytes blob)) (path h) (λ q.
          ne_of_==_false (hash_bytes blob) h f
            (path_injective (hash_bytes blob) h (hash_bytes-AreBytes blob) hb q)) in
        rw (put-files s blob, get-set_default, apart, f)
  ]
