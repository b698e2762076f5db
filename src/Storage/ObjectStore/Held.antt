-- ===== src/Storage/ObjectStore/Held.antt =====
-- What a store holds after `put` in src/arxdb/storage/object_store.py.
use arxdb.Base.{
  ◌≡◌, refl, sym, ap, ◌∙◌, ◌⊎◌, inl, inr, some, Bool-cases, Option-cases, ◌==◌, ==_refl, nat_eq,
  Bytes, bytes_eq, pair_eq,
}
use mathlib.Core.Logic.{⊎_elim}
use arxdb.Storage.Hashing.{Blake3, Hash, Collision, Collision-map, hash_bytes, hash_bytes_binding}
use arxdb.Storage.Hashing.Hex.{AreBytes, hash_bytes-AreBytes}
use arxdb.Storage.ObjectStore.{ObjectStore, put, read, IsAddressed, read-put, read_integrity}

module _ ⦃b : Blake3⦄ where
  -- The blob stands in the store: `get` returns it for its hash.
  abbrev pub Stands : ObjectStore → Bytes → Type 0
  Stands s blob = read s (hash_bytes blob) ≡ some blob

  -- A message with `P` has the hash of a different blob that stands in the store.
  abbrev pub Clash : ObjectStore → (Bytes → Type 0) → Type 0
  Clash s P = Collision P (Stands s)

  -- The blob stands in the store, or a different one with its hash does.
  abbrev pub Holds : ObjectStore → Bytes → Type 0
  Holds s blob = Stands s blob ⊎ Clash s (λ m. m ≡ blob)

  pub put_keeps :
      (s : ObjectStore) (blob : Bytes) (h : Hash) (old : Bytes)
      → AreBytes h
      → read s h ≡ some old
      → read (put s blob).1 h ≡ some old
  put_keeps s blob h old hb there = elim (Bool-cases (hash_bytes blob == h)) [
    | inl same ↦ rw (read-put s blob h hb, same, there) refl
    | inr other ↦ rw (read-put s blob h hb, other) there
  ]

  pub put-Holds : (s : ObjectStore) (blob : Bytes) → IsAddressed s → Holds (put s blob).1 blob
  put-Holds s blob inv = elim (Option-cases (read s (hash_bytes blob))) [
    | inl absent ↦ inl (
        rw
          (
            read-put s blob (hash_bytes blob) (hash_bytes-AreBytes blob),
            ==_refl (hash_bytes blob),
            absent,
          )
          refl)
    | inr (old, there) ↦
        let same = read_integrity s (hash_bytes blob) old inv (hash_bytes-AreBytes blob) there in
        let kept = put_keeps s blob (hash_bytes blob) old (hash_bytes-AreBytes blob) there in
        ⊎_elim (λ e. inl (kept ∙ ap some (sym e))) inr
          (hash_bytes_binding {P = λ m. m ≡ blob} {Q = Stands (put s blob).1} blob old refl
            (rw same kept) (sym same))
  ]

  pub put_keeps-Holds :
      (s : ObjectStore) (blob old : Bytes) → Holds s old → Holds (put s blob).1 old
  put_keeps-Holds s blob old (inl there) =
      inl (put_keeps s blob (hash_bytes old) old (hash_bytes-AreBytes old) there)
  put_keeps-Holds s blob old (inr clash) = inr (
      Collision-map (λ m p. p)
        (λ m there. put_keeps s blob (hash_bytes m) m (hash_bytes-AreBytes m) there) clash)
