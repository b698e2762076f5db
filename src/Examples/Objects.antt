-- ===== src/Examples/Objects.antt =====
-- The theorems on hashes and on the object store at small blobs.
use arxdb.Base.{
  ◌≡◌, ◌∙◌, none, some, [], ◌∷◌, if◌then◌else◌, ◌==◌, ==_refl, nat_eq, bytes_eq, pair_eq,
}
use arxdb.Base.Result.{ok}
use arxdb.Base.Dict.{get}
use arxdb.Storage.Hashing.{hash_bytes, hash_hex, from_hex}
use arxdb.Storage.Hashing.Hex.{hash_bytes-AreBytes, from_hex-hash_hex}
use arxdb.Examples.Packages.{toy_blake3, toy_cbor, toy_ed25519}
use arxdb.Storage.ObjectStore.{
  ObjectStore, empty_store, put, read, IsAddressed, put-IsAddressed, read_integrity, read-put,
}

from_hex-hash_hex_example : from_hex (hash_hex (1 ∷ 255 ∷ [])) ≡ ok (hash_bytes (1 ∷ 255 ∷ []))
from_hex-hash_hex_example = from_hex-hash_hex (1 ∷ 255 ∷ [])

abbrev one_blob : ObjectStore
one_blob = (put empty_store (4 ∷ 5 ∷ [])).1

empty_store-IsAddressed : IsAddressed empty_store
unfolding get
empty_store-IsAddressed p blob g = cc

one_blob-IsAddressed : IsAddressed one_blob
one_blob-IsAddressed = put-IsAddressed empty_store (4 ∷ 5 ∷ []) empty_store-IsAddressed

one_blob-read : read one_blob (hash_bytes (4 ∷ 5 ∷ [])) ≡ some (4 ∷ 5 ∷ [])
one_blob-read =
    read-put empty_store (4 ∷ 5 ∷ []) (hash_bytes (4 ∷ 5 ∷ [])) (hash_bytes-AreBytes (4 ∷ 5 ∷ []))
    ∙ (unfold read in unfold get in rw (==_refl (hash_bytes (4 ∷ 5 ∷ []))))

read_integrity_example : hash_bytes (4 ∷ 5 ∷ []) ≡ hash_bytes (4 ∷ 5 ∷ [])
read_integrity_example =
    read_integrity one_blob (hash_bytes (4 ∷ 5 ∷ [])) (4 ∷ 5 ∷ []) one_blob-IsAddressed
      (hash_bytes-AreBytes (4 ∷ 5 ∷ [])) one_blob-read

read-put_example : read (put one_blob (6 ∷ [])).1 (hash_bytes (4 ∷ 5 ∷ [])) ≡ (
    if hash_bytes (6 ∷ []) == hash_bytes (4 ∷ 5 ∷ [])
    then elim (read one_blob (hash_bytes (4 ∷ 5 ∷ []))) [
      | none ↦ some (6 ∷ [])
      | some old ↦ some old
    ]
    else read one_blob (hash_bytes (4 ∷ 5 ∷ [])))
read-put_example =
    read-put one_blob (6 ∷ []) (hash_bytes (4 ∷ 5 ∷ [])) (hash_bytes-AreBytes (4 ∷ 5 ∷ []))
