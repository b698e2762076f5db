-- ===== src/Storage/Serialization.antt =====
-- src/arxdb/storage/serialization.py. The Python objects that the program encodes: no floats, no
-- negative numbers, and dict keys are texts. The codec is the third-party package `cbor2`, an
-- argument here: canonical encoding sorts the keys of a dict, shorter keys first.
use arxdb.Base.{
  ℕ, ◌≡◌, Bool, true, false, ◌&&◌, Option, none, some, ltb, if◌then◌else◌, ◌==◌, nat_eq, Bytes,
  bytes_eq, pair_eq, bytes_leb, length,
}

-- A dict with a repeated key is no Python object.
mutual
  pub data Obj : Type 0 where
    null : Obj
    bool : Bool → Obj
    int : ℕ → Obj
    text : Bytes → Obj
    bytes : Bytes → Obj
    list : Objs → Obj
    tuple : Objs → Obj
    set : Objs → Obj
    dict : Pairs → Obj

  pub data Objs : Type 0 where
    nil : Objs
    cons : Obj → Objs → Objs

  pub data Pairs : Type 0 where
    end : Pairs
    pair : Bytes → Obj → Pairs → Pairs

-- `d[k]`
unfoldable pub dict_get : Bytes → Pairs → Option Obj
dict_get k end = none
dict_get k (pair j v ps) = let rest = dict_get k ps in if j == k then some v else rest

-- Shorter keys first, then by their bytes.
unfoldable pub key_leb : Bytes → Bytes → Bool
unfolding bytes_leb
key_leb j k =
    if ltb (length j) (length k)
    then true
    else if ltb (length k) (length j)
    then false
    else bytes_leb j k

unfoldable pub insert_pair : Bytes → Obj → Pairs → Pairs
unfolding key_leb
insert_pair k v end = pair k v end
insert_pair k v (pair j w ps) =
    let later = pair j w (insert_pair k v ps) in
    if key_leb k j then pair k v (pair j w ps) else later

-- What decoding gives back for a canonical encoding: the same object, its dicts in key order.
unfoldable mutual
  unfolding insert_pair

  pub in_key_order : Obj → Obj
  in_key_order null = null
  in_key_order (bool b) = bool b
  in_key_order (int n) = int n
  in_key_order (text t) = text t
  in_key_order (bytes b) = bytes b
  in_key_order (list xs) = list (items_in_key_order xs)
  in_key_order (tuple xs) = tuple (items_in_key_order xs)
  in_key_order (set xs) = set (items_in_key_order xs)
  in_key_order (dict ps) = dict (pairs_in_key_order ps)

  pub items_in_key_order : Objs → Objs
  items_in_key_order nil = nil
  items_in_key_order (cons x xs) = cons (in_key_order x) (items_in_key_order xs)

  pub pairs_in_key_order : Pairs → Pairs
  pairs_in_key_order end = end
  pairs_in_key_order (pair k v ps) = insert_pair k (in_key_order v) (pairs_in_key_order ps)

-- No tuple and no set inside, and no dict with a repeated key.
unfoldable mutual
  unfolding dict_get

  pub is_plain : Obj → Bool
  is_plain null = true
  is_plain (bool b) = true
  is_plain (int n) = true
  is_plain (text t) = true
  is_plain (bytes b) = true
  is_plain (list xs) = items_are_plain xs
  is_plain (tuple xs) = false
  is_plain (set xs) = false
  is_plain (dict ps) = pairs_are_plain ps

  pub items_are_plain : Objs → Bool
  items_are_plain nil = true
  items_are_plain (cons x xs) = is_plain x && items_are_plain xs

  pub pairs_are_plain : Pairs → Bool
  pairs_are_plain end = true
  pairs_are_plain (pair k v ps) = elim (dict_get k ps) [
    | none ↦ is_plain v && pairs_are_plain ps
    | some _ ↦ false
  ]

-- `cbor2.dumps(x, canonical=True)` and `cbor2.loads`, where `none` is an exception.
pub record Cbor : Type 0 where
  pub dumps : Obj → Bytes
  pub loads : Bytes → Option Obj
  pub loads-dumps : (x : Obj) → is_plain x ≡ true → loads (dumps x) ≡ some (in_key_order x)

module _ ⦃c : Cbor⦄ where
  unfoldable pub sort_key : Obj → Bytes
  sort_key x = c.dumps x

  -- Insertion into a list that `sorted` has put in order; equal keys keep their order.
  unfoldable pub insert_item : Obj → Objs → Objs
  unfolding sort_key bytes_leb
  insert_item x nil = cons x nil
  insert_item x (cons y ys) =
      let later = cons y (insert_item x ys) in
      if bytes_leb (sort_key x) (sort_key y) then cons x (cons y ys) else later

  unfoldable pub sort_items : Objs → Objs
  unfolding insert_item
  sort_items nil = nil
  sort_items (cons x xs) = insert_item x (sort_items xs)

  unfoldable mutual
    unfolding sort_items

    pub canonicalize : Obj → Obj
    canonicalize null = null
    canonicalize (bool b) = bool b
    canonicalize (int n) = int n
    canonicalize (text t) = text t
    canonicalize (bytes b) = bytes b
    canonicalize (list xs) = list (canonicalize_items xs)
    canonicalize (tuple xs) = list (canonicalize_items xs)
    canonicalize (set xs) = list (sort_items (canonicalize_items xs))
    canonicalize (dict ps) = dict (canonicalize_pairs ps)

    pub canonicalize_items : Objs → Objs
    canonicalize_items nil = nil
    canonicalize_items (cons x xs) = cons (canonicalize x) (canonicalize_items xs)

    pub canonicalize_pairs : Pairs → Pairs
    canonicalize_pairs end = end
    canonicalize_pairs (pair k v ps) = pair k (canonicalize v) (canonicalize_pairs ps)

  unfoldable pub canonical_encode : Obj → Bytes
  unfolding canonicalize
  canonical_encode x = c.dumps (canonicalize x)

  unfoldable pub canonical_decode : Bytes → Option Obj
  canonical_decode data' = c.loads data'

  -- Decoding a canonical encoding gives the object that was encoded, its dicts in key order.
  pub canonical_decode-canonical_encode :
      (x : Obj)
      → is_plain (canonicalize x) ≡ true
      → canonical_decode (canonical_encode x) ≡ some (in_key_order (canonicalize x))
  unfolding canonical_decode canonical_encode
  canonical_decode-canonical_encode x plain = c.loads-dumps (canonicalize x) plain
