-- ===== src/Verification/Schema/Decoding.antt =====
-- How Python reads the fields of a decoded dict: indexing, iteration, and the constructor of `Hash`.
-- The annotation of a text, bytes or bool field is taken at its word: a blob that holds a value of
-- another type there, which the dataclass would keep unchecked, is a `TypeError` here.
use arxdb.Base.{
  ℕ, suc, Bool, Option, none, some, List, [], ◌∷◌, ltb, nat_beq, if◌then◌else◌, nat_eq, Bytes,
  bytes_eq, pair_eq, length,
}
use arxdb.Base.Result.{decode_error, Result, ok, err, value_error, type_error, key_error, ◌>>=◌}
use arxdb.Storage.Hashing.{Hash, hash_new, hash_size}
use arxdb.Storage.Serialization.{Obj, Objs, Pairs, dict_get}
use arxdb.Verification.Schema.{Text}

-- `d[key]`
unfoldable pub index : Obj → Text → Result Obj
unfolding dict_get
index (Obj.dict ps) key = elim (dict_get key ps) [ none ↦ err key_error | some v ↦ ok v ]
index _ key = err type_error

unfoldable pub count : Objs → ℕ
count Objs.nil = 0
count (Objs.cons _ xs) = suc (count xs)

unfoldable pub count_pairs : Pairs → ℕ
count_pairs Pairs.end = 0
count_pairs (Pairs.pair _ _ ps) = suc (count_pairs ps)

-- `bytes(xs)` of a sequence: integers below 256.
unfoldable pub bytes_of : Objs → Result Bytes
bytes_of Objs.nil = ok []
bytes_of (Objs.cons (Obj.int n) xs) =
    let rest = bytes_of xs in if ltb n 256 then (do ys ← rest; ok (n ∷ ys)) else err value_error
bytes_of (Objs.cons (Obj.bool v) xs) = do ys ← bytes_of xs; ok ((if v then 1 else 0) ∷ ys)
bytes_of (Objs.cons _ xs) = err type_error

-- `Hash(x)`: the length is compared first, then `bytes` is built.
unfoldable pub to_hash : Obj → Result Hash
unfolding hash_new count count_pairs bytes_of
to_hash (Obj.bytes raw) = hash_new raw
to_hash (Obj.text t) = if nat_beq (length t) hash_size then err type_error else err value_error
to_hash (Obj.list xs) = if nat_beq (count xs) hash_size then bytes_of xs else err value_error
to_hash (Obj.tuple xs) = if nat_beq (count xs) hash_size then bytes_of xs else err value_error
to_hash (Obj.set xs) = if nat_beq (count xs) hash_size then bytes_of xs else err value_error
to_hash (Obj.dict ps) =
    if nat_beq (count_pairs ps) hash_size then err type_error else err value_error
to_hash _ = err type_error

unfoldable pub ints : Bytes → Objs
ints [] = Objs.nil
ints (x ∷ xs) = Objs.cons (Obj.int x) (ints xs)

unfoldable pub chars : Text → Objs
chars [] = Objs.nil
chars (x ∷ xs) = Objs.cons (Obj.text (x ∷ [])) (chars xs)

unfoldable pub dict_keys : Pairs → Objs
dict_keys Pairs.end = Objs.nil
dict_keys (Pairs.pair k _ ps) = Objs.cons (Obj.text k) (dict_keys ps)

-- The items of `for x in obj`.
unfoldable pub iterate : Obj → Result Objs
unfolding ints chars dict_keys
iterate (Obj.list xs) = ok xs
iterate (Obj.tuple xs) = ok xs
iterate (Obj.set xs) = ok xs
iterate (Obj.bytes b) = ok (ints b)
iterate (Obj.text t) = ok (chars t)
iterate (Obj.dict ps) = ok (dict_keys ps)
iterate _ = err type_error

-- `tuple(Hash(p) for p in xs)`
unfoldable pub to_hashes : Objs → Result (List Hash)
unfolding to_hash
to_hashes Objs.nil = ok []
to_hashes (Objs.cons x xs) = do h ← to_hash x; hs ← to_hashes xs; ok (h ∷ hs)

unfoldable pub to_text : Obj → Result Text
to_text (Obj.text t) = ok t
to_text _ = err type_error

unfoldable pub to_bytes : Obj → Result Bytes
to_bytes (Obj.bytes b) = ok b
to_bytes _ = err type_error

unfoldable pub to_bool : Obj → Result Bool
to_bool (Obj.bool v) = ok v
to_bool _ = err type_error

-- `Hash(x) if x is not None else None`
unfoldable pub to_optional_hash : Obj → Result (Option Hash)
unfolding to_hash
to_optional_hash Obj.null = ok none
to_optional_hash x = do h ← to_hash x; ok (some h)

-- The object that was decoded, or the exception of the decoder.
unfoldable pub decoded : Option Obj → Result Obj
decoded none = err decode_error
decoded (some d) = ok d
