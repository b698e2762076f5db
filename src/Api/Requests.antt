-- ===== src/Api/Requests.antt =====
-- src/arxdb/api/server.py: how the fields of a request are read. An `ApiError` is an exception with
-- its status. JSON numbers are naturals; a domain that is no string, which `Node` would keep
-- unchecked, is a `TypeError` here.
use arxdb.Base.{
  ℕ, Bool, true, false, not, Option, none, some, List, [], ◌∷◌, nat_beq, is_empty, nat_eq, Bytes,
  bytes_eq, pair_eq, length,
}
use arxdb.Base.Strings.{codes}
use arxdb.Base.Result.{
  Result, ok, err, value_error, type_error, attribute_error, api_error, ◌>>=◌, ◌>>◌, require,
}
use arxdb.Storage.Hashing.{Hash, hash_new, bytes_fromhex}
use arxdb.Storage.Serialization.{Obj, Objs, Pairs, dict_get}
use arxdb.Verification.Schema.{Text, Node, EdgeType, Kappa, k0}
use arxdb.Verification.Schema.Values.{key_claim, key_domain, key_polarity, to_kappa, to_edge_type}

-- `except ValueError: raise ApiError(400, ...)`
unfoldable pub or_bad_request {ℓ} : {A : Type ℓ} → Result A → Result A
or_bad_request (ok a) = ok a
or_bad_request (err value_error) = err (api_error 400)
or_bad_request (err e) = err e

-- `if x is None: raise ApiError(status, ...)`
abbrev pub or_status {ℓ} : {A : Type ℓ} → ℕ → Option A → Result A
or_status status none = err (api_error status)
or_status status (some a) = ok a

unfoldable pub hex_to_hash : Obj → Result Hash
unfolding or_bad_request bytes_fromhex hash_new
hex_to_hash (Obj.text s) = or_bad_request (do raw ← bytes_fromhex s; hash_new raw)
hex_to_hash _ = err type_error

unfoldable pub parse_pubkey : Obj → Result Bytes
unfolding or_bad_request bytes_fromhex
parse_pubkey (Obj.text s) = do
  raw ← or_bad_request (bytes_fromhex s)
  require (nat_beq (length raw) 32) (api_error 400)
  ok raw
parse_pubkey _ = err type_error

unfoldable pub parse_kappa : Option Obj → Result Kappa
unfolding or_bad_request to_kappa
parse_kappa none = ok k0
parse_kappa (some Obj.null) = ok k0
parse_kappa (some x) = or_bad_request (to_kappa x)

-- `bool(x)`
unfoldable pub truthy : Obj → Bool
truthy Obj.null = false
truthy (Obj.bool v) = v
truthy (Obj.int n) = not (nat_beq n 0)
truthy (Obj.text t) = not (is_empty t)
truthy (Obj.bytes t) = not (is_empty t)
truthy (Obj.list Objs.nil) = false
truthy (Obj.tuple Objs.nil) = false
truthy (Obj.set Objs.nil) = false
truthy (Obj.dict Pairs.end) = false
truthy _ = true

abbrev pub claim_of : Option Obj → Result Text
claim_of (some (Obj.text (x ∷ xs))) = ok (x ∷ xs)
claim_of _ = err (api_error 400)

abbrev pub domain_of : Option Obj → Result Text
domain_of none = ok (codes "math")
domain_of (some (Obj.text t)) = ok t
domain_of _ = err type_error

unfoldable pub polarity_of : Option Obj → Bool
unfolding truthy
polarity_of none = true
polarity_of (some x) = truthy x

unfoldable pub parse_node : Obj → Result Node
unfolding dict_get polarity_of
parse_node (Obj.dict ps) = do
  claim ← claim_of (dict_get key_claim ps)
  domain ← domain_of (dict_get key_domain ps)
  ok (record { claim = claim; domain = domain; polarity = polarity_of (dict_get key_polarity ps) })
parse_node _ = err (api_error 400)

-- `[_parse_node(p) for p in xs]`
unfoldable pub parse_nodes : Objs → Result (List Node)
unfolding parse_node
parse_nodes Objs.nil = ok []
parse_nodes (Objs.cons x xs) = do node ← parse_node x; nodes ← parse_nodes xs; ok (node ∷ nodes)

unfoldable pub parse_edge_type : Obj → Result EdgeType
unfolding or_bad_request to_edge_type
parse_edge_type x = or_bad_request (to_edge_type x)

-- `body.get(key)`
unfoldable pub field : Obj → Text → Result (Option Obj)
unfolding dict_get
field (Obj.dict ps) key = ok (dict_get key ps)
field _ key = err attribute_error

abbrev pub key_min_kappa : Text
key_min_kappa = codes "min_kappa"

abbrev pub key_edge_hash : Text
key_edge_hash = codes "edge_hash"

abbrev pub key_root_hash : Text
key_root_hash = codes "root_hash"

abbrev pub key_edge_type : Text
key_edge_type = codes "edge_type"

abbrev pub key_proof : Text
key_proof = codes "proof"

abbrev pub key_timeout_seconds : Text
key_timeout_seconds = codes "timeout_seconds"

-- `timeout_seconds = 5.0`
abbrev pub default_timeout : ℕ
default_timeout = 5000

-- The node and the threshold of a query.
unfoldable pub parse_query : Obj → Result (Node × Kappa)
unfolding parse_node field parse_kappa
parse_query body = do
  node ← parse_node body
  least ← field body key_min_kappa
  min_kappa ← parse_kappa least
  ok (node, min_kappa)
