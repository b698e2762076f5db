-- ===== src/Api/Replies/RoundTrip.antt =====
-- What the replies of src/arxdb/api/server.py show of a node is read back as a request.
use arxdb.Base.{◌≡◌, refl, ap, false, some, [], ◌∷◌, is_empty, nat_eq, bytes_eq, pair_eq}
use arxdb.Base.Result.{ok, ◌>>=◌}
use arxdb.Base.Tests.{bytes_beq}
use arxdb.Storage.Hashing.{Blake3}
use arxdb.Storage.Serialization.{Cbor, Obj, dict_get}
use arxdb.Verification.Schema.{Text, Node, k0}
use arxdb.Api.Requests.{parse_node, parse_query, claim_of, polarity_of, truthy, field, parse_kappa}
use arxdb.Api.Replies.{node_to_dict}

claim_of-text : (t : Text) → is_empty t ≡ false → claim_of (some (Obj.text t)) ≡ ok t
claim_of-text [] h = absurd (cc h)
claim_of-text (x ∷ xs) h = refl

module _ ⦃b : Blake3⦄ ⦃c : Cbor⦄ where
  parse_node-node_to_dict :
      (n : Node) → is_empty n.claim ≡ false → parse_node (node_to_dict n) ≡ ok n
  unfolding parse_node node_to_dict dict_get polarity_of truthy bytes_beq
  parse_node-node_to_dict n h =
      ap
        (λ r. do claim ← r; ok (record { claim = claim; domain = n.domain; polarity = n.polarity }))
        (claim_of-text n.claim h)

  -- A node with a claim, as the replies show it, is the node of a query without a threshold.
  pub parse_query-node_to_dict :
      (n : Node) → is_empty n.claim ≡ false → parse_query (node_to_dict n) ≡ ok (n, k0)
  unfolding parse_query field node_to_dict dict_get parse_kappa bytes_beq
  parse_query-node_to_dict n h = ap (λ r. do node ← r; ok (node, k0)) (parse_node-node_to_dict n h)
