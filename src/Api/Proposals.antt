-- ===== src/Api/Proposals.antt =====
-- src/arxdb/api/server.py: the application, and how `commit` reads its body. A rule that is no
-- string, which `commit` passes on without a check, is a `TypeError` here.
use arxdb.Base.{ℕ, Option, none, some, List, [], if◌then◌else◌, nat_eq, Bytes, bytes_eq, pair_eq}
use arxdb.Base.Result.{Result, ok, ◌>>=◌}
use arxdb.Storage.Serialization.{Obj, Objs}
use arxdb.Storage.Facade.{Storage}
use arxdb.Verification.Schema.{Text, Node, EdgeType}
use arxdb.Verification.Schema.Values.{key_premises, key_conclusion, key_rule, key_signer_pubkey}
use arxdb.Verification.Schema.Decoding.{index, iterate, to_text}
use arxdb.Attestation.Roster.{Roster}
use arxdb.Api.Requests.{
  parse_pubkey, truthy, parse_node, parse_nodes, parse_edge_type, field, key_edge_type, key_proof,
  key_timeout_seconds, default_timeout,
}

-- `base64.b64decode`, and `float` of a number of seconds, in milliseconds.
pub record Wire : Type 0 where
  pub b64decode : Obj → Result Bytes
  pub milliseconds : Obj → Result ℕ

pub record ArxDbApp : Type 0 where
  pub storage : Storage
  pub roster : Roster
  pub signer_pubkey : Bytes

-- What `commit` reads from its body.
pub record Proposal : Type 0 where
  pub premises : List Node
  pub conclusion : Node
  pub rule : Text
  pub edge_type : EdgeType
  pub proof : Option Bytes
  pub signer : Bytes
  pub timeout : ℕ

-- The value of an optional field, or the default where it is missing.
abbrev pub get_or : Option Obj → Obj → Obj
get_or none fallback = fallback
get_or (some x) fallback = x

-- `f(x) if x else fallback`
unfoldable pub if_given {ℓ} : {A : Type ℓ} → (Obj → Result A) → A → Option Obj → Result A
unfolding truthy
if_given f fallback none = ok fallback
if_given f fallback (some x) = if truthy x then f x else ok fallback

module _ ⦃w : Wire⦄ where
  unfoldable pub parse_timeout : Option Obj → Result ℕ
  parse_timeout none = ok default_timeout
  parse_timeout (some x) = w.milliseconds x

  unfoldable pub parse_proposal : ArxDbApp → Obj → Result Proposal
  unfolding field index iterate parse_nodes parse_node parse_edge_type parse_pubkey if_given
      parse_timeout to_text
  parse_proposal app body = do
    given ← field body key_premises
    items ← iterate (get_or given (Obj.list Objs.nil))
    premises ← parse_nodes items
    c ← index body key_conclusion
    conclusion ← parse_node c
    named ← field body key_rule
    rule ← to_text (get_or named (Obj.text []))
    t ← index body key_edge_type
    edge_type ← parse_edge_type t
    proof_b64 ← field body key_proof
    proof ← if_given (λ x. do raw ← w.b64decode x; ok (some raw)) none proof_b64
    signer_hex ← field body key_signer_pubkey
    signer ← if_given parse_pubkey app.signer_pubkey signer_hex
    seconds ← field body key_timeout_seconds
    timeout ← parse_timeout seconds
    ok (record {
      premises = premises;
      conclusion = conclusion;
      rule = rule;
      edge_type = edge_type;
      proof = proof;
      signer = signer;
      timeout = timeout;
    })
