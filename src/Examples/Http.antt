-- ===== src/Examples/Http.antt =====
-- The handler at a proposal that is posted, committed and reproduced, and at a node that is shown.
use arxdb.Base.{
  subst, ◌*◌, ◌≡◌, refl, ◌⊎◌, true, none, some, [], ◌∷◌, nat_eq, bytes_eq, pair_eq, length,
}
use arxdb.Base.Strings.{codes}
use arxdb.Base.Result.{ok, err, type_error}
use arxdb.Base.Tests.{bytes_beq}
use arxdb.Base.Dict.{get}
use arxdb.Storage.Hashing.{Hash, hex}
use arxdb.Storage.ObjectStore.Held.{Clash}
use arxdb.Api.Server.Committed.{EdgeMessage}
use arxdb.Storage.Serialization.{dict_get, Obj}
use arxdb.Verification.Schema.{Text, numerical, k0}
use arxdb.Verification.Schema.EdgeCodec.{edge_hash}
use arxdb.Verification.Commit.{build_edge}
use arxdb.Api.Requests.{key_edge_hash, parse_query}
use arxdb.Api.Proposals.{Wire, ArxDbApp, Proposal, parse_proposal}
use arxdb.Api.Server.Committed.{edge_request}
use arxdb.Api.Replies.{dict_of, hash_to_text, node_to_dict}
use arxdb.Api.Replies.RoundTrip.{parse_query-node_to_dict}
use arxdb.Api.Routes.{Http, Request, Response, reply, before_query, read_body, route}
use arxdb.Api.Routes.Texts.{HasTexts, HasTextDomain}
use arxdb.Api.Routes.Answers.{IsAccepted, route_correct}
use arxdb.Api.Routes.Reproduced.{IsPost, Shows, reproduced_over_http}
use arxdb.Examples.Codec.{load, dump}
use arxdb.Examples.Packages.{toy_blake3, toy_cbor, toy_ed25519, toy_digest, digits, mix}
use arxdb.Verification.Schema.EdgeCodec.{edge_bytes}
use arxdb.Storage.Hashing.{hash_bytes}
use arxdb.Examples.Backends.{toy_strings, toy_sympy, toy_z3, toy_numpy, toy_lean}
use arxdb.Examples.Commit.{with_key-IsSound}
use arxdb.Examples.Verifier.{equation, by_identity, equation_result, equation_verified}
use arxdb.Examples.Commit.{with_key, key}

-- Base64 is the text itself, and a number of seconds is a number.
instance abbrev toy_wire : Wire
toy_wire = record {
  b64decode = λ x. elim x [ Obj.text t ↦ ok t | _ ↦ err type_error ];
  milliseconds = λ x. elim x [ Obj.int n ↦ ok (n * 1000) | _ ↦ err type_error ];
}

-- A number is one character, and JSON is the codec of the other examples.
instance abbrev toy_http : Http
toy_http = record {
  int_of = λ t. elim t [ [] ↦ none | n ∷ _ ↦ some n ];
  utf8_decode = λ raw. some raw;
  json_loads = load;
  b64encode = λ raw. raw;
}

abbrev app : ArxDbApp
app = record { storage = with_key key; roster = record { entries = [] }; signer_pubkey = 5 ∷ [] }

abbrev proposal : Proposal
proposal = record {
  premises = [];
  conclusion = equation;
  rule = by_identity;
  edge_type = numerical;
  proof = none;
  signer = 5 ∷ [];
  timeout = 5000;
}

abbrev proposed_hash : Hash
proposed_hash =
    edge_hash (build_edge equation_result (5 ∷ []) [] equation by_identity numerical none)

abbrev posted : Text → Obj → Request
posted path body = record {
  method = codes "POST";
  target = path;
  content_length = some (length (dump body) ∷ []);
  stream = dump body;
}

abbrev proposal_body : Obj
proposal_body = Obj.dict (
    dict_of (
      (codes "rule", Obj.text by_identity)
      ∷ (codes "edge_type", Obj.text (codes "numerical"))
      ∷ (
        codes "conclusion",
        Obj.dict (
            dict_of (
              (codes "claim", Obj.text (codes "a=a"))
              ∷ (codes "domain", Obj.text (codes "sets"))
              ∷ [])),
      )
      ∷ []))

proposal_body-parsed : parse_proposal app proposal_body ≡ ok proposal
unfolding parse_proposal bytes_beq
proposal_body-parsed = refl

proposal_body-posted :
    IsPost (codes "/commit") proposal_body (posted (codes "/commit?x") proposal_body)
unfolding before_query read_body dump load bytes_beq
proposal_body-posted = (refl, refl, refl)

edge_request-posted :
    IsPost
      (codes "/reproduce")
      (edge_request proposed_hash)
      (posted (codes "/reproduce") (edge_request proposed_hash))
unfolding before_query read_body dump load bytes_beq hex edge_hash hash_bytes build_edge edge_bytes
    toy_digest digits mix
edge_request-posted = (refl, refl, refl)

reproduced_over_http_example :
    (later : ArxDbApp) × (shown : Obj) × (route app 77 (posted (codes "/commit?x") proposal_body)
      ≡ (some (reply 200 shown), later))
    × Shows shown key_edge_hash (hash_to_text proposed_hash)
    × (((report : Obj) × (route later 78 (posted (codes "/reproduce") (edge_request proposed_hash))
            ≡ (some (reply 200 report), later))
          × (Shows report (codes "verdict_match") (Obj.bool true)
              × Shows report (codes "kappa_match") (Obj.bool true)))
        ⊎ Clash later.storage.objects (
            EdgeMessage
              (build_edge equation_result (5 ∷ []) [] equation by_identity numerical none)
              proposal.premises
              proposal.conclusion
              proposal.proof))
unfolding get
reproduced_over_http_example =
    reproduced_over_http app 77 78 (posted (codes "/commit?x") proposal_body)
      (posted (codes "/reproduce") (edge_request proposed_hash)) proposal_body proposal
      equation_result proposal_body-posted proposal_body-parsed with_key-IsSound refl
      equation_verified refl refl edge_request-posted

proposal_body-HasTexts : HasTexts proposal_body
unfolding HasTexts HasTextDomain dict_get bytes_beq
proposal_body-HasTexts = ((by_identity, refl), tt, (codes "sets", refl), tt)

proposal_body-texts :
    (body : Obj) → read_body (posted (codes "/commit?x") proposal_body) ≡ ok body → HasTexts body
proposal_body-texts body read =
    let (_, _, known) = proposal_body-posted in
    let same : proposal_body ≡ body = cc (known, read) in subst HasTexts same proposal_body-HasTexts

route_correct_example :
    (resp : Response) × (later : ArxDbApp) × (route app 77
        (posted (codes "/commit?x") proposal_body)
      ≡ (some resp, later))
    × ((later ≡ app)
        ⊎ ((codes "POST" ≡ codes "POST")
            × (before_query (codes "/commit?x") ≡ codes "/commit")
            × (body : Obj) × (read_body (posted (codes "/commit?x") proposal_body) ≡ ok body)
            × IsAccepted app 77 body later))
route_correct_example =
    route_correct app 77 (posted (codes "/commit?x") proposal_body) proposal_body-texts

parse_query-node_to_dict_example : parse_query (node_to_dict equation) ≡ ok (equation, k0)
parse_query-node_to_dict_example = parse_query-node_to_dict equation refl
