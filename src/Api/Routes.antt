-- ===== src/Api/Routes.antt =====
-- src/arxdb/api/server.py: the handler. Between the request and the response stand the body that is
-- read, the table of routes and the status of what the application raised.
pub mod Texts
pub mod Answers
pub mod Reproduced
use arxdb.Base.{
  ℕ, zero, suc, ◌&&◌, Option, none, some, [], ◌∷◌, nat_beq, if◌then◌else◌, Eq, ◌==◌, nat_eq, Bytes,
  bytes_eq, pair_eq, length,
}
use arxdb.Base.Strings.{Strings, codes}
use arxdb.Base.Result.{Result, ok, err, value_error, api_error, ◌>>=◌, bind_ok}
use arxdb.Base.Tests.{bytes_beq}
use arxdb.Storage.Hashing.{Blake3, Hash}
use arxdb.Storage.Serialization.{Cbor, Obj, Objs, Pairs}
use arxdb.Storage.Keys.{Ed25519}
use arxdb.Verification.Schema.{Text}
use arxdb.Verification.Checkers.Backends.{Sympy, Z3, Numpy, Lean}
use arxdb.Api.Requests.{or_status, parse_query}
use arxdb.Api.Proposals.{Wire, ArxDbApp}
use arxdb.Api.Server.{
  query_reachable, query_path, query_graph, reproduce, attest, anchor_record,
  verify_history_endpoint, commit, status_of,
}
use arxdb.Api.Replies.{
  reachable_reply, path_reply, graph_reply, attest_reply, anchor_reply, history_reply, health_reply,
  reproduce_reply, commit_reply,
}

-- What the handler takes from the standard library, where `none` is an exception: `int(text)` and
-- `raw.decode("utf-8")` with a `ValueError`, `json.loads(text)` with a `JSONDecodeError`; and
-- `base64.b64encode(raw).decode()`. A length is a natural number.
pub record Http : Type 0 where
  pub int_of : Text → Option ℕ
  pub utf8_decode : Bytes → Option Text
  pub json_loads : Text → Option Obj
  pub b64encode : Bytes → Text

-- `self.command`, `self.path`, the header `Content-Length` and what `self.rfile` holds.
pub record Request : Type 0 where
  pub method : Text
  pub target : Text
  pub content_length : Option Text
  pub stream : Bytes

-- What `_send_json` sends: a reply, or a failure whose text is left out.
pub data Response : Type 0 where
  reply : (status : ℕ) → Obj → Response
  failure : (status : ℕ) → Response

-- `self.path.split("?", 1)[0]`
unfoldable pub before_query : Text → Text
before_query [] = []
before_query (c ∷ cs) = let rest = before_query cs in if nat_beq c b'?' then [] else c ∷ rest

-- `self.rfile.read(length)`
unfoldable pub read_stream : ℕ → Bytes → Bytes
read_stream zero stream = []
read_stream (suc n) [] = []
read_stream (suc n) (x ∷ stream) = x ∷ read_stream n stream

module _ ⦃h : Http⦄ where
  unfoldable pub length_of : Option Text → Result ℕ
  length_of none = ok 0
  length_of (some header) = elim (h.int_of header) [ none ↦ err value_error | some n ↦ ok n ]

  unfoldable pub parse_body : Bytes → Result Obj
  parse_body [] = ok (Obj.dict Pairs.end)
  parse_body (x ∷ raw) = do
    text ← elim (h.utf8_decode (x ∷ raw)) [ none ↦ err value_error | some t ↦ ok t ]
    or_status 400 (h.json_loads text)

  unfoldable pub read_body : Request → Result Obj
  unfolding length_of parse_body read_stream
  read_body req = do
    length ← length_of req.content_length
    parse_body (if nat_beq length 0 then codes "{}" else read_stream length req.stream)

-- `self._send_json(200, ...)` and the handlers of what was raised on the way.
unfoldable pub respond : Result Obj → Response
respond (ok payload) = reply 200 payload
respond (err e) = failure (status_of {A = Obj} (err e))

-- `self._send_json(200, f(x))`
abbrev pub shown {ℓ} : {A : Type ℓ} → (A → Obj) → Result A → Response
shown f r = respond (do x ← r; ok (f x))

module _ ⦃b : Blake3⦄ ⦃c : Cbor⦄ where
  unfoldable pub reachable_endpoint : ArxDbApp → Obj → Option Response
  unfolding respond parse_query query_reachable
  reachable_endpoint app body = elim (query_reachable app body) [
    | none ↦ none
    | some r ↦ some (respond (do q ← parse_query body; x ← r; ok (reachable_reply q.0 q.1 x)))
  ]

  unfoldable pub path_endpoint : ArxDbApp → Obj → Option Response
  unfolding respond parse_query query_path
  path_endpoint app body = elim (query_path app body) [
    | none ↦ none
    | some r ↦ some (respond (do q ← parse_query body; x ← r; ok (path_reply q.0 q.1 x)))
  ]

module _ ⦃b : Blake3⦄ ⦃c : Cbor⦄ ⦃k : Ed25519⦄ ⦃u : Strings⦄ ⦃sy : Sympy⦄ ⦃z : Z3⦄ ⦃n : Numpy⦄
    ⦃l : Lean⦄ ⦃w : Wire⦄ ⦃h : Http⦄ where
  unfoldable pub commit_endpoint : ArxDbApp → ℕ → Obj → Option Response × ArxDbApp
  unfolding respond commit
  commit_endpoint app now body =
      let (outcome, later) = commit app now body in (some (shown commit_reply outcome), later)

  -- The routes for POST. `none`: the fuel of a query would have run out.
  unfoldable pub post : ArxDbApp → ℕ → Text → Obj → Option Response × ArxDbApp
  unfolding respond reachable_endpoint path_endpoint reproduce attest verify_history_endpoint
      commit_endpoint bytes_beq
  post app now path body =
      if path == codes "/query/reachable"
      then (reachable_endpoint app body, app)
      else if path == codes "/query/path"
      then (path_endpoint app body, app)
      else if path == codes "/reproduce"
      then (some (shown (reproduce_reply h.b64encode) (reproduce app body)), app)
      else if path == codes "/attest"
      then (some (shown attest_reply (attest app body)), app)
      else if path == codes "/verify_history"
      then (some (shown history_reply (verify_history_endpoint app body)), app)
      else if path == codes "/commit"
      then commit_endpoint app now body
      else (some (failure 404), app)

  -- The routes that read a body: any GET that is left reads its body before it gets its 404.
  unfoldable pub route_body : ArxDbApp → ℕ → Text → Text → Result Obj → Option Response × ArxDbApp
  unfolding respond post bytes_beq
  route_body app now method path (err e) = (some (respond (err e)), app)
  route_body app now method path (ok body) =
      if method == codes "POST" then post app now path body else (some (failure 404), app)

  -- `_route`
  unfoldable pub route : ArxDbApp → ℕ → Request → Option Response × ArxDbApp
  unfolding before_query read_body route_body anchor_record query_graph bytes_beq
  route app now req =
      let path = before_query req.target in
      let get = req.method == codes "GET" in
      if get && path == codes "/health"
      then (some (reply 200 health_reply), app)
      else if get && path == codes "/anchor"
      then (some (reply 200 (anchor_reply (anchor_record app now))), app)
      else if get && path == codes "/query/graph"
      then (some (reply 200 (graph_reply (query_graph app))), app)
      else route_body app now req.method path (read_body req)
