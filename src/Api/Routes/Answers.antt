-- ===== src/Api/Routes/Answers.antt =====
-- What the handler of src/arxdb/api/server.py answers, and when it changes the application.
use arxdb.Base.{
  ℕ, ◌≡◌, refl, ap, ◌⊎◌, inl, inr, ◌&&◌, Option, none, some, [], Bool-cases, ◌==◌, eq_of_==, nat_eq,
  bytes_eq, pair_eq,
}
use arxdb.Base.Strings.{Strings, codes}
use arxdb.Base.Result.{Result, ok, err, ◌>>=◌}
use arxdb.Storage.Hashing.{Blake3}
use arxdb.Storage.Serialization.{Cbor, Obj}
use arxdb.Storage.Keys.{Ed25519}
use mathlib.Core.Logic.{⊎_elim}
use arxdb.Verification.Schema.{Text, Node, Kappa}
use arxdb.Verification.Schema.NodeCodec.{node_id}
use arxdb.Verification.Elenchus.Grounds.{IsRejectable}
use arxdb.Verification.Checkers.Backends.{Sympy, Z3, Numpy, Lean}
use arxdb.Verification.Verifier.{VerificationResult, verify}
use arxdb.Verification.Verifier.Evidence.{IsWarranted}
use arxdb.Verification.Commit.{verify_and_commit}
use arxdb.Verification.Commit.Accepted.{verify_and_commit_gate}
use arxdb.Query.Reachability.Reachable.{ReachabilityResult}
use arxdb.Query.Reachability.Answer.{reachable_correct}
use arxdb.Query.Path.{PathResult}
use arxdb.Query.Path.Discovery.{path_discovery_correct}
use arxdb.Api.Requests.{parse_query}
use arxdb.Api.Proposals.{Wire, ArxDbApp, Proposal, parse_proposal}
use arxdb.Api.Server.{query_reachable, query_path, commit, commit_proposal}
use arxdb.Api.Replies.{reachable_reply, path_reply}
use arxdb.Api.Routes.Texts.{HasTexts}
use arxdb.Api.Routes.{
  Http, Request, Response, failure, before_query, read_body, respond, reachable_endpoint,
  path_endpoint, commit_endpoint, post, route_body, route,
}

-- The response and the application after it; what the application may become is up to `P`.
abbrev IsAnswer : ArxDbApp → (ArxDbApp → Type 0) → Option Response × ArxDbApp → Type 0
IsAnswer app P r =
    (resp : Response) × (later : ArxDbApp) × (r ≡ (some resp, later)) × ((later ≡ app) ⊎ P later)

module _ (app : ArxDbApp) (P : ArxDbApp → Type 0) where
  unchanged : (resp : Response) → IsAnswer app P (some resp, app)
  unchanged resp = (resp, app, refl, inl refl)

  answered : (o : Option Response) → (resp : Response) × (o ≡ some resp) → IsAnswer app P (o, app)
  answered o (resp, e) = (resp, app, ap (λ x. (x, app)) e, inl refl)

module _ ⦃b : Blake3⦄ ⦃c : Cbor⦄ (app : ArxDbApp) (body : Obj) where
  reachable_returns :
      (q : Result (Node × Kappa))
      → parse_query body ≡ q
      → (r : Result ReachabilityResult) × (query_reachable app body ≡ some r)
  unfolding query_reachable
  reachable_returns (err e) h = (err e, rw (h, query_reachable) refl)
  reachable_returns (ok (node, k)) h =
      let (r, done, _, _, _) = reachable_correct (node_id node) app.storage k [] none in
      (ok r, rw (h, query_reachable) done)

  reachable_answers : (resp : Response) × (reachable_endpoint app body ≡ some resp)
  unfolding reachable_endpoint
  reachable_answers =
      let (r, done) = reachable_returns (parse_query body) refl in
      (
        respond (do q ← parse_query body; x ← r; ok (reachable_reply q.0 q.1 x)),
        rw (done, reachable_endpoint) refl,
      )

  path_returns :
      (q : Result (Node × Kappa))
      → parse_query body ≡ q
      → (r : Result PathResult) × (query_path app body ≡ some r)
  unfolding query_path
  path_returns (err e) h = (err e, rw (h, query_path) refl)
  path_returns (ok (node, k)) h =
      let (r, done, _, _, _) = path_discovery_correct (node_id node) app.storage k in
      (ok r, rw (h, query_path) done)

  path_answers : (resp : Response) × (path_endpoint app body ≡ some resp)
  unfolding path_endpoint
  path_answers =
      let (r, done) = path_returns (parse_query body) refl in
      (
        respond (do q ← parse_query body; x ← r; ok (path_reply q.0 q.1 x)),
        rw (done, path_endpoint) refl,
      )

module _ ⦃b : Blake3⦄ ⦃c : Cbor⦄ ⦃k : Ed25519⦄ ⦃u : Strings⦄ ⦃sy : Sympy⦄ ⦃z : Z3⦄ ⦃n : Numpy⦄
    ⦃l : Lean⦄ ⦃w : Wire⦄ ⦃h : Http⦄ (app : ArxDbApp) (now : ℕ) where
  -- The body is a proposal that `verify` accepts with a warranted strength, and only the storage
  -- changes.
  abbrev pub IsAccepted : Obj → ArxDbApp → Type 0
  IsAccepted body later =
      (p : Proposal) × (parse_proposal app body ≡ ok p)
      × ((v : VerificationResult) × (verify p.premises p.conclusion p.rule p.edge_type p.proof
              p.timeout
            ≡ ok v)
          × (¬ IsRejectable p.premises p.conclusion p.rule p.edge_type)
          × IsWarranted p.premises p.conclusion p.proof p.timeout p.edge_type v.kappa)
      × (later.roster ≡ app.roster)
      × (later.signer_pubkey ≡ app.signer_pubkey)

  commit_gate :
      (body : Obj) (q : Result Proposal)
      → parse_proposal app body ≡ q
      → ((commit app now body).1 ≡ app) ⊎ IsAccepted body (commit app now body).1
  unfolding commit commit_proposal
  commit_gate body (err e) q = rw (q, commit) (inl refl)
  commit_gate body (ok p) q =
      let out =
        verify_and_commit app.storage now p.signer p.premises p.conclusion p.rule p.edge_type
          p.proof p.timeout in
      rw (q, commit)
        (⊎_elim (λ (same : out.1 ≡ app.storage). inl (ap (λ s. record app { storage = s }) same))
          (λ found. inr (p, refl, found, refl, refl))
          (verify_and_commit_gate app.storage now p.signer p.premises p.conclusion p.rule
            p.edge_type p.proof p.timeout out.0 out.1 refl))

  post-IsAnswer :
      (path : Text) (body : Obj)
      → IsAnswer app
          (λ later. (path ≡ codes "/commit") × IsAccepted body later)
          (post app now path body)
  unfolding post commit_endpoint
  post-IsAnswer path body =
      let P : ArxDbApp → Type 0 = λ later. (path ≡ codes "/commit") × IsAccepted body later in
      elim (Bool-cases (path == codes "/query/reachable")) [
        | inl t ↦ rw (t, post) (answered app P _ (reachable_answers app body))
        | inr f1 ↦ elim (Bool-cases (path == codes "/query/path")) [
          | inl t ↦ rw (f1, t, post) (answered app P _ (path_answers app body))
          | inr f2 ↦ elim (Bool-cases (path == codes "/reproduce")) [
            | inl t ↦ rw (f1, f2, t, post) (unchanged app P _)
            | inr f3 ↦ elim (Bool-cases (path == codes "/attest")) [
              | inl t ↦ rw (f1, f2, f3, t, post) (unchanged app P _)
              | inr f4 ↦ elim (Bool-cases (path == codes "/verify_history")) [
                | inl t ↦ rw (f1, f2, f3, f4, t, post) (unchanged app P _)
                | inr f5 ↦ elim (Bool-cases (path == codes "/commit")) [
                  | inl t ↦
                      rw (f1, f2, f3, f4, f5, t, post)
                        (
                          _,
                          (commit app now body).1,
                          refl,
                          ⊎_elim inl (λ found. inr (eq_of_== path (codes "/commit") t, found))
                              (commit_gate body (parse_proposal app body) refl),
                        )
                  | inr f6 ↦ rw (f1, f2, f3, f4, f5, f6, post) (unchanged app P _)
                ]
              ]
            ]
          ]
        ]
      ]

  abbrev CommitsBy : Request → ArxDbApp → Type 0
  CommitsBy req later =
      (req.method ≡ codes "POST")
      × (before_query req.target ≡ codes "/commit")
      × (body : Obj) × (read_body req ≡ ok body)
      × IsAccepted body later

  route_body-IsAnswer :
      (req : Request) (r : Result Obj)
      → read_body req ≡ r
      → IsAnswer app (CommitsBy req) (route_body app now req.method (before_query req.target) r)
  unfolding route_body
  route_body-IsAnswer req (err e) read = unchanged app (CommitsBy req) (respond (err e))
  route_body-IsAnswer req (ok body) read = elim (Bool-cases (req.method == codes "POST")) [
    | inl t ↦
        let (resp, later, done, kept) = post-IsAnswer (before_query req.target) body in
        (
          resp,
          later,
          rw (t, route_body) done,
          ⊎_elim inl
              (λ (at_commit, found).
                inr (eq_of_== req.method (codes "POST") t, at_commit, body, read, found))
              kept,
        )
    | inr f ↦ rw (f, route_body) (unchanged app (CommitsBy req) (failure 404))
  ]

  -- The handler answers each request in whose body the rule and the domains are strings, where they
  -- are given. The application stays as it was, unless the request is a POST to /commit whose body
  -- is a proposal that `verify` accepts with a strength that is warranted; then, too, the roster
  -- and the key of the server stay.
  pub route_correct :
      (req : Request)
      → ((body : Obj) → read_body req ≡ ok body → HasTexts body)
      → (resp : Response) × (later : ArxDbApp) × (route app now req ≡ (some resp, later))
        × ((later ≡ app)
            ⊎ ((req.method ≡ codes "POST")
                × (before_query req.target ≡ codes "/commit")
                × (body : Obj) × (read_body req ≡ ok body)
                × IsAccepted body later))
  unfolding route
  route_correct req texts =
      let P = CommitsBy req in
      let path = before_query req.target in
      elim (Bool-cases (req.method == codes "GET" && path == codes "/health")) [
        | inl t ↦ rw (t, route) (unchanged app P _)
        | inr f1 ↦ elim (Bool-cases (req.method == codes "GET" && path == codes "/anchor")) [
          | inl t ↦ rw (f1, t, route) (unchanged app P _)
          | inr f2 ↦ elim (Bool-cases (req.method == codes "GET" && path == codes "/query/graph")) [
            | inl t ↦ rw (f1, f2, t, route) (unchanged app P _)
            | inr f3 ↦ rw (f1, f2, f3, route) (route_body-IsAnswer req (read_body req) refl)
          ]
        ]
      ]
