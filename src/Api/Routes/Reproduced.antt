-- ===== src/Api/Routes/Reproduced.antt =====
-- A commit over HTTP, and the report on what it committed.
use arxdb.Base.{
  ℕ, ◌≡◌, refl, ap, ◌∙◌, ◌⊎◌, inl, inr, true, false, none, some, nat_eq, bytes_eq, pair_eq,
}
use arxdb.Base.Strings.{Strings, codes}
use arxdb.Base.Result.{Result, ok, ◌>>=◌}
use arxdb.Base.Tests.{bytes_beq}
use arxdb.Base.Dict.{get}
use mathlib.Core.Logic.{⊎_elim}
use arxdb.Storage.Hashing.{Blake3, Hash}
use arxdb.Storage.ObjectStore.Held.{Clash}
use arxdb.Storage.Serialization.{Cbor, Obj, dict_get}
use arxdb.Storage.Keys.{Ed25519}
use arxdb.Storage.Facade.Commit.{IsSound}
use arxdb.Verification.Schema.{Text}
use arxdb.Verification.Schema.EdgeCodec.{edge_hash}
use arxdb.Verification.Checkers.Backends.{Sympy, Z3, Numpy, Lean}
use arxdb.Verification.Verifier.{VerificationResult, is_rejected, verify}
use arxdb.Verification.Commit.{CommitResult, build_edge}
use arxdb.Api.Requests.{field, key_edge_hash, default_timeout}
use arxdb.Api.Proposals.{Wire, ArxDbApp, Proposal, parse_proposal}
use arxdb.Api.Server.{ReproduceReport, reproduce, commit, commit_proposal}
use arxdb.Api.Server.Committed.{EdgeMessage, edge_request, reproduce-commit_proposal}
use arxdb.Api.Replies.{reproduce_reply, commit_reply, hash_to_text}
use arxdb.Api.Routes.{
  Http, Request, reply, before_query, read_body, respond, commit_endpoint, post, route_body, route,
}

module _ ⦃h : Http⦄ where
  -- A POST to a path, with a body that is read as an object.
  abbrev pub IsPost : Text → Obj → Request → Type 0
  IsPost path body req =
      (req.method ≡ codes "POST") × (before_query req.target ≡ path) × (read_body req ≡ ok body)

-- What an object shows under a key.
abbrev pub Shows : Obj → Text → Obj → Type 0
Shows payload key x = field payload key ≡ ok (some x)

module _ ⦃b : Blake3⦄ ⦃c : Cbor⦄ ⦃k : Ed25519⦄ ⦃u : Strings⦄ ⦃sy : Sympy⦄ ⦃z : Z3⦄ ⦃n : Numpy⦄
    ⦃l : Lean⦄ ⦃w : Wire⦄ ⦃h : Http⦄ where
  route-posted :
      (app : ArxDbApp) (now : ℕ) (req : Request)
      → req.method ≡ codes "POST"
      → route app now req
        ≡ route_body app now (codes "POST") (before_query req.target) (read_body req)
  unfolding route bytes_beq
  route-posted app now req posted = rw (posted, route) refl

  route-post :
      (app : ArxDbApp) (now : ℕ) (req : Request) (path : Text) (body : Obj)
      → IsPost path body req
      → route app now req ≡ post app now path body
  unfolding route_body bytes_beq
  route-post app now req path body (posted, there, read) =
      route-posted app now req posted
      ∙ ap (λ t. route_body app now (codes "POST") t (read_body req)) there
      ∙ ap (route_body app now (codes "POST") path) read

  post-commit :
      (app : ArxDbApp) (now : ℕ) (body : Obj) (p : Proposal) (out : CommitResult) (later : ArxDbApp)
      → parse_proposal app body ≡ ok p
      → commit_proposal app now (ok p) ≡ (ok out, later)
      → post app now (codes "/commit") body ≡ (some (reply 200 (commit_reply out)), later)
  unfolding post commit_endpoint commit respond bytes_beq
  post-commit app now body p out later parsed done =
      ap
        (λ (x : Result CommitResult × ArxDbApp).
          (some (respond (do y ← x.0; ok (commit_reply y))), x.1))
        (ap (commit_proposal app now) parsed ∙ done)

  post-reproduce :
      (app : ArxDbApp) (now : ℕ) (body : Obj) (report : ReproduceReport)
      → reproduce app body ≡ ok report
      → post app now (codes "/reproduce") body
        ≡ (some (reply 200 (reproduce_reply h.b64encode report)), app)
  unfolding post respond bytes_beq
  post-reproduce app now body report done = rw done refl

  commit_reply-Shows :
      (out : CommitResult) (x : Hash)
      → out.edge_hash ≡ some x
      → Shows (commit_reply out) key_edge_hash (hash_to_text x)
  unfolding field commit_reply dict_get bytes_beq
  commit_reply-Shows out x e = rw e refl

  reproduce_reply-Shows :
      (report : ReproduceReport)
      → report.verdict_match ≡ true
      → report.kappa_match ≡ true
      → Shows (reproduce_reply h.b64encode report) (codes "verdict_match") (Obj.bool true)
        × Shows (reproduce_reply h.b64encode report) (codes "kappa_match") (Obj.bool true)
  unfolding field reproduce_reply dict_get bytes_beq
  reproduce_reply-Shows report verdict_match kappa_match =
      (ap (λ m. ok (some (Obj.bool m))) verdict_match, ap (λ m. ok (some (Obj.bool m))) kappa_match)

  -- A proposal that is posted to /commit, that `verify` accepts and whose edge is new to a sound
  -- storage, gets a reply with the hash of its edge. Posted to /reproduce, that hash gets a reply
  -- that says that verdict and strength match, or a different blob in the store has the hash of the
  -- edge, of a node of it or of its proof. The proposal has the default timeout.
  pub reproduced_over_http :
      (app : ArxDbApp) (now later_now : ℕ) (req again : Request) (body : Obj) (p : Proposal)
      (v : VerificationResult)
      → IsPost (codes "/commit") body req
      → parse_proposal app body ≡ ok p
      → IsSound app.storage
      → p.timeout ≡ default_timeout
      → verify p.premises p.conclusion p.rule p.edge_type p.proof p.timeout ≡ ok v
      → is_rejected v ≡ false
      → get app.storage.graph.edges
          (edge_hash (build_edge v p.signer p.premises p.conclusion p.rule p.edge_type p.proof))
        ≡ none
      → IsPost
          (codes "/reproduce")
          (edge_request
            (edge_hash (build_edge v p.signer p.premises p.conclusion p.rule p.edge_type p.proof)))
          again
      → (later : ArxDbApp) × (shown : Obj) × (route app now req ≡ (some (reply 200 shown), later))
        × Shows shown key_edge_hash (
            hash_to_text (
              edge_hash (build_edge v p.signer p.premises p.conclusion p.rule p.edge_type p.proof)))
        × (((report : Obj) × (route later later_now again ≡ (some (reply 200 report), later))
              × (Shows report (codes "verdict_match") (Obj.bool true)
                  × Shows report (codes "kappa_match") (Obj.bool true)))
            ⊎ Clash later.storage.objects (
                EdgeMessage
                  (build_edge v p.signer p.premises p.conclusion p.rule p.edge_type p.proof)
                  p.premises
                  p.conclusion
                  p.proof))
  reproduced_over_http app now later_now req again body p v posted parsed sound timeout verified
        accepted new asked =
      let edge = build_edge v p.signer p.premises p.conclusion p.rule p.edge_type p.proof in
      let (out, later, done, _, told, found) =
        reproduce-commit_proposal app now p v sound timeout verified accepted new in
      (
        later,
        commit_reply out,
        route-post app now req (codes "/commit") body posted
            ∙ post-commit app now body p out later parsed done,
        commit_reply-Shows out (edge_hash edge) told,
        ⊎_elim
            (λ (report, (reproduced, _, verdict_match, kappa_match, _)). inl (
              reproduce_reply h.b64encode report,
              route-post later later_now again (codes "/reproduce") (edge_request (edge_hash edge))
                    asked
                  ∙ post-reproduce later later_now (edge_request (edge_hash edge)) report
                      reproduced,
              reproduce_reply-Shows report verdict_match kappa_match,
            ))
            inr found,
      )
