-- ===== src/Api/Server/Committed.antt =====
-- What src/arxdb/api/server.py reproduces of an edge that was committed.
use arxdb.Base.{
  ℕ, ◌≡◌, refl, sym, ap, ◌∙◌, subst, ◌⊎◌, inl, inr, true, false, ◌&&◌, Option, none, some, List, [],
  ◌∷◌, map, Memᴰ, arith, nat_eq, Bytes, bytes_eq, pair_eq,
}
use arxdb.Base.Strings.{Strings}
use arxdb.Base.Result.{Result, ok, err, ◌>>=◌}
use arxdb.Base.Tests.{bytes_beq}
use mathlib.Core.Logic.{⊎_elim}
use arxdb.Base.Dict.{get}
use arxdb.Storage.Hashing.{Blake3, Hash, hash_bytes, Collision-map, hash_new-hash_bytes, hex}
use arxdb.Storage.Serialization.{Cbor}
use arxdb.Storage.Keys.{Ed25519}
use arxdb.Storage.ObjectStore.{ObjectStore}
use arxdb.Storage.ObjectStore.Held.{Clash, Holds}
use arxdb.Storage.AppendLog.{LogEntry}
use arxdb.Storage.Facade.{Storage}
use arxdb.Storage.Facade.Commit.{IsSound}
use arxdb.Verification.Schema.{Text, Node, Edge, EdgeType, Verdict, Kappa}
use arxdb.Verification.Schema.NodeCodec.{node_bytes, node_id}
use arxdb.Verification.Schema.EdgeCodec.{edge_bytes, edge_hash}
use arxdb.Query.Resolve.{resolve_node, resolve_edge}
use arxdb.Verification.Checkers.Backends.{Sympy, Z3, Numpy, Lean}
use arxdb.Verification.Verifier.{VerificationResult, is_rejected, verify}
use arxdb.Verification.Commit.{CommitResult, proof_hash_of, build_edge, committed}
use arxdb.Storage.Hashing.Hex.{AreBytes, hash_bytes-AreBytes, bytes_fromhex-hex}
use arxdb.Storage.Serialization.{Obj, Pairs, dict_get}
use arxdb.Verification.Schema.Decoding.{index}
use arxdb.Verification.Commit.Accepted.{IsStored, verify_and_commit_accepted}
use arxdb.Attestation.Attest.{AttestationResult, is_ok, verify_edge_attestation}
use arxdb.Attestation.Attest.Provenance.{verify_edge_attestation_correct}
use arxdb.Api.Requests.{or_bad_request, hex_to_hash, key_edge_hash, default_timeout}
use arxdb.Api.Proposals.{ArxDbApp, Proposal}
use arxdb.Api.Server.{
  ReproduceReport, verdict_beq, kappa_beq, resolve_each, stored_proof, reproduce_edge, reproduce,
  commit_proposal,
}

verdict_beq_refl : (v : Verdict) → verdict_beq v v ≡ true
verdict_beq_refl v = ground arith

kappa_beq_refl : (k : Kappa) → kappa_beq k k ≡ true
kappa_beq_refl k = ground arith

module _ ⦃b : Blake3⦄ ⦃c : Cbor⦄ where
  resolve_each_all :
      (P : Bytes → Type 0) (s : Storage) (ps : List Node)
      → ((p : Node) → Memᴰ p ps → (resolve_node (node_id p) s ≡ some p) ⊎ Clash s.objects P)
      → (resolve_each s (map node_id ps) ≡ ok ps) ⊎ Clash s.objects P
  unfolding resolve_each
  resolve_each_all P s [] known = inl refl
  resolve_each_all P s (p ∷ ps) known =
      ⊎_elim
        (λ (here : resolve_node (node_id p) s ≡ some p).
          ⊎_elim (λ (rest : resolve_each s (map node_id ps) ≡ ok ps). inl (rw (here, rest) refl))
            inr (resolve_each_all P s ps (λ q m. known q (Memᴰ.tail m))))
        inr (known p (Memᴰ.head refl))

  Holds-stored_proof :
      (s : ObjectStore) (proof : Option Bytes)
      → ((x : Bytes) → proof ≡ some x → Holds s x)
      → (stored_proof s (proof_hash_of proof) ≡ proof) ⊎ Clash s (λ m. proof ≡ some m)
  unfolding stored_proof proof_hash_of
  Holds-stored_proof s none held = inl refl
  Holds-stored_proof s (some x) held =
      ⊎_elim inl (λ clash. inr (Collision-map (λ m e. ap some (sym e)) (λ m t. t) clash))
        (held x refl)

module _ ⦃b : Blake3⦄ ⦃c : Cbor⦄ ⦃k : Ed25519⦄ where
  committed-storage :
      (v : VerificationResult) (e : Edge) (r : Result (Hash × LogEntry) × Storage)
      → (committed v e r).1 ≡ r.1
  committed-storage v e (ok x, s) = refl
  committed-storage v e (err x, s) = refl

-- `{"edge_hash": h.hex()}`
abbrev pub edge_request : Hash → Obj
edge_request h = Obj.dict (Pairs.pair key_edge_hash (Obj.text (hex h)) Pairs.end)

module _ ⦃b : Blake3⦄ where
  hex_to_hash-hex : (m : Bytes) → hex_to_hash (Obj.text (hex (hash_bytes m))) ≡ ok (hash_bytes m)
  unfolding hex_to_hash or_bad_request
  hex_to_hash-hex m =
      rw (bytes_fromhex-hex (hash_bytes m) (hash_bytes-AreBytes m), hash_new-hash_bytes m) refl

module _ ⦃b : Blake3⦄ ⦃c : Cbor⦄ ⦃k : Ed25519⦄ ⦃u : Strings⦄ ⦃sy : Sympy⦄ ⦃z : Z3⦄ ⦃n : Numpy⦄
    ⦃l : Lean⦄ where
  reproduce-edge_request :
      (app : ArxDbApp) (m : Bytes)
      → reproduce app (edge_request (hash_bytes m)) ≡ reproduce_edge app (hash_bytes m)
  unfolding reproduce index dict_get bytes_beq
  reproduce-edge_request app m = ap (λ r. r >>= reproduce_edge app) (hex_to_hash-hex m)

  reproduce_edge_known :
      (app : ArxDbApp) (h : Hash) (edge : Edge) (ps : List Node) (claim : Node)
      (proof : Option Bytes) (v : VerificationResult) (a : AttestationResult)
      → resolve_edge h app.storage ≡ some edge
      → resolve_each app.storage edge.premises ≡ ok ps
      → resolve_node edge.conclusion app.storage ≡ some claim
      → stored_proof app.storage.objects edge.proof_hash ≡ proof
      → verify ps claim edge.rule edge.type proof default_timeout ≡ ok v
      → verify_edge_attestation edge app.storage app.roster ≡ ok a
      → reproduce_edge app h
        ≡ ok (record {
          edge = edge;
          premises = ps;
          conclusion = claim;
          proof = proof;
          re_verified = v;
          verdict_match = verdict_beq v.verdict edge.verdict;
          kappa_match = kappa_beq v.kappa edge.kappa;
          attestation = a;
          reproduced =
              verdict_beq v.verdict edge.verdict && (kappa_beq v.kappa edge.kappa && is_ok a);
        })
  unfolding reproduce_edge
  reproduce_edge_known app h edge ps claim proof v a e1 e2 e3 e4 e5 e6 =
      rw (e1, e2, e3, e4, e5, e6) refl

  proof_hash_of-AreBytes :
      (proof : Option Bytes) (h : Hash) → proof_hash_of proof ≡ some h → AreBytes h
  unfolding proof_hash_of
  proof_hash_of-AreBytes none h e = absurd (cc e)
  proof_hash_of-AreBytes (some x) h e =
      let same : hash_bytes x ≡ h = cc e in subst AreBytes same (hash_bytes-AreBytes x)

  -- The messages that are hashed for an edge: its bytes, those of its nodes, and the proof.
  abbrev pub EdgeMessage : Edge → List Node → Node → Option Bytes → Bytes → Type 0
  EdgeMessage edge ps claim proof m =
      (m ≡ edge_bytes edge)
      ⊎ (((p : Node) × Memᴰ p (claim ∷ ps) × (m ≡ node_bytes p)) ⊎ (proof ≡ some m))

  -- The report on an edge that was committed as the result `v` says.
  abbrev pub IsReproduced : ArxDbApp → Edge → ReproduceReport → Type 0
  IsReproduced app edge report =
      (reproduce app (edge_request (edge_hash edge)) ≡ ok report)
      × (report.edge ≡ edge)
      × (report.verdict_match ≡ true)
      × (report.kappa_match ≡ true)
      × (report.reproduced ≡ is_ok report.attestation)

  IsStored-IsReproduced :
      (app : ArxDbApp) (v : VerificationResult) (signer : Bytes) (ps : List Node) (claim : Node)
      (r : Text) (t : EdgeType) (proof : Option Bytes) (entry : LogEntry)
      → verify ps claim r t proof default_timeout ≡ ok v
      → IsStored proof ps claim (build_edge v signer ps claim r t proof) entry app.storage
      → ((report : ReproduceReport) × IsReproduced app
            (build_edge v signer ps claim r t proof)
            report)
        ⊎ Clash app.storage.objects
            (EdgeMessage (build_edge v signer ps claim r t proof) ps claim proof)
  unfolding build_edge edge_hash
  IsStored-IsReproduced app v signer ps claim r t proof entry verified
        (_, edge_known, nodes_known, proof_held, _, sound) =
      let edge = build_edge v signer ps claim r t proof in
      let (a, attested, _, _, _, _) =
        verify_edge_attestation_correct edge app.storage app.roster sound
          (proof_hash_of-AreBytes proof) in
      let node_known : (p : Node)
          → Memᴰ p (claim ∷ ps)
          → (resolve_node (node_id p) app.storage ≡ some p)
            ⊎ Clash app.storage.objects (EdgeMessage edge ps claim proof) =
        λ p m.
          ⊎_elim inl (λ clash. inr (Collision-map (λ x e. inr (inl (p, m, e))) (λ x t. t) clash))
            (nodes_known p m) in
      ⊎_elim
        (λ (e1 : resolve_edge (edge_hash edge) app.storage ≡ some edge).
          ⊎_elim
            (λ (e2 : resolve_each app.storage (map node_id ps) ≡ ok ps).
              ⊎_elim
                (λ (e3 : resolve_node (node_id claim) app.storage ≡ some claim).
                  ⊎_elim
                    (λ (e4 : stored_proof app.storage.objects (proof_hash_of proof) ≡ proof). inl (
                      _,
                      (
                        reproduce-edge_request app (edge_bytes edge)
                            ∙ reproduce_edge_known app (edge_hash edge) edge ps claim proof v a e1
                                e2 e3 e4 verified attested,
                        refl,
                        verdict_beq_refl v.verdict,
                        kappa_beq_refl v.kappa,
                        rw (verdict_beq_refl v.verdict, kappa_beq_refl v.kappa) refl,
                      ),
                    ))
                    (λ clash. inr (Collision-map (λ m e. inr (inr e)) (λ m t. t) clash))
                    (Holds-stored_proof app.storage.objects proof proof_held))
                inr (node_known claim (Memᴰ.head refl)))
            inr
            (resolve_each_all (EdgeMessage edge ps claim proof) app.storage ps
              (λ p m. node_known p (Memᴰ.tail m))))
        (λ clash. inr (Collision-map (λ m e. inl e) (λ m t. t) clash)) edge_known

  -- A proposal with the default timeout that `verify` accepts, whose edge is new to a sound
  -- storage, is committed, and the result names its edge and the hash of it; then `reproduce` for
  -- the hash of its edge reports the edge, that verdict and strength match, and `reproduced`
  -- exactly as the attestation is, or a different blob in the store has the hash of the edge, of a
  -- node of it or of its proof.
  pub reproduce-commit_proposal :
      (app : ArxDbApp) (now : ℕ) (p : Proposal) (v : VerificationResult)
      → IsSound app.storage
      → p.timeout ≡ default_timeout
      → verify p.premises p.conclusion p.rule p.edge_type p.proof p.timeout ≡ ok v
      → is_rejected v ≡ false
      → get app.storage.graph.edges
          (edge_hash (build_edge v p.signer p.premises p.conclusion p.rule p.edge_type p.proof))
        ≡ none
      → (out : CommitResult) × (later : ArxDbApp) × (commit_proposal app now (ok p)
          ≡ (ok out, later))
        × (out.edge
            ≡ some (build_edge v p.signer p.premises p.conclusion p.rule p.edge_type p.proof))
        × (out.edge_hash
            ≡ some (
                edge_hash
                  (build_edge v p.signer p.premises p.conclusion p.rule p.edge_type p.proof)))
        × (((report : ReproduceReport) × IsReproduced later
                (build_edge v p.signer p.premises p.conclusion p.rule p.edge_type p.proof)
                report)
            ⊎ Clash later.storage.objects (
                EdgeMessage
                  (build_edge v p.signer p.premises p.conclusion p.rule p.edge_type p.proof)
                  p.premises
                  p.conclusion
                  p.proof))
  unfolding commit_proposal
  reproduce-commit_proposal app now p v sound timeout verified accepted new =
      let (entry, s', done, stored) =
        verify_and_commit_accepted app.storage now p.signer p.premises p.conclusion p.rule
          p.edge_type p.proof p.timeout v sound verified accepted new in
      let later : ArxDbApp = record app { storage = s' } in
      (
        _,
        later,
        ap (λ (x : Result CommitResult × Storage). (x.0, record app { storage = x.1 })) done,
        refl,
        refl,
        IsStored-IsReproduced later v p.signer p.premises p.conclusion p.rule p.edge_type p.proof
            entry
            (subst (λ ms. verify p.premises p.conclusion p.rule p.edge_type p.proof ms ≡ ok v)
              timeout verified)
            stored,
      )
