-- ===== src/Verification/Commit/Accepted.antt =====
-- What `verify_and_commit` in src/arxdb/verification/commit.py does to the storage as a whole.
use arxdb.Base.{
  ℕ, ◌≡◌, refl, sym, ap, subst, ◌⊎◌, inl, inr, false, Option, none, some, List, ◌∷◌, map, Memᴰ,
  Bool-cases, nat_eq, Bytes, bytes_eq, pair_eq,
}
use arxdb.Base.Strings.{Strings}
use arxdb.Base.Result.{Result, ok, err}
use mathlib.Core.Logic.{⊎_elim}
use arxdb.Base.Dict.{get}
use arxdb.Storage.Hashing.{Blake3, Hash}
use arxdb.Storage.Serialization.{Cbor}
use arxdb.Storage.Keys.{Ed25519}
use arxdb.Storage.ObjectStore.Held.{Clash, Holds}
use arxdb.Storage.GraphIndex.{get_connectivity}
use arxdb.Storage.AppendLog.{LogEntry}
use arxdb.Storage.Facade.{Storage}
use arxdb.Storage.Facade.Commit.{IsSound, commit_edge_tx_new}
use arxdb.Verification.Schema.{Text, Node, Edge, EdgeType}
use arxdb.Verification.Schema.NodeCodec.{node_bytes, node_id}
use arxdb.Verification.Schema.EdgeCodec.{edge_bytes, edge_hash}
use arxdb.Query.Resolve.{resolve_node, resolve_edge}
use arxdb.Verification.Checkers.Backends.{Sympy, Z3, Numpy, Lean}
use arxdb.Verification.Verifier.{VerificationResult, is_rejected, verify}
use arxdb.Verification.Commit.{
  CommitResult, build_edge, put_claims, committed, store_verified, store_unless_rejected,
  verify_and_commit,
}
use arxdb.Verification.Commit.Stored.{
  build_edge-IsSized, put_claims-Holds, put_claims-IsSound, Holds-resolve_node, Holds-resolve_edge,
}
use arxdb.Verification.Elenchus.Grounds.{IsRejectable}
use arxdb.Verification.Verifier.Evidence.{IsWarranted}
use arxdb.Verification.Verifier.Outcome.{verify_accepted}
use arxdb.Storage.Facade.Held.{commit_edge_tx-Holds, commit_edge_tx-proof}

module _ ⦃b : Blake3⦄ ⦃c : Cbor⦄ ⦃k : Ed25519⦄ where
  -- The edge of a verified proposal is stored: it resolves, and so does each of its nodes, or a
  -- different blob with its hash stands in the store; its proof is held; the log has its bytes, the
  -- index its premises and its conclusion.
  abbrev pub IsStored : Option Bytes → List Node → Node → Edge → LogEntry → Storage → Type 0
  IsStored proof ps n edge entry s' =
      (entry.payload ≡ edge_bytes edge)
      × ((resolve_edge (edge_hash edge) s' ≡ some edge)
          ⊎ Clash s'.objects (λ m. m ≡ edge_bytes edge))
      × ((p : Node)
          → Memᴰ p (n ∷ ps)
          → (resolve_node (node_id p) s' ≡ some p) ⊎ Clash s'.objects (λ m. m ≡ node_bytes p))
      × ((x : Bytes) → proof ≡ some x → Holds s'.objects x)
      × (get_connectivity s'.graph (edge_hash edge) ≡ some (map node_id ps, node_id n))
      × IsSound s'

  pub store_verified_new :
      (s : Storage) (now : ℕ) (v : VerificationResult) (signer : Bytes) (ps : List Node) (n : Node)
      (r : Text) (t : EdgeType) (proof : Option Bytes)
      → IsSound s
      → get s.graph.edges (edge_hash (build_edge v signer ps n r t proof)) ≡ none
      → (entry : LogEntry) × (s' : Storage) × (store_verified s now v signer ps n r t proof ≡ (
        ok (record {
          verification = v;
          edge = some (build_edge v signer ps n r t proof);
          edge_hash = some (edge_hash (build_edge v signer ps n r t proof));
          log_entry = some entry;
        }),
        s',
      ))
        × IsStored proof ps n (build_edge v signer ps n r t proof) entry s'
  unfolding store_verified edge_hash put_claims build_edge
  store_verified_new s now v signer ps n r t proof inv new =
      let edge = build_edge v signer ps n r t proof in
      let s0 : Storage = put_claims s ps n in
      let sound0 = put_claims-IsSound s ps n inv in
      let (entry, s', done, payload, _, _, connected, sound) =
        commit_edge_tx_new s0 now edge.premises edge.conclusion (edge_bytes edge) proof sound0
          new in
      let keeps : (old : Bytes)
          → (old ≡ edge_bytes edge) ⊎ Holds s0.objects old
          → Holds s'.objects old =
        λ old known.
          subst (λ (x : Result (Hash × LogEntry) × Storage). Holds x.1.objects old) done
            (commit_edge_tx-Holds s0 now edge.premises edge.conclusion (edge_bytes edge) proof old
              sound0.addressed known) in
      (
        entry,
        s',
        ap (committed v edge) done,
        (
          payload,
          Holds-resolve_edge s' edge (build_edge-IsSized v signer ps n r t proof)
              (keeps (edge_bytes edge) (inl refl)),
          λ p m.
              Holds-resolve_node s' p
                (keeps (node_bytes p) (inr (put_claims-Holds s ps n p inv.addressed m))),
          λ x e.
              subst (λ (y : Result (Hash × LogEntry) × Storage). Holds y.1.objects x) done
                (commit_edge_tx-proof s0 now edge.premises edge.conclusion (edge_bytes edge) proof x
                  sound0.addressed e),
          connected,
          sound,
        ),
      )

gate :
    ⦃b : Blake3⦄
    → ⦃c : Cbor⦄ → ⦃k : Ed25519⦄
    → (s : Storage) (now : ℕ) (o : Result VerificationResult) (signer : Bytes) (ps : List Node)
      (n : Node) (r : Text) (t : EdgeType) (proof : Option Bytes) (out : Result CommitResult)
      (s' : Storage)
    → store_unless_rejected s now o signer ps n r t proof ≡ (out, s')
    → (s' ≡ s) ⊎ ((v : VerificationResult) × (o ≡ ok v) × (is_rejected v ≡ false))
unfolding store_unless_rejected
gate s now (err e) signer ps n r t proof out s' h = inl (sym (ap (λ x. x.1) h))
gate s now (ok v) signer ps n r t proof out s' h = elim (Bool-cases (is_rejected v)) [
  | inl rejected ↦ inl (sym (ap (λ x. x.1) (rw rejected at h)))
  | inr accepted ↦ inr (v, refl, accepted)
]

module _ ⦃b : Blake3⦄ ⦃c : Cbor⦄ ⦃k : Ed25519⦄ ⦃u : Strings⦄ ⦃sy : Sympy⦄ ⦃z : Z3⦄ ⦃n : Numpy⦄
    ⦃l : Lean⦄ (s : Storage) (now : ℕ) (signer : Bytes) (ps : List Node) (claim : Node) (r : Text)
    (t : EdgeType) (proof : Option Bytes) (timeout : ℕ) where
  -- A proposal that `verify` accepts, whose edge is new to a sound storage, is committed: the edge
  -- resolves by its hash and each of its nodes by its own, or a different blob with that hash
  -- stands in the store; a proof is held in the same way; the log has an entry with the bytes of
  -- the edge, the index gives its premises and its conclusion, and the storage is sound again.
  pub verify_and_commit_accepted :
      (v : VerificationResult)
      → IsSound s
      → verify ps claim r t proof timeout ≡ ok v
      → is_rejected v ≡ false
      → get s.graph.edges (edge_hash (build_edge v signer ps claim r t proof)) ≡ none
      → (entry : LogEntry) × (s' : Storage) × (verify_and_commit s now signer ps claim r t proof
            timeout
          ≡ (
            ok (record {
              verification = v;
              edge = some (build_edge v signer ps claim r t proof);
              edge_hash = some (edge_hash (build_edge v signer ps claim r t proof));
              log_entry = some entry;
            }),
            s',
          ))
        × IsStored proof ps claim (build_edge v signer ps claim r t proof) entry s'
  unfolding verify_and_commit
  verify_and_commit_accepted v inv verified accepted new =
      let (entry, s', done, stored) =
        store_verified_new s now v signer ps claim r t proof inv new in
      (entry, s', rw (verified, store_unless_rejected, accepted) done, stored)

  -- A call of `verify_and_commit` leaves the storage as it was, unless `verify` accepted the edge:
  -- then no ground for a veto holds, and the strength is warranted by the type of the edge, by the
  -- finding of its checker or, where the type has no checker, as the fixed one.
  pub verify_and_commit_gate :
      (out : Result CommitResult) (s' : Storage)
      → verify_and_commit s now signer ps claim r t proof timeout ≡ (out, s')
      → (s' ≡ s)
        ⊎ ((v : VerificationResult) × (verify ps claim r t proof timeout ≡ ok v)
            × (¬ IsRejectable ps claim r t)
            × IsWarranted ps claim proof timeout t v.kappa)
  unfolding verify_and_commit
  verify_and_commit_gate out s' h =
      ⊎_elim inl
        (λ (v, verified, accepted). inr (
          let (_, clean, found) = verify_accepted ps claim r t proof timeout v verified accepted in
          (v, verified, clean, found)))
        (gate s now (verify ps claim r t proof timeout) signer ps claim r t proof out s' h)
