-- ===== src/Seed/Ingest/Settled.antt =====
-- One edge of the import of scripts/seed_phaser.py: what stands in the storage after it.
use arxdb.Base.{
  ℕ, ◌≡◌, refl, sym, ap, ◌∙◌, subst, ◌⊎◌, inl, inr, false, Option, none, some, List, if◌then◌else◌,
  Bool-cases, Option-cases, nat_eq, Bytes, bytes_eq, pair_eq,
}
use arxdb.Base.Strings.{Strings}
use arxdb.Base.Result.{Result, ok, bind_ok}
use mathlib.Core.Logic.{⊎_elim}
use arxdb.Storage.Hashing.{Blake3, hash_bytes_binding}
use arxdb.Storage.Hashing.Hex.{hash_bytes-AreBytes}
use arxdb.Storage.Serialization.{Cbor}
use arxdb.Storage.Keys.{Ed25519}
use arxdb.Storage.ObjectStore.{read, read_integrity}
use arxdb.Storage.ObjectStore.Held.{Stands, Holds}
use arxdb.Storage.Facade.{Storage}
use arxdb.Storage.Facade.Commit.{IsSound}
use arxdb.Verification.Schema.{Node, Edge}
use arxdb.Verification.Schema.EdgeCodec.{edge_bytes, edge_hash}
use arxdb.Verification.Schema.RoundTrip.{IsSized}
use arxdb.Verification.Checkers.Backends.{Sympy, Z3, Numpy, Lean}
use arxdb.Verification.Verifier.{VerificationResult, is_rejected, verify}
use arxdb.Verification.Commit.{build_edge}
use arxdb.Verification.Commit.Stored.{build_edge-IsSized}
use arxdb.Verification.Commit.Kept.{verify_and_commit_ok}
use arxdb.Query.Resolve.{resolve_edge}
use arxdb.Seed.Corpus.{CorpusEdge}
use arxdb.Seed.Ingest.{
  rejected, skipped, SeedRow, row, NodeMap, claims_of, verify_timeout, kappa_of, compare_kappa,
  report, build_corpus_edge, commit_claims, seed_built,
}

module _ ⦃b : Blake3⦄ ⦃c : Cbor⦄ ⦃k : Ed25519⦄ where
  -- An edge that resolves is held, or a different blob with its hash stands in the store.
  resolved-Holds :
      (s : Storage) (edge found : Edge)
      → IsSound s
      → resolve_edge (edge_hash edge) s ≡ some found
      → Holds s.objects (edge_bytes edge)
  unfolding resolve_edge edge_hash
  resolved-Holds s edge found inv there = elim (Option-cases (read s.objects (edge_hash edge))) [
    | inl absent ↦ absurd (cc (rw (absent, resolve_edge) at there))
    | inr (raw, held) ↦
        let same =
          read_integrity s.objects (edge_hash edge) raw inv.addressed
            (hash_bytes-AreBytes (edge_bytes edge)) held in
        ⊎_elim (λ (e : edge_bytes edge ≡ raw). inl (held ∙ ap some (sym e))) inr
          (hash_bytes_binding {P = λ m. m ≡ edge_bytes edge} {Q = Stands s.objects}
            (edge_bytes edge) raw refl (rw same held) (sym same))
  ]

module _ ⦃b : Blake3⦄ ⦃c : Cbor⦄ ⦃k : Ed25519⦄ ⦃u : Strings⦄ ⦃sy : Sympy⦄ ⦃z : Z3⦄ ⦃n : Numpy⦄
    ⦃l : Lean⦄ (m : NodeMap) (signer : Bytes) where
  abbrev pub edge_or_none : VerificationResult → List Node → Node → CorpusEdge → Option Edge
  edge_or_none v ps claim e =
      if is_rejected v
      then none
      else some (build_edge v signer ps claim e.rule e.edge_type e.proof_bytes)

  -- What stands behind a record that was built.
  pub built-cases :
      (e : CorpusEdge) (o : Option Edge)
      → build_corpus_edge m e signer ≡ ok o
      → (ps : List Node) × (claim : Node) × (v : VerificationResult) × (claims_of m e
          ≡ ok (ps, claim))
        × (verify ps claim e.rule e.edge_type e.proof_bytes verify_timeout ≡ ok v)
        × (edge_or_none v ps claim e ≡ o)
  unfolding build_corpus_edge
  built-cases e o h =
      let (q, claims, rest) = bind_ok (claims_of m e) _ o h in
      let (v, verified, done) =
        bind_ok (verify q.0 q.1 e.rule e.edge_type e.proof_bytes verify_timeout) _ o rest in
      (q.0, q.1, v, claims, verified, cc done)

  pub built-of :
      (e : CorpusEdge) (ps : List Node) (claim : Node) (v : VerificationResult)
      → claims_of m e ≡ ok (ps, claim)
      → verify ps claim e.rule e.edge_type e.proof_bytes verify_timeout ≡ ok v
      → build_corpus_edge m e signer ≡ ok (edge_or_none v ps claim e)
  unfolding build_corpus_edge
  built-of e ps claim v claims verified = rw (claims, build_corpus_edge, verified) refl

  -- The edge is rejected, or what is stored under its hash is the edge.
  abbrev pub IsSettled : Storage → CorpusEdge → Type 0
  IsSettled s e =
      (build_corpus_edge m e signer ≡ ok none)
      ⊎ ((edge : Edge) × (build_corpus_edge m e signer ≡ ok (some edge))
          × IsSized edge
          × Holds s.objects (edge_bytes edge))

  abbrev pub KeepsHeld : Storage → Storage → Type 0
  KeepsHeld s s' = (old : Bytes) → Holds s.objects old → Holds s'.objects old

  pub IsSettled-KeepsHeld :
      (s s' : Storage) (e : CorpusEdge) → KeepsHeld s s' → IsSettled s e → IsSettled s' e
  IsSettled-KeepsHeld s s' e keeps (inl none_built) = inl none_built
  IsSettled-KeepsHeld s s' e keeps (inr (edge, built, sized, held)) =
      inr (edge, built, sized, keeps (edge_bytes edge) held)

  -- The row of an edge, and the storage after it.
  abbrev pub Settles : Storage → CorpusEdge → Result SeedRow × Storage → Type 0
  Settles s e out =
      (r : SeedRow) × (s' : Storage) × (out ≡ (ok r, s'))
      × (r.key ≡ e.key)
      × IsSound s'
      × KeepsHeld s s'
      × IsSettled s' e

  commit-Settles :
      (s : Storage) (now : ℕ) (e : CorpusEdge) (ps : List Node) (claim : Node)
      (v : VerificationResult)
      → IsSound s
      → claims_of m e ≡ ok (ps, claim)
      → verify ps claim e.rule e.edge_type e.proof_bytes verify_timeout ≡ ok v
      → is_rejected v ≡ false
      → build_corpus_edge m e signer
        ≡ ok (some (build_edge v signer ps claim e.rule e.edge_type e.proof_bytes))
      → Settles s e (commit_claims s now signer e (claims_of m e))
  unfolding commit_claims report
  commit-Settles s now e ps claim v inv claims verified accepted built =
      let edge = build_edge v signer ps claim e.rule e.edge_type e.proof_bytes in
      let (entry, s', done, kept) =
        verify_and_commit_ok s now signer ps claim e.rule e.edge_type e.proof_bytes verify_timeout v
          inv verified accepted in
      (
        row e (kappa_of v) (compare_kappa (kappa_of v) e.expected_kappa),
        s',
        rw (claims, commit_claims, done) refl,
        refl,
        kept.sound,
        kept.old_held,
        inr (
          edge,
          built,
          build_edge-IsSized v signer ps claim e.rule e.edge_type e.proof_bytes,
          kept.edge_held,
        ),
      )

  pub seed_built-Settles :
      (s : Storage) (now : ℕ) (e : CorpusEdge) (o : Option Edge)
      → IsSound s
      → build_corpus_edge m e signer ≡ ok o
      → Settles s e (seed_built m signer s now e (ok o))
  unfolding seed_built
  seed_built-Settles s now e none inv built =
      (row e none rejected, s, refl, refl, inv, λ old h. h, inl built)
  seed_built-Settles s now e (some edge) inv built =
      let (ps, claim, v, claims, verified, made) = built-cases e (some edge) built in
      elim (Bool-cases (is_rejected v)) [
        | inl vetoed ↦ absurd (cc (rw vetoed at made))
        | inr accepted ↦
            let same : build_edge v signer ps claim e.rule e.edge_type e.proof_bytes ≡ edge =
              cc (rw accepted at made) in
            elim (Option-cases (resolve_edge (edge_hash edge) s)) [
              | inl absent ↦
                  rw (absent, seed_built)
                    (commit-Settles s now e ps claim v inv claims verified accepted
                      (built ∙ ap (λ x. ok (some x)) (sym same)))
              | inr (found, there) ↦
                  rw (there, seed_built)
                    (
                      row e (some edge.kappa) skipped,
                      s,
                      refl,
                      refl,
                      inv,
                      λ old h. h,
                      inr (
                        edge,
                        built,
                        subst IsSized same
                            (build_edge-IsSized v signer ps claim e.rule e.edge_type e.proof_bytes),
                        resolved-Holds s edge found inv there,
                      ),
                    )
            ]
      ]
