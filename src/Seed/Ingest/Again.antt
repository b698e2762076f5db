-- ===== src/Seed/Ingest/Again.antt =====
-- Running the import of scripts/seed_phaser.py, and running it again.
use arxdb.Base.{
  ℕ, ◌≡◌, refl, sym, subst, ◌⊎◌, inl, inr, Option, none, some, List, [], ◌∷◌, map, Memᴰ, nat_eq,
  Bytes, bytes_eq, pair_eq, length,
}
use arxdb.Base.Strings.{Strings}
use arxdb.Base.Result.{ok}
use mathlib.Core.Logic.{⊎_elim}
use mathlib.Core.List.Memᴰ
use arxdb.Storage.Hashing.{Blake3, Collision-map}
use arxdb.Storage.ObjectStore.Held.{Clash}
use arxdb.Storage.Serialization.{Cbor}
use arxdb.Storage.Keys.{Ed25519}
use arxdb.Storage.Facade.{Storage}
use arxdb.Storage.Facade.Commit.{IsSound}
use arxdb.Verification.Schema.{Edge}
use arxdb.Verification.Schema.EdgeCodec.{edge_bytes, edge_hash}
use arxdb.Verification.Checkers.Backends.{Sympy, Z3, Numpy, Lean}
use arxdb.Verification.Commit.Stored.{Holds-resolve_edge}
use arxdb.Query.Resolve.{resolve_edge}
use arxdb.Seed.Corpus.{CorpusEdge}
use arxdb.Seed.Ingest.{
  rejected, skipped, SeedRow, row, NodeMap, then_rows, build_corpus_edge, seed_built, seed_corpus,
}
use arxdb.Seed.Ingest.Settled.{IsSettled, KeepsHeld, IsSettled-KeepsHeld, seed_built-Settles}

module _ ⦃b : Blake3⦄ ⦃c : Cbor⦄ ⦃k : Ed25519⦄ ⦃u : Strings⦄ ⦃sy : Sympy⦄ ⦃z : Z3⦄ ⦃n : Numpy⦄
    ⦃l : Lean⦄ (m : NodeMap) (signer : Bytes) where
  -- Each edge names nodes of the corpus, and `verify` returns for it.
  abbrev pub Builds : List CorpusEdge → Type 0
  Builds es =
      (e : CorpusEdge) → Memᴰ e es → (o : Option Edge) × (build_corpus_edge m e signer ≡ ok o)

  seed_corpus-IsSettled :
      (clock : ℕ → ℕ) (s : Storage) (es : List CorpusEdge)
      → IsSound s
      → Builds es
      → (rows : List SeedRow) × (s' : Storage) × (seed_corpus m signer clock s es ≡ (ok rows, s'))
        × (map (λ (r : SeedRow). r.key) rows ≡ map (λ (e : CorpusEdge). e.key) es)
        × IsSound s'
        × KeepsHeld m signer s s'
        × ((e : CorpusEdge) → Memᴰ e es → IsSettled m signer s' e)
  unfolding seed_corpus
  seed_corpus-IsSettled clock s [] inv builds =
      ([], s, refl, refl, inv, λ old h. h, λ e there. absurd (Memᴰ.not-nil there))
  seed_corpus-IsSettled clock s (e ∷ es) inv builds =
      let (o, built) = builds e (Memᴰ.head refl) in
      let (r, s1, done, named, sound, kept, settled) =
        seed_built-Settles m signer s (clock (length es)) e o inv built in
      let (rows, s', rest, names, sound', kept', all_settled) =
        seed_corpus-IsSettled clock s1 es sound (λ x there. builds x (Memᴰ.tail there)) in
      (
        r ∷ rows,
        s',
        rw (built, done, then_rows, rest) refl,
        cc (named, names),
        sound',
        λ old h. kept' old (kept old h),
        λ x there.
            ⊎_elim
              (λ (q : x ≡ e).
                subst (IsSettled m signer s') (sym q)
                  (IsSettled-KeepsHeld m signer s1 s' e kept' settled))
              (all_settled x) (Memᴰ.cases_cons there),
      )

  -- The bytes of an edge of the corpus.
  abbrev pub CorpusMessage : List CorpusEdge → Bytes → Type 0
  CorpusMessage es bytes =
      (e : CorpusEdge) × Memᴰ e es
      × (edge : Edge) × (build_corpus_edge m e signer ≡ ok (some edge))
      × (bytes ≡ edge_bytes edge)

  -- The row says that nothing was committed.
  abbrev pub IsIdle : SeedRow → Type 0
  IsIdle r = (r.status ≡ rejected) ⊎ (r.status ≡ skipped)

  settled-again :
      (s : Storage) (now : ℕ) (e : CorpusEdge)
      → IsSettled m signer s e
      → ((r : SeedRow) × (seed_built m signer s now e (build_corpus_edge m e signer) ≡ (ok r, s))
          × IsIdle r)
        ⊎ Clash s.objects (CorpusMessage (e ∷ []))
  unfolding seed_built
  settled-again s now e (inl built) =
      inl (row e none rejected, rw (built, seed_built) refl, inl refl)
  settled-again s now e (inr (edge, built, sized, held)) =
      ⊎_elim
        (λ (there : resolve_edge (edge_hash edge) s ≡ some edge).
          inl (row e (some edge.kappa) skipped, rw (built, seed_built, there) refl, inr refl))
        (λ clash. inr (Collision-map (λ x q. (e, Memᴰ.head refl, edge, built, q)) (λ x t. t) clash))
        (Holds-resolve_edge s edge sized held)

  seed_corpus-again :
      (clock : ℕ → ℕ) (s : Storage) (es : List CorpusEdge)
      → ((e : CorpusEdge) → Memᴰ e es → IsSettled m signer s e)
      → ((rows : List SeedRow) × (seed_corpus m signer clock s es ≡ (ok rows, s))
          × ((r : SeedRow) → Memᴰ r rows → IsIdle r))
        ⊎ Clash s.objects (CorpusMessage es)
  unfolding seed_corpus
  seed_corpus-again clock s [] settled = inl ([], refl, λ r there. absurd (Memᴰ.not-nil there))
  seed_corpus-again clock s (e ∷ es) settled =
      elim (settled-again s (clock (length es)) e (settled e (Memᴰ.head refl))) [
        | inr clash ↦ inr (
            Collision-map
              (λ x (d, here, edge, built, q).
                (d, Memᴰ.head (Memᴰ.eq_of_singleton here), edge, built, q))
              (λ x t. t) clash)
        | inl (r, done, idle) ↦
            elim (seed_corpus-again clock s es (λ x there. settled x (Memᴰ.tail there))) [
              | inr clash ↦ inr (
                  Collision-map
                    (λ x (d, there, edge, built, q). (d, Memᴰ.tail there, edge, built, q))
                    (λ x t. t) clash)
              | inl (rows, rest, all_idle) ↦ inl (
                r ∷ rows,
                rw (done, then_rows, rest) refl,
                λ x there.
                    ⊎_elim (λ (q : x ≡ r). subst IsIdle (sym q) idle) (all_idle x)
                      (Memᴰ.cases_cons there),
              )
            ]
      ]

  -- Where each edge names nodes of the corpus and `verify` returns for it, importing into a sound
  -- storage returns a row for each edge in order and leaves the storage sound; importing again then
  -- changes nothing, and each of its rows says REJECTED or SKIP, or a different blob in the
  -- store has the hash of an edge of the corpus.
  pub seed_corpus_idempotent :
      (clock later_clock : ℕ → ℕ) (s : Storage) (es : List CorpusEdge)
      → IsSound s
      → Builds es
      → (rows : List SeedRow) × (s' : Storage) × (seed_corpus m signer clock s es ≡ (ok rows, s'))
        × (map (λ (r : SeedRow). r.key) rows ≡ map (λ (e : CorpusEdge). e.key) es)
        × IsSound s'
        × (((again : List SeedRow) × (seed_corpus m signer later_clock s' es ≡ (ok again, s'))
              × ((r : SeedRow) → Memᴰ r again → IsIdle r))
            ⊎ Clash s'.objects (CorpusMessage es))
  seed_corpus_idempotent clock later_clock s es inv builds =
      let (rows, s', done, names, sound, _, settled) =
        seed_corpus-IsSettled clock s es inv builds in
      (rows, s', done, names, sound, seed_corpus-again later_clock s' es settled)
