-- ===== src/Attestation/Attest/Provenance.antt =====
-- The attestation of an edge, and the roster as the first entry, over a sound storage.
use arxdb.Base.{
  Bytes, ℕ, suc, ◌+◌, ◌≡◌, refl, sym, ap, ◌∙◌, subst, ◌≢◌, ◌↔◌, ◌⊎◌, inl, inr, Bool, true, false,
  Option, none, some, List, [], ◌∷◌, ◌++◌, Memᴰ, arith, nat_beq, if◌then◌else◌, Bool-cases,
  Option-cases, ◌==◌, ==_iff, ==_refl, eq_of_==, ne_of_==_false, nat_eq, bytes_eq, pair_eq, length,
  length-append,
}
use mathlib.Core.List.Memᴰ
use mathlib.Core.Logic.{⊎_elim}
use arxdb.Base.Tests.{bytes_beq}
use mathlib.Core.List.{append_assoc}
use arxdb.Base.Result.{ok}
use arxdb.Storage.Hashing.{Blake3, Hash, hash_bytes}
use arxdb.Storage.Hashing.Hex.{AreBytes}
use arxdb.Storage.Serialization.{Cbor}
use arxdb.Storage.Keys.{Ed25519}
use arxdb.Storage.ObjectStore.{ObjectStore, read, IsAddressed, read_integrity}
use arxdb.Storage.AppendLog
use arxdb.Storage.AppendLog.{LogEntry, AppendLog, append, verify_entry, find_row, genesis_prev_hash}
use arxdb.Storage.AppendLog.Chain.{Chained, IsChain, find_row-at, new_row, append-IsChain}
use arxdb.Storage.Facade.{Storage}
use arxdb.Storage.Facade.Commit.{IsSound}
use arxdb.Verification.Schema.{Edge}
use arxdb.Verification.Schema.EdgeCodec.{edge_hash}
use arxdb.Attestation.Roster.{Roster, roster_bytes, roster_hash, identify}
use arxdb.Attestation.Attest.{
  AttestationResult, search, find_log_entry, check_proof, check_signature, verify_edge_attestation,
  commit_to, commit_roster,
}

module _ ⦃b : Blake3⦄ ⦃c : Cbor⦄ ⦃k : Ed25519⦄ where
  -- The first row with a hash.
  unfoldable first_row : List LogEntry → Hash → Option LogEntry
  first_row [] h = none
  first_row (r ∷ rows) h = let rest = first_row rows h in if r.entry_hash == h then some r else rest

  search-IsChain :
      (log : AppendLog) (h : Hash) (xs ys : List LogEntry)
      → IsChain log
      → log.rows ≡ xs ++ ys
      → search log h (length ys) (length xs) ≡ ok (first_row ys h)
  unfolding first_row AppendLog.get search bytes_beq
  search-IsChain log h xs [] ch e = refl
  search-IsChain log h xs (y ∷ ys) ch e =
      let at : find_row (xs ++ y ∷ ys) (0 + length xs) ≡ some y =
        find_row-at 0 genesis_prev_hash xs y ys (subst (Chained 0 genesis_prev_hash) e ch) in
      let here : find_row log.rows (length xs) ≡ some y =
        subst (λ rs. find_row rs (length xs) ≡ some y) (sym e)
          (subst (λ i. find_row (xs ++ y ∷ ys) i ≡ some y) (omega arith) at) in
      let n : length (xs ++ y ∷ []) ≡ suc (length xs) = omega (arith, length-append xs (y ∷ [])) in
      let rest =
        subst (λ i. search log h (length ys) i ≡ ok (first_row ys h)) n
          (search-IsChain log h (xs ++ y ∷ []) ys ch (e ∙ sym (append_assoc xs (y ∷ []) ys))) in
      elim (Bool-cases (y.entry_hash == h)) [
        | inl t ↦ rw (here, t, search) refl
        | inr f ↦ rw (here, f, search) rest
      ]

  first_row_cases :
      (rows : List LogEntry) (h : Hash)
      → ((first_row rows h ≡ none) × ((r : LogEntry) → Memᴰ r rows → r.entry_hash ≢ h))
        ⊎ ((r : LogEntry) × (first_row rows h ≡ some r) × Memᴰ r rows × (r.entry_hash ≡ h))
  unfolding first_row
  first_row_cases [] h = inl (refl, λ r m. absurd (Memᴰ.not-nil m))
  first_row_cases (q ∷ rows) h =
      let rest = first_row_cases rows h in
      elim (Bool-cases (q.entry_hash == h)) [
        | inl t ↦ inr (q, rw t refl, Memᴰ.head refl, eq_of_== q.entry_hash h t)
        | inr f ↦ elim rest [
          | inl (z, other) ↦ inl (
            rw f z,
            λ r m. elim (Memᴰ.cases_cons m) [
              | inl e ↦
                  subst (λ (x : LogEntry). x.entry_hash ≢ h) (sym e)
                    (ne_of_==_false q.entry_hash h f)
              | inr there ↦ other r there
            ],
          )
          | inr (r, z, m, e) ↦ inr (r, rw f z, Memᴰ.tail m, e)
        ]
      ]

  Chained-verify_entry :
      (n : ℕ) (prev : Hash) (rows : List LogEntry) (r : LogEntry)
      → Chained n prev rows
      → Memᴰ r rows
      → verify_entry r ≡ ok true
  Chained-verify_entry n prev [] r ch m = absurd (Memᴰ.not-nil m)
  Chained-verify_entry n prev (q ∷ rows) r ch m =
      let rest = Chained-verify_entry (suc n) q.entry_hash rows r ch.3 in
      elim (Memᴰ.cases_cons m) [
        | inl e ↦ subst (λ x. verify_entry x ≡ ok true) (sym e) ch.2
        | inr there ↦ rest there
      ]

  -- No proof is named, or the store has a blob for the one that is.
  abbrev pub IsBound : ObjectStore → Option Hash → Type 0
  IsBound s o = (o ≡ none) ⊎ ((h : Hash) × (blob : Bytes) × (o ≡ some h) × (read s h ≡ some blob))

  check_proof-IsBound :
      (s : ObjectStore) (o : Option Hash) → ((check_proof s o).0 ≡ true) ↔ IsBound s o
  unfolding check_proof
  check_proof-IsBound s none = (λ _. inl refl, λ _. refl)
  check_proof-IsBound s (some h) = elim (Option-cases (read s h)) [
    | inl z ↦
        rw (z, check_proof)
          (
            λ q. absurd (cc q),
            ⊎_elim (λ q. absurd (cc q))
                (λ (g, blob, q, r).
                  let same : h ≡ g = cc q in absurd (cc (z, r, ap (read s) same))),
          )
    | inr (blob, z) ↦ rw (z, check_proof) (λ _. inr (h, blob, refl, z), λ _. refl)
  ]

  check_proof_intact :
      (s : ObjectStore) (o : Option Hash)
      → IsAddressed s
      → ((h : Hash) → o ≡ some h → AreBytes h)
      → (check_proof s o).0 ≡ (check_proof s o).1
  unfolding check_proof
  check_proof_intact s none inv bytes = refl
  check_proof_intact s (some h) inv bytes = elim (Option-cases (read s h)) [
    | inl z ↦ rw (z, check_proof) refl
    | inr (blob, z) ↦
        let same = read_integrity s h blob inv (bytes h refl) z in
        rw (z, check_proof) (sym ((==_iff (hash_bytes blob) h).1 same))
  ]

  abbrev pub IsLogged : Storage → Hash → Type 0
  IsLogged s h = (r : LogEntry) × Memᴰ r s.log.rows × (r.entry_hash ≡ h)

  -- Over a sound storage `verify_edge_attestation` returns; the agent is the one that the roster
  -- names for the key of the edge, the signature is valid exactly if the log has an entry with the
  -- hash of the edge, and a proof is bound, and it is intact, exactly if the edge names none or the
  -- store has a blob for the one it names.
  pub verify_edge_attestation_correct :
      (edge : Edge) (s : Storage) (roster : Roster)
      → IsSound s
      → ((h : Hash) → edge.proof_hash ≡ some h → AreBytes h)
      → (r : AttestationResult) × (verify_edge_attestation edge s roster ≡ ok r)
        × (r.signer_agent_id ≡ identify roster edge.signer_pubkey)
        × ((r.signature_valid ≡ true) ↔ IsLogged s (edge_hash edge))
        × ((r.proof_bound ≡ true) ↔ IsBound s.objects edge.proof_hash)
        × ((r.proof_intact ≡ true) ↔ IsBound s.objects edge.proof_hash)
  unfolding verify_edge_attestation find_log_entry AppendLog.size check_signature
  verify_edge_attestation_correct edge s roster sound bytes =
      let h = edge_hash edge in
      let seek = search-IsChain s.log h [] s.log.rows sound.chain refl in
      let bound = check_proof-IsBound s.objects edge.proof_hash in
      let intact = check_proof_intact s.objects edge.proof_hash sound.addressed bytes in
      let result : Bool → AttestationResult = λ valid. record {
        signer_agent_id = identify roster edge.signer_pubkey;
        signature_valid = valid;
        proof_bound = (check_proof s.objects edge.proof_hash).0;
        proof_intact = (check_proof s.objects edge.proof_hash).1;
      } in
      elim (first_row_cases s.log.rows h) [
        | inl (z, other) ↦ (
          result false,
          rw (seek, z) refl,
          refl,
          (λ q. absurd (cc q), λ (r, m, e). absurd (other r m e)),
          bound,
          (λ q. bound.0 (intact ∙ q), λ q. sym intact ∙ bound.1 q),
        )
        | inr (r, z, m, e) ↦ (
          result true,
          rw (seek, z, Chained-verify_entry 0 genesis_prev_hash s.log.rows r sound.chain m) refl,
          refl,
          (λ q. (r, m, e), λ _. refl),
          bound,
          (λ q. bound.0 (intact ∙ q), λ q. sym intact ∙ bound.1 q),
        )
      ]

  -- Over a sound storage with an empty log `commit_roster` appends the roster as the one entry, and
  -- from then on returns that entry and changes nothing.
  pub commit_roster_again :
      (s : Storage) (now : ℕ) (roster : Roster)
      → IsSound s
      → s.log.rows ≡ []
      → (entry : LogEntry) × (s' : Storage) × (commit_roster s now roster ≡ ok (some entry, s'))
        × (entry.payload ≡ roster_bytes roster)
        × (s'.log.rows ≡ entry ∷ [])
        × ((later : ℕ) → commit_roster s' later roster ≡ ok (some entry, s'))
  commit_roster_again s now roster sound empty =
      let (sig, done, _, chain) =
        append-IsChain s.log now (roster_bytes roster) sound.chain sound.keys in
      let entry : LogEntry = new_row s.log now (roster_bytes roster) sig in
      let s' : Storage = record s { log = record s.log { rows = s.log.rows ++ entry ∷ [] } } in
      let one : s'.log.rows ≡ entry ∷ [] = ap (λ rs. rs ++ entry ∷ []) empty in
      let is_empty : nat_beq (length s.log.rows) 0 ≡ true =
        ap (λ rs. nat_beq (length rs) 0) empty in
      let is_longer : nat_beq (length s'.log.rows) 0 ≡ false =
        ap (λ rs. nat_beq (length rs) 0) one in
      let first : find_row s'.log.rows 0 ≡ some entry =
        subst (λ rs. find_row rs 0 ≡ some entry) (sym one)
          (find_row-at 0 genesis_prev_hash [] entry []
            (subst (Chained 0 genesis_prev_hash) one chain)) in
      (
        entry,
        s',
        unfold commit_roster commit_to AppendLog.size in rw (is_empty, done) refl,
        refl,
        one,
        λ later.
            unfold commit_roster commit_to AppendLog.size AppendLog.get roster_hash in
            rw (is_longer, first, ==_refl (hash_bytes (roster_bytes roster))) refl,
      )
