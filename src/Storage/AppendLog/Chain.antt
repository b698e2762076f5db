-- ===== src/Storage/AppendLog/Chain.antt =====
-- The invariant of the log: a signed chain that every append extends.
use arxdb.Base.{
  ℕ, suc, ◌+◌, ◌<◌, ◌≤◌, ◌≡◌, refl, sym, ap, ◌∙◌, subst, ◌⊎◌, inl, inr, true, false, none, some,
  List, [], ◌∷◌, ◌++◌, map, arith, nat_beq, ==_refl, nat_eq, Bytes, bytes_eq, pair_eq, length,
  length-append, leb-true_of_le,
}
use arxdb.Base.Result.{ok}
use arxdb.Storage.Hashing.{Blake3, Hash, hash_bytes}
use arxdb.Storage.Serialization.{Cbor}
use arxdb.Storage.Keys.{verify-sign_lem, Ed25519, sign, verify, private_key_size}
use arxdb.Storage.AppendLog.{
  LogEntry, AppendLog, genesis_prev_hash, find_row, size, insert_row, sort_rows, entry_hashes,
  prev_hash, signature_message, entry_message, append, verify_entry,
}

module _ ⦃b : Blake3⦄ ⦃c : Cbor⦄ ⦃k : Ed25519⦄ where
  -- Rows numbered from `n`, each verified and linked to the one before it, the first to `prev`.
  abbrev pub Chained : ℕ → Hash → List LogEntry → Type 0
  Chained n prev [] = Unit
  Chained n prev (r ∷ rows) =
      (r.seq ≡ n)
      × (r.prev_log_hash ≡ prev)
      × (verify_entry r ≡ ok true)
      × Chained (suc n) r.entry_hash rows

  pub find_row-Chained :
      (n : ℕ) (prev : Hash) (rows : List LogEntry) (i : ℕ)
      → Chained n prev rows
      → i < n
      → find_row rows i ≡ none
  unfolding find_row
  find_row-Chained n prev [] i ch h = refl
  find_row-Chained n prev (r ∷ rows) i ch h =
      let rest = find_row-Chained (suc n) r.entry_hash rows i ch.3 (omega arith) in
      ground (arith, ch.0)

  -- The hash of the last row, or `prev`.
  abbrev pub last_hash : Hash → List LogEntry → Hash
  last_hash prev [] = prev
  last_hash prev (r ∷ rows) = last_hash r.entry_hash rows

  pub find_row-at :
      (n : ℕ) (prev : Hash) (xs : List LogEntry) (r : LogEntry) (ys : List LogEntry)
      → Chained n prev (xs ++ r ∷ ys)
      → find_row (xs ++ r ∷ ys) (n + length xs) ≡ some r
  unfolding find_row
  find_row-at n prev [] r ys ch = ground (arith, ch.0)
  find_row-at n prev (x ∷ xs) r ys ch =
      let rest = find_row-at (suc n) x.entry_hash xs r ys ch.3 in
      let shift : suc n + length xs ≡ n + suc (length xs) = omega arith in
      let rest' = subst (λ i. find_row (xs ++ r ∷ ys) i ≡ some r) shift rest in
      let apart : nat_beq x.seq (n + suc (length xs)) ≡ false = ground (arith, ch.0) in
      rw apart rest'

  find_row-end :
      (n : ℕ) (prev : Hash) (rows : List LogEntry) (i : ℕ)
      → Chained n prev rows
      → n + length rows ≤ i
      → find_row rows i ≡ none
  unfolding find_row
  find_row-end n prev [] i ch h = refl
  find_row-end n prev (r ∷ rows) i ch h =
      let rest = find_row-end (suc n) r.entry_hash rows i ch.3 (omega arith) in ground (arith, ch.0)

  pub Chained-snoc :
      (n : ℕ) (prev : Hash) (rows : List LogEntry) (r : LogEntry)
      → Chained n prev rows
      → r.seq ≡ n + length rows
      → r.prev_log_hash ≡ last_hash prev rows
      → verify_entry r ≡ ok true
      → Chained n prev (rows ++ r ∷ [])
  Chained-snoc n prev [] r ch s p v = (omega arith, p, v, tt)
  Chained-snoc n prev (x ∷ rows) r ch s p v =
      (ch.0, ch.1, ch.2, Chained-snoc (suc n) x.entry_hash rows r ch.3 (omega arith) p v)

  sort_rows-Chained :
      (n : ℕ) (prev : Hash) (rows : List LogEntry) → Chained n prev rows → sort_rows rows ≡ rows
  unfolding sort_rows
  sort_rows-Chained n prev [] ch = refl
  sort_rows-Chained n prev (r ∷ rows) ch =
      ap (insert_row r) (sort_rows-Chained (suc n) r.entry_hash rows ch.3) ∙ first rows ch.3
    where
      first : (qs : List LogEntry) → Chained (suc n) r.entry_hash qs → insert_row r qs ≡ r ∷ qs
      first [] c' = unfold insert_row in refl
      first (q ∷ qs) c' =
          let le = leb-true_of_le r.seq q.seq (omega (arith, ch.0, c'.0)) in
          unfold insert_row in rw le

  snoc_view :
      (xs : List LogEntry)
      → (xs ≡ []) ⊎ ((ys : List LogEntry) × (y : LogEntry) × (xs ≡ ys ++ y ∷ []))
  snoc_view [] = inl refl
  snoc_view (x ∷ xs) = elim (snoc_view xs) [
    | inl e ↦ inr ([], x, ap (◌∷◌ x) e)
    | inr (ys, y, e) ↦ inr (x ∷ ys, y, ap (◌∷◌ x) e)
  ]

  pub last_hash-snoc :
      (prev : Hash) (ys : List LogEntry) (y : LogEntry)
      → last_hash prev (ys ++ y ∷ []) ≡ y.entry_hash
  last_hash-snoc prev [] y = refl
  last_hash-snoc prev (x ∷ ys) y = last_hash-snoc x.entry_hash ys y

  -- The log is a chain from the genesis sentinel.
  abbrev pub IsChain : AppendLog → Type 0
  IsChain log = Chained 0 genesis_prev_hash log.rows

  prev_hash-IsChain :
      (log : AppendLog)
      → IsChain log
      → prev_hash log (length log.rows) ≡ ok (last_hash genesis_prev_hash log.rows)
  prev_hash-IsChain log ch = go log.rows refl
    where
      go :
          (rows : List LogEntry)
          → log.rows ≡ rows
          → prev_hash log (length rows) ≡ ok (last_hash genesis_prev_hash rows)
      go rows e = elim (snoc_view rows) [
        | inl z ↦ rw z (unfold prev_hash in refl)
        | inr (ys, y, q) ↦
            let n : length (ys ++ y ∷ []) ≡ suc (length ys) =
              omega (arith, length-append ys (y ∷ [])) in
            let at : find_row log.rows (length ys) ≡ some y =
              subst (λ rs. find_row rs (length ys) ≡ some y) (sym (e ∙ q))
                (subst (λ i. find_row (ys ++ y ∷ []) i ≡ some y) (omega arith)
                  (find_row-at 0 genesis_prev_hash ys y []
                    (subst (Chained 0 genesis_prev_hash) (e ∙ q) ch))) in
            rw (q, n, last_hash-snoc genesis_prev_hash ys y)
              (unfold prev_hash in rw (at, prev_hash))
      ]

  -- The keys of the log are a pair.
  abbrev pub HasKeys : AppendLog → Type 0
  HasKeys log = (length log.priv_key ≡ private_key_size) × (log.pub_key ≡ k.public_key log.priv_key)

  -- The row that `append` writes, given its signature.
  abbrev pub new_row : AppendLog → ℕ → Bytes → Bytes → LogEntry
  new_row log now entry sig = record {
    seq = length log.rows;
    timestamp_ns = now;
    signer_pubkey = log.pub_key;
    entry_hash = hash_bytes entry;
    prev_log_hash = last_hash genesis_prev_hash log.rows;
    signature = sig;
    payload = entry;
  }

  abbrev pub new_message : AppendLog → ℕ → Bytes → Bytes
  new_message log now entry =
      signature_message (length log.rows) now log.pub_key (hash_bytes entry)
        (last_hash genesis_prev_hash log.rows)

  append-eq-ok :
      (log : AppendLog) (now : ℕ) (entry sig : Bytes)
      → IsChain log
      → sign log.priv_key (new_message log now entry) ≡ ok sig
      → append log now entry
        ≡ ok (
          new_row log now entry sig,
          record log { rows = log.rows ++ new_row log now entry sig ∷ [] },
        )
  unfolding append
  append-eq-ok log now entry sig ch signed =
      let free = find_row-end 0 genesis_prev_hash log.rows (length log.rows) ch (omega arith) in
      rw (prev_hash-IsChain log ch, signed, free)

  verify_entry-new :
      (log : AppendLog) (now : ℕ) (entry sig : Bytes)
      → verify log.pub_key (new_message log now entry) sig ≡ ok true
      → verify_entry (new_row log now entry sig) ≡ ok true
  unfolding verify_entry entry_message
  verify_entry-new log now entry sig h = rw (==_refl (hash_bytes entry)) h

  -- Appending to a chain with a key pair succeeds: one new row goes to the end, with the payload and
  -- its hash, the next number, a signature that verifies, and the hash of the row before; the rows
  -- before it are as they were and the log is a chain again.
  pub append-IsChain :
      (log : AppendLog) (now : ℕ) (entry : Bytes)
      → IsChain log
      → HasKeys log
      → (sig : Bytes) × (append log now entry
          ≡ ok (
            new_row log now entry sig,
            record log { rows = log.rows ++ new_row log now entry sig ∷ [] },
          ))
        × (verify_entry (new_row log now entry sig) ≡ ok true)
        × IsChain (record log { rows = log.rows ++ new_row log now entry sig ∷ [] })
  append-IsChain log now entry ch (size, pair) =
      let (sig, signed, valid) = verify-sign_lem log.priv_key (new_message log now entry) size in
      let good =
        verify_entry-new log now entry sig
          (subst (λ p. verify p (new_message log now entry) sig ≡ ok true) (sym pair) valid) in
      (
        sig,
        append-eq-ok log now entry sig ch signed,
        good,
        Chained-snoc 0 genesis_prev_hash log.rows (new_row log now entry sig) ch (omega arith) refl
            good,
      )

  -- In a chain the hashes under the Merkle tree are those of the rows in their order.
  pub entry_hashes-IsChain :
      (log : AppendLog)
      → IsChain log
      → entry_hashes log ≡ map (λ (r : LogEntry). r.entry_hash) log.rows
  unfolding entry_hashes
  entry_hashes-IsChain log ch =
      ap (map (λ (r : LogEntry). r.entry_hash)) (sort_rows-Chained 0 genesis_prev_hash log.rows ch)
