-- ===== src/Attestation/History/Evidence.antt =====
-- What `verify_history` accepts.
use arxdb.Base.{
  ℕ, zero, suc, ◌≡◌, refl, sym, ap, ◌∙◌, subst, ◌↔◌, inl, inr, Bool, true, false, some, List, [],
  ◌∷◌, ◌++◌, map, arith, if◌then◌else◌, Option-cases, ◌==◌, ==_iff, eq_of_==, nat_eq, bytes_eq,
  pair_eq, length, length-append,
}
use mathlib.Core.List.{append-nil, append_assoc}
use arxdb.Base.Result.{Result, ok, err, ◌>>=◌}
use arxdb.Storage.Hashing.{Blake3, Hash}
use arxdb.Storage.Merkle
use arxdb.Storage.Serialization.{Cbor}
use arxdb.Storage.Keys.{Ed25519}
use arxdb.Storage.AppendLog
use arxdb.Storage.AppendLog.{
  LogEntry, AppendLog, genesis_prev_hash, find_row, verify_entry, entry_message,
}
use arxdb.Storage.AppendLog.Chain.{Chained, IsChain, find_row-at, entry_hashes-IsChain}
use arxdb.Attestation.History.{walk, check_entry, go_on, verify_history}

module _ ⦃b : Blake3⦄ ⦃c : Cbor⦄ ⦃k : Ed25519⦄ where
  -- The entries that `get` returns for the numbers from `seq` on.
  abbrev pub Reads : AppendLog → ℕ → List LogEntry → Type 0
  Reads log seq [] = Unit
  Reads log seq (e ∷ es) = (AppendLog.get log seq ≡ some e) × Reads log (suc seq) es

  abbrev pub hashes_of : List LogEntry → List Hash
  hashes_of es = map (λ (e : LogEntry). e.entry_hash) es

  seq-find_row :
      (rows : List LogEntry) (seq : ℕ) (e : LogEntry) → find_row rows seq ≡ some e → e.seq ≡ seq
  unfolding find_row
  seq-find_row [] seq e h = cc
  seq-find_row (r ∷ rows) seq e h = ground (arith, seq-find_row rows seq e)

  go_on-true : (r rest : Result Bool) → go_on r rest ≡ ok true → (r ≡ ok true) × (rest ≡ ok true)
  unfolding go_on
  go_on-true (ok true) rest h = (refl, h)
  go_on-true (ok false) rest h = cc
  go_on-true (err e) rest h = cc

  check_entry-true :
      (e : LogEntry) (prev : Hash)
      → (check_entry e prev ≡ ok true) ↔ ((e.prev_log_hash ≡ prev) × (verify_entry e ≡ ok true))
  unfolding check_entry
  check_entry-true e prev = (
    λ h. go (verify_entry e) refl h,
    λ p. rw (p.1, check_entry) (ap ok ((==_iff e.prev_log_hash prev).1 p.0)),
  )
    where
      go :
          (r : Result Bool)
          → verify_entry e ≡ r
          → (r >>= λ good. ok (if good then e.prev_log_hash == prev else false)) ≡ ok true
          → (e.prev_log_hash ≡ prev) × (verify_entry e ≡ ok true)
      go (ok true) q h = (eq_of_== e.prev_log_hash prev (cc), q)
      go (ok false) q h = cc
      go (err x) q h = cc

  pub hashes-append : (es fs : List LogEntry) → hashes_of (es ++ fs) ≡ hashes_of es ++ hashes_of fs
  hashes-append [] fs = refl
  hashes-append (e ∷ es) fs = ap (◌∷◌ e.entry_hash) (hashes-append es fs)

  pub length-map_hash : (es : List LogEntry) → length (hashes_of es) ≡ length es
  length-map_hash [] = refl
  length-map_hash (e ∷ es) = ap suc (length-map_hash es)

  -- What the loop accepts, from any point on.
  walk_sound :
      (log : AppendLog) (root : Hash) (left seq : ℕ) (prev : Hash) (hashes : List Hash)
      → walk log root left seq prev hashes ≡ ok true
      → (es : List LogEntry) × (length es ≡ left)
        × Reads log seq es
        × Chained seq prev es
        × (Merkle.root_hash (hashes ++ hashes_of es) ≡ root)
  unfolding walk
  walk_sound log root zero seq prev hashes h =
      ([], refl, tt, tt, rw append-nil (eq_of_== (Merkle.root_hash hashes) root (cc)))
  walk_sound log root (suc left) seq prev hashes h = elim (Option-cases (AppendLog.get log seq)) [
    | inl n ↦ cc (rw (n, walk) at h)
    | inr (e, g) ↦
        let (now, later) =
          go_on-true (check_entry e prev)
            (walk log root left (suc seq) e.entry_hash (hashes ++ e.entry_hash ∷ []))
            (rw (g, walk) at h) in
        let (linked, valid) = (check_entry-true e prev).0 now in
        let (es, n, reads, ch, q) =
          walk_sound log root left (suc seq) e.entry_hash (hashes ++ e.entry_hash ∷ []) later in
        (
          e ∷ es,
          ap suc n,
          (g, reads),
          (unfold AppendLog.get in seq-find_row log.rows seq e g, linked, valid, ch),
          ap Merkle.root_hash (sym (append_assoc hashes (e.entry_hash ∷ []) (hashes_of es))) ∙ q,
        )
  ]

  walk_complete :
      (log : AppendLog) (root : Hash) (es : List LogEntry) (seq : ℕ) (prev : Hash)
      (hashes : List Hash)
      → Reads log seq es
      → Chained seq prev es
      → Merkle.root_hash (hashes ++ hashes_of es) ≡ root
      → walk log root (length es) seq prev hashes ≡ ok true
  unfolding walk
  walk_complete log root [] seq prev hashes reads ch h =
      ap ok ((==_iff _ _).1 (ap Merkle.root_hash (sym (append-nil hashes)) ∙ h))
  walk_complete log root (e ∷ es) seq prev hashes reads ch h =
      let moved = append_assoc hashes (e.entry_hash ∷ []) (hashes_of es) in
      let rest =
        walk_complete log root es (suc seq) e.entry_hash (hashes ++ e.entry_hash ∷ []) reads.1 ch.3
          (ap Merkle.root_hash moved ∙ h) in
      rw (reads.0, walk) (rw ((check_entry-true e prev).1 (ch.1, ch.2), go_on) rest)

  -- `verify_history` returns True exactly if `get` finds an entry for each number below the length
  -- of the log, these entries are numbered in order, each verifies and links to the hash of the one
  -- before, the first to the genesis sentinel, and the Merkle root of their hashes is the trusted
  -- root.
  pub verify_history_iff :
      (log : AppendLog) (root : Hash)
      → (verify_history log root ≡ ok true) ↔ (
          (es : List LogEntry) × (length es ≡ AppendLog.size log)
          × Reads log 0 es
          × Chained 0 genesis_prev_hash es
          × (Merkle.root_hash (hashes_of es) ≡ root))
  unfolding verify_history
  verify_history_iff log root = (
    walk_sound log root (AppendLog.size log) 0 genesis_prev_hash [],
    λ (es, n, reads, ch, q).
        subst (λ m. walk log root m 0 genesis_prev_hash [] ≡ ok true) n
          (walk_complete log root es 0 genesis_prev_hash [] reads ch q),
  )

  Reads-IsChain :
      (log : AppendLog) (xs ys : List LogEntry)
      → IsChain log
      → log.rows ≡ xs ++ ys
      → Reads log (length xs) ys
  Reads-IsChain log xs [] ch e = tt
  Reads-IsChain log xs (y ∷ ys) ch e =
      let at = find_row-at 0 genesis_prev_hash xs y ys (subst (Chained 0 genesis_prev_hash) e ch) in
      let n : length (xs ++ y ∷ []) ≡ suc (length xs) = omega (arith, length-append xs (y ∷ [])) in
      let rest = Reads-IsChain log (xs ++ y ∷ []) ys ch (e ∙ sym (append_assoc xs (y ∷ []) ys)) in
      (
        unfold AppendLog.get in
            subst (λ rs. find_row rs (length xs) ≡ some y) (sym e)
              (subst (λ i. find_row (xs ++ y ∷ ys) i ≡ some y) (omega arith) at),
        subst (λ i. Reads log i ys) n rest,
      )

  -- A log that is a chain is accepted with its own root.
  pub verify_history_own_root :
      (log : AppendLog) → IsChain log → verify_history log (AppendLog.root_hash log) ≡ ok true
  unfolding AppendLog.size AppendLog.root_hash
  verify_history_own_root log ch = (verify_history_iff log (AppendLog.root_hash log)).1 (
    log.rows,
    unfold AppendLog.size in refl,
    Reads-IsChain log [] log.rows ch refl,
    ch,
    unfold AppendLog.root_hash in ap Merkle.root_hash (sym (entry_hashes-IsChain log ch)),
  )
