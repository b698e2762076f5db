-- ===== src/Attestation/History/Tampering.antt =====
-- What a change of the log does to `verify_history`.
use arxdb.Base.{
  ℕ, suc, ◌+◌, ◌<◌, ◌≡◌, refl, sym, ap, ◌∙◌, subst, ◌⊎◌, inl, inr, true, List, [], ◌∷◌, ◌++◌, map,
  Memᴰ, arith, Bool-cases, ◌==◌, eq_of_==, nat_eq, Bytes, bytes_eq, pair_eq, length,
}
use mathlib.Core.List.{append_assoc}
use arxdb.Base.Result.{ok}
use arxdb.Storage.Hashing.{Blake3, Hash, hash_bytes, hash_bytes_binding, Collision, Collision-map}
use arxdb.Storage.Merkle
use arxdb.Storage.Merkle.Levels.{RootMessage}
use arxdb.Storage.Merkle.Binding.{root_hash_binding, root_hash-repeat_last}
use arxdb.Storage.Serialization.{Cbor}
use arxdb.Storage.Keys.{Ed25519}
use arxdb.Storage.AppendLog
use arxdb.Storage.AppendLog.{
  LogEntry, AppendLog, genesis_prev_hash, find_row, verify_entry, entry_message,
}
use arxdb.Storage.AppendLog.Chain.{
  last_hash-snoc, Chained, IsChain, last_hash, Chained-snoc, entry_hashes-IsChain,
}
use arxdb.Attestation.History.{verify_history}
use arxdb.Attestation.History.Evidence.{
  Reads, hashes_of, length-map_hash, hashes-append, verify_history_iff, verify_history_own_root,
}

module _ ⦃b : Blake3⦄ ⦃c : Cbor⦄ ⦃k : Ed25519⦄ where
  abbrev pub payloads_of : List LogEntry → List Bytes
  payloads_of es = map (λ (e : LogEntry). e.payload) es

  payload_hash : (e : LogEntry) → verify_entry e ≡ ok true → hash_bytes e.payload ≡ e.entry_hash
  unfolding verify_entry
  payload_hash e h = elim (Bool-cases (hash_bytes e.payload == e.entry_hash)) [
    | inl t ↦ eq_of_== (hash_bytes e.payload) e.entry_hash t
    | inr f ↦ cc (rw (f, verify_entry) at h)
  ]

  payloads_binding :
      (P Q : Bytes → Type 0) (n : ℕ) (p q : Hash) (es fs : List LogEntry)
      → ((m : Bytes) → Memᴰ m (payloads_of es) → P m)
      → ((m : Bytes) → Memᴰ m (payloads_of fs) → Q m)
      → Chained n p es
      → Chained n q fs
      → hashes_of es ≡ hashes_of fs
      → (payloads_of es ≡ payloads_of fs) ⊎ Collision P Q
  payloads_binding P Q n p q [] [] ke kf ce cf h = inl refl
  payloads_binding P Q n p q [] (f ∷ fs) ke kf ce cf h = cc
  payloads_binding P Q n p q (e ∷ es) [] ke kf ce cf h = cc
  payloads_binding P Q n p q (e ∷ es) (f ∷ fs) ke kf ce cf h =
      let rest =
        payloads_binding P Q (suc n) e.entry_hash f.entry_hash es fs (λ m t. ke m (Memᴰ.tail t))
          (λ m t. kf m (Memᴰ.tail t)) ce.3 cf.3 (cc) in
      let same : e.entry_hash ≡ f.entry_hash = cc in
      elim (hash_bytes_binding {P = P} {Q = Q} e.payload f.payload (ke e.payload (Memᴰ.head refl))
        (kf f.payload (Memᴰ.head refl)) (payload_hash e ce.2 ∙ same ∙ sym (payload_hash f cf.2))) [
          | inl a ↦ elim rest [ inl r ↦ inl (cc (a, r)) | inr x ↦ inr x ]
          | inr x ↦ inr x
        ]

  Reads-unique :
      (log : AppendLog) (seq : ℕ) (es fs : List LogEntry)
      → length es ≡ length fs
      → Reads log seq es
      → Reads log seq fs
      → es ≡ fs
  Reads-unique log seq [] [] n a b = refl
  Reads-unique log seq [] (f ∷ fs) n a b = absurd (omega arith)
  Reads-unique log seq (e ∷ es) [] n a b = absurd (omega arith)
  Reads-unique log seq (e ∷ es) (f ∷ fs) n a b =
      let rest = Reads-unique log (suc seq) es fs (omega arith) a.1 b.1 in
      let first : e ≡ f = cc (a.0, b.0) in cc (first, rest)

  -- A message that is hashed to check a log with these entries: a payload, or one on the way to the
  -- root of their hashes.
  abbrev pub LogMessage : List LogEntry → Bytes → Type 0
  LogMessage es m = Memᴰ m (payloads_of es) ⊎ RootMessage (hashes_of es) m

  -- Tamper evidence: where `verify_history` accepts two logs of one length with one trusted root,
  -- the entries that they hold have the same payloads in the same order, or different messages, one
  -- hashed for each log (a payload, or one on the way to the root), have one hash.
  pub verify_history_binding :
      (log log' : AppendLog) (root : Hash) (es fs : List LogEntry)
      → AppendLog.size log ≡ AppendLog.size log'
      → length es ≡ AppendLog.size log
      → length fs ≡ AppendLog.size log'
      → Reads log 0 es
      → Reads log' 0 fs
      → verify_history log root ≡ ok true
      → verify_history log' root ≡ ok true
      → (payloads_of es ≡ payloads_of fs) ⊎ Collision (LogMessage es) (LogMessage fs)
  verify_history_binding log log' root es fs n ne nf re rf h h' =
      let (xs, na, ra, ca, qa) = (verify_history_iff log root).0 h in
      let (bs, nb, rb, cb, qb) = (verify_history_iff log' root).0 h' in
      let ea = Reads-unique log 0 es xs (omega arith) re ra in
      let eb = Reads-unique log' 0 fs bs (omega arith) rf rb in
      let sizes : length (hashes_of xs) ≡ length (hashes_of bs) =
        length-map_hash xs ∙ na ∙ n ∙ sym nb ∙ sym (length-map_hash bs) in
      elim (root_hash_binding (hashes_of xs) (hashes_of bs) sizes (qa ∙ sym qb)) [
        | inl q ↦
            rw (ea, eb)
              (payloads_binding (LogMessage xs) (LogMessage bs) 0 genesis_prev_hash
                genesis_prev_hash xs bs (λ m t. inl t) (λ m t. inl t) ca cb q)
        | inr x ↦ rw (ea, eb) (inr (Collision-map (λ m t. inr t) (λ m t. inr t) x))
      ]

  -- The length is not covered by the root: to a chain of odd length, three or more, one more entry
  -- can be added that repeats the hash of the last one and is signed with any key, and
  -- `verify_history` accepts the longer log with the root of the shorter one.
  pub verify_history_repeat_last :
      (log : AppendLog) (n : ℕ) (front : List LogEntry) (last extra : LogEntry)
      → IsChain log
      → log.rows ≡ front ++ last ∷ []
      → length front ≡ n + n
      → 0 < n
      → extra.seq ≡ AppendLog.size log
      → extra.prev_log_hash ≡ last.entry_hash
      → extra.entry_hash ≡ last.entry_hash
      → verify_entry extra ≡ ok true
      → verify_history (record log { rows = log.rows ++ extra ∷ [] }) (AppendLog.root_hash log)
        ≡ ok true
  verify_history_repeat_last log n front last extra ch split odd pos seq prev same valid =
      let longer : AppendLog = record log { rows = log.rows ++ extra ∷ [] } in
      let here : extra.seq ≡ length log.rows = unfold AppendLog.size in seq in
      let count : extra.seq ≡ 0 + length log.rows = omega arith in
      let chain : IsChain longer =
        Chained-snoc 0 genesis_prev_hash log.rows extra ch count
          (prev
            ∙ sym (
                ap (last_hash genesis_prev_hash) split
                ∙ last_hash-snoc genesis_prev_hash front last))
          valid in
      let before : hashes_of log.rows ≡ hashes_of front ++ last.entry_hash ∷ [] =
        ap hashes_of split ∙ hashes-append front (last ∷ []) in
      let after : hashes_of longer.rows
          ≡ hashes_of front ++ last.entry_hash ∷ last.entry_hash ∷ [] =
        hashes-append log.rows (extra ∷ [])
        ∙ ap (λ hs. hs ++ extra.entry_hash ∷ []) before
        ∙ append_assoc (hashes_of front) (last.entry_hash ∷ []) (extra.entry_hash ∷ [])
        ∙ ap (λ h. hashes_of front ++ last.entry_hash ∷ h ∷ []) same in
      let roots : AppendLog.root_hash longer ≡ AppendLog.root_hash log =
        unfold AppendLog.root_hash in
        ap Merkle.root_hash (entry_hashes-IsChain longer chain ∙ after)
        ∙ sym (
            root_hash-repeat_last n (hashes_of front) last.entry_hash (length-map_hash front ∙ odd)
              pos)
        ∙ sym (ap Merkle.root_hash (entry_hashes-IsChain log ch ∙ before)) in
      subst (λ r. verify_history longer r ≡ ok true) roots (verify_history_own_root longer chain)
