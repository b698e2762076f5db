-- ===== src/Examples/Log.antt =====
-- The theorems on the log and on `verify_history` at a log of three entries.
use arxdb.Base.{
  ℕ, zero, suc, ◌+◌, ◌≡◌, refl, ◌↔◌, ◌⊎◌, true, List, [], ◌∷◌, ◌++◌, arith, ==_refl, nat_eq, Bytes,
  bytes_eq, pair_eq, length,
}
use arxdb.Base.Result.{ok}
use arxdb.Storage.Hashing.{Hash, hash_bytes, Collision}
use arxdb.Storage.Keys.{verify}
use arxdb.Examples.Packages.{
  toy_verify-sign, toy_sign-length, toy_public-length, toy_blake3, toy_cbor, toy_ed25519, toy_sign,
  toy_public,
}
use arxdb.Storage.AppendLog
use arxdb.Storage.Merkle
use arxdb.Storage.AppendLog.{
  LogEntry, AppendLog, genesis_prev_hash, verify_entry, append, signature_message,
}
use arxdb.Storage.AppendLog.Chain.{Chained, IsChain, new_row, append-IsChain}
use arxdb.Attestation.History.{verify_history}
use arxdb.Attestation.History.Evidence.{
  Reads, hashes_of, verify_history_iff, verify_history_own_root,
}
use arxdb.Attestation.History.Tampering.{
  LogMessage, payloads_of, verify_history_binding, verify_history_repeat_last,
}

unfoldable repeated : ℕ → ℕ → Bytes
repeated zero x = []
repeated (suc n) x = x ∷ repeated n x

abbrev key : Bytes
key = repeated 32 5

-- An entry signed with a key.
abbrev signed : Bytes → ℕ → Bytes → Hash → LogEntry
signed priv n payload prev = record {
  seq = n;
  timestamp_ns = 1000 + n;
  signer_pubkey = toy_public priv;
  entry_hash = hash_bytes payload;
  prev_log_hash = prev;
  signature =
      toy_sign priv (signature_message n (1000 + n) (toy_public priv) (hash_bytes payload) prev);
  payload = payload;
}

signed-verifies :
    (priv payload : Bytes) (n : ℕ) (prev : Hash)
    → length priv ≡ 32
    → verify_entry (signed priv n payload prev) ≡ ok true
unfolding verify_entry verify
signed-verifies priv payload n prev h = rw (
  ==_refl (hash_bytes payload),
  toy_public-length priv,
  toy_sign-length priv (signature_message n (1000 + n) (toy_public priv) (hash_bytes payload) prev),
  toy_verify-sign priv (signature_message n (1000 + n) (toy_public priv) (hash_bytes payload) prev)
      h,
)

abbrev row0 : LogEntry
row0 = signed key 0 (1 ∷ []) genesis_prev_hash

abbrev row1 : LogEntry
row1 = signed key 1 (2 ∷ []) (hash_bytes (1 ∷ []))

abbrev row2 : LogEntry
row2 = signed key 2 (3 ∷ []) (hash_bytes (2 ∷ []))

-- The last payload once more, signed with another key.
abbrev forged : LogEntry
forged = signed (repeated 32 6) 3 (3 ∷ []) (hash_bytes (3 ∷ []))

abbrev three_rows : AppendLog
three_rows = record { priv_key = key; pub_key = toy_public key; rows = row0 ∷ row1 ∷ row2 ∷ [] }

key-length : length key ≡ 32
unfolding repeated
key-length = refl

other_key-length : length (repeated 32 6) ≡ 32
unfolding repeated
other_key-length = refl

three_rows-IsChain : IsChain three_rows
three_rows-IsChain = (
  refl,
  refl,
  signed-verifies key (1 ∷ []) 0 genesis_prev_hash key-length,
  (
    refl,
    refl,
    signed-verifies key (2 ∷ []) 1 (hash_bytes (1 ∷ [])) key-length,
    (refl, refl, signed-verifies key (3 ∷ []) 2 (hash_bytes (2 ∷ [])) key-length, tt),
  ),
)

three_rows-accepted : verify_history three_rows (AppendLog.root_hash three_rows) ≡ ok true
three_rows-accepted = verify_history_own_root three_rows three_rows-IsChain

append-IsChain_example :
    (sig : Bytes) × (append three_rows 77 (9 ∷ [])
      ≡ ok (
        new_row three_rows 77 (9 ∷ []) sig,
        record three_rows { rows = three_rows.rows ++ new_row three_rows 77 (9 ∷ []) sig ∷ [] },
      ))
    × (verify_entry (new_row three_rows 77 (9 ∷ []) sig) ≡ ok true)
    × IsChain
        (record three_rows { rows = three_rows.rows ++ new_row three_rows 77 (9 ∷ []) sig ∷ [] })
append-IsChain_example = append-IsChain three_rows 77 (9 ∷ []) three_rows-IsChain (key-length, refl)

verify_history_iff_example :
    (verify_history three_rows (AppendLog.root_hash three_rows) ≡ ok true) ↔ (
      (es : List LogEntry) × (length es ≡ AppendLog.size three_rows)
      × Reads three_rows 0 es
      × Chained 0 genesis_prev_hash es
      × (Merkle.root_hash (hashes_of es) ≡ AppendLog.root_hash three_rows))
verify_history_iff_example = verify_history_iff three_rows (AppendLog.root_hash three_rows)

verify_history_own_root_example :
    verify_history three_rows (AppendLog.root_hash three_rows) ≡ ok true
verify_history_own_root_example = verify_history_own_root three_rows three_rows-IsChain

three_rows-Reads : Reads three_rows 0 three_rows.rows
unfolding AppendLog.get
three_rows-Reads = (refl, (refl, (refl, tt)))

verify_history_binding_example :
    (payloads_of three_rows.rows ≡ payloads_of three_rows.rows)
    ⊎ Collision (LogMessage three_rows.rows) (LogMessage three_rows.rows)
unfolding AppendLog.size
verify_history_binding_example =
    verify_history_binding three_rows three_rows (AppendLog.root_hash three_rows) three_rows.rows
      three_rows.rows refl refl refl three_rows-Reads three_rows-Reads three_rows-accepted
      three_rows-accepted

verify_history_repeat_last_example :
    verify_history
      (record three_rows { rows = three_rows.rows ++ forged ∷ [] })
      (AppendLog.root_hash three_rows)
    ≡ ok true
unfolding AppendLog.size
verify_history_repeat_last_example =
    verify_history_repeat_last three_rows 1 (row0 ∷ row1 ∷ []) row2 forged three_rows-IsChain refl
      refl (omega arith) refl refl refl
      (signed-verifies (repeated 32 6) (3 ∷ []) 3 (hash_bytes (3 ∷ [])) other_key-length)
