-- ===== src/Examples/Commit.antt =====
-- The theorems on `commit_edge_tx` at an empty storage, with a key pair and with a short key.
use arxdb.Base.{◌≡◌, refl, true, none, some, [], ◌∷◌, nat_eq, Bytes, bytes_eq, pair_eq}
use arxdb.Base.Result.{ok, value_error}
use arxdb.Base.Dict.{get}
use mathlib.Core.List.Memᴰ
use arxdb.Storage.Hashing.{hash_bytes}
use arxdb.Storage.Keys.{sign}
use arxdb.Examples.Packages.{toy_blake3, digits, toy_cbor, toy_ed25519, toy_public}
use arxdb.Storage.ObjectStore.{empty_store, put, IsAddressed}
use arxdb.Storage.GraphIndex.{empty_index, get_connectivity}
use arxdb.Storage.AppendLog.{LogEntry, append, verify_entry}
use arxdb.Storage.Facade.{Storage, put_proof, finish, commit_edge_tx}
use arxdb.Storage.Facade.Commit.{IsSound, commit_edge_tx_new, commit_edge_tx_rollback}

abbrev pub with_key : Bytes → Storage
with_key priv = record {
  objects = empty_store;
  graph = empty_index;
  log = record { priv_key = priv; pub_key = toy_public priv; rows = [] };
}

abbrev pub key : Bytes
key = digits 32 5

pub with_key-IsSound : IsSound (with_key key)
unfolding get digits
with_key-IsSound = record {
  addressed = λ p blob g. cc;
  consistent = λ r m. absurd (Memᴰ.not-nil m);
  chain = tt;
  keys = (refl, refl);
}

commit_edge_tx_new_example :
    (entry : LogEntry) × (s' : Storage) × (commit_edge_tx
        (with_key key)
        77
        ((2 ∷ []) ∷ [])
        (3 ∷ [])
        (9 ∷ 8 ∷ [])
        (some (4 ∷ []))
      ≡ (ok (hash_bytes (9 ∷ 8 ∷ []), entry), s'))
    × (entry.payload ≡ 9 ∷ 8 ∷ [])
    × (verify_entry entry ≡ ok true)
    × (s'.log.rows ≡ entry ∷ [])
    × (get_connectivity s'.graph (hash_bytes (9 ∷ 8 ∷ [])) ≡ some ((2 ∷ []) ∷ [], 3 ∷ []))
    × IsSound s'
unfolding get
commit_edge_tx_new_example =
    commit_edge_tx_new (with_key key) 77 ((2 ∷ []) ∷ []) (3 ∷ []) (9 ∷ 8 ∷ []) (some (4 ∷ []))
      with_key-IsSound refl

abbrev after_rollback : Storage
after_rollback = record (with_key (5 ∷ [])) { objects = (put empty_store (9 ∷ 8 ∷ [])).1 }

commit_edge_tx_rollback_example :
    (after_rollback.graph ≡ empty_index)
    × (after_rollback.log ≡ (with_key (5 ∷ [])).log)
    × (IsAddressed empty_store → IsAddressed after_rollback.objects)
unfolding commit_edge_tx append sign put_proof finish
commit_edge_tx_rollback_example =
    commit_edge_tx_rollback (with_key (5 ∷ [])) after_rollback 77 ((2 ∷ []) ∷ []) (3 ∷ [])
      (9 ∷ 8 ∷ []) none value_error refl
