-- ===== src/Query/Resolve.antt =====
-- src/arxdb/query/resolve.py: from a hash to the record that is stored under it.
use arxdb.Base.{Option, none, some, nat_eq, bytes_eq, pair_eq}
use arxdb.Base.Result.{Result, ok, err}
use arxdb.Storage.Hashing.{Hash}
use arxdb.Storage.Serialization.{Cbor}
use arxdb.Storage.ObjectStore.{read}
use arxdb.Storage.Facade.{Storage}
use arxdb.Verification.Schema.{Node, Edge}
use arxdb.Verification.Schema.NodeCodec
use arxdb.Verification.Schema.EdgeCodec

-- `try: return x` and `except Exception: return None`
abbrev pub succeeded {ℓ} : {A : Type ℓ} → Result A → Option A
succeeded (ok a) = some a
succeeded (err e) = none

module _ ⦃c : Cbor⦄ where
  unfoldable pub resolve_node : Hash → Storage → Option Node
  unfolding read NodeCodec.from_bytes
  resolve_node h s = elim (read s.objects h) [
    | none ↦ none
    | some raw ↦ succeeded (NodeCodec.from_bytes raw)
  ]

  unfoldable pub resolve_edge : Hash → Storage → Option Edge
  unfolding read EdgeCodec.from_bytes
  resolve_edge h s = elim (read s.objects h) [
    | none ↦ none
    | some raw ↦ succeeded (EdgeCodec.from_bytes raw)
  ]
