-- ===== src/Query/Reachability/Spec.antt =====
-- What the fixpoint computes, said without it: proof trees over the derivation edges.
use arxdb.Base.{ℕ, suc, ◌≤◌, ◌≡◌, List, [], Memᴰ, nat_eq, bytes_eq, pair_eq}
use arxdb.Storage.Hashing.{Hash}
use arxdb.Verification.Schema.{Edge, Kappa}
use arxdb.Verification.Kappa.{rank}
use arxdb.Query.Reachability.{Item}

-- A proof tree of a node from the assumptions `extra`, all of whose edges have at least strength `k`.
pub data Proved (es : List Item) (extra : List Hash) (k : Kappa) : Hash → Type 0 where
  assumed : {n : Hash} → Memᴰ n extra → Proved es extra k n
  derived :
      {n : Hash} (h : Hash) (e : Edge)
      → Memᴰ (h, e) es
      → rank k ≤ rank e.kappa
      → n ≡ e.conclusion
      → ((p : Hash) → Memᴰ p e.premises → Proved es extra k p)
      → Proved es extra k n

-- A proof tree of depth at most `d`; an edge without premises is a leaf.
pub data Shallow (es : List Item) (extra : List Hash) : ℕ → Hash → Type 0 where
  assumed : {d : ℕ} {n : Hash} → Memᴰ n extra → Shallow es extra d n
  given :
      {d : ℕ} {n : Hash} (h : Hash) (e : Edge)
      → Memᴰ (h, e) es
      → e.premises ≡ []
      → n ≡ e.conclusion
      → Shallow es extra d n
  derived :
      {d : ℕ} {n : Hash} (h : Hash) (e : Edge)
      → Memᴰ (h, e) es
      → n ≡ e.conclusion
      → ((p : Hash) → Memᴰ p e.premises → Shallow es extra d p)
      → Shallow es extra (suc d) n
