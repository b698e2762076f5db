-- ===== src/Query/Path/Frontier.antt =====
-- The loop of `path_discovery` in src/arxdb/query/path.py lists exactly the gaps below the target.
use arxdb.Base.{
  ℕ, zero, suc, ◌≡◌, refl, sym, subst, ◌↔◌, ◌⊎◌, inl, inr, Bool, true, false, not, some, List, [],
  ◌∷◌, ◌++◌, Memᴰ, arith, Bool-cases, ==_iff, nat_eq, bytes_eq, pair_eq, Memᴰ-cons, Memᴰ-keep,
  contains,
}
use arxdb.Storage.Hashing.{Hash}
use arxdb.Verification.Schema.{Edge}
use arxdb.Query.Reachability.{Item}
use arxdb.Query.Reachability.Reachable.{push}
use arxdb.Query.Path.{explore, MissingEdge, blocking_of, gaps_at, push_blocking}
use mathlib.Core.List.Memᴰ
use mathlib.Core.Logic.{⊎_elim}

Memᴰ-push : (a : Hash) (ps stack : List Hash) → Memᴰ a (push ps stack) ↔ (Memᴰ a ps ⊎ Memᴰ a stack)
unfolding push
Memᴰ-push a [] stack = (inr, ⊎_elim (λ m. absurd (Memᴰ.not-nil m)) (λ m. m))
Memᴰ-push a (p ∷ ps) stack =
    ground (arith, Memᴰ-push a ps (p ∷ stack), Memᴰ-cons a p ps, Memᴰ-cons a p stack)

Memᴰ-append :
    (m : MissingEdge) (xs ys : List MissingEdge) → Memᴰ m (xs ++ ys) ↔ (Memᴰ m xs ⊎ Memᴰ m ys)
Memᴰ-append m [] ys = (inr, ⊎_elim (λ q. absurd (Memᴰ.not-nil q)) (λ q. q))
Memᴰ-append m (x ∷ xs) ys =
    ground (arith, Memᴰ-append m xs ys, Memᴰ-cons m x xs, Memᴰ-cons m x (xs ++ ys))

module _ (established : Hash → Bool) where
  Memᴰ-blocking_of :
      (p : Hash) (e : Edge)
      → Memᴰ p (blocking_of established e) ↔ (Memᴰ p e.premises × (established p ≡ false))
  unfolding blocking_of
  Memᴰ-blocking_of p e = ground (arith, Memᴰ-keep (λ q. not (established q)) p e.premises)

  -- A premise of one of the edges that is not established.
  abbrev pub Blocks : Hash → List Item → Type 0
  Blocks p es =
      (h : Hash) × (e : Edge) × Memᴰ (h, e) es × Memᴰ p e.premises × (established p ≡ false)

  Memᴰ-push_blocking :
      (p : Hash) (es : List Item) (stack : List Hash)
      → Memᴰ p (push_blocking established es stack) ↔ (Blocks p es ⊎ Memᴰ p stack)
  unfolding push_blocking
  Memᴰ-push_blocking p [] stack =
      (inr, ⊎_elim (λ (h, e, m, q, f). absurd (Memᴰ.not-nil m)) (λ m. m))
  Memᴰ-push_blocking p ((h, e) ∷ es) stack =
      let later = Memᴰ-push_blocking p es (push (blocking_of established e) stack) in
      let here = Memᴰ-push p (blocking_of established e) stack in
      let own = Memᴰ-blocking_of p e in
      (
        λ m.
            ⊎_elim (λ (g, d, n, q, f). inl (g, d, Memᴰ.tail n, q, f))
              (λ r.
                ⊎_elim (λ b. let (q, f) = own.0 b in inl (h, e, Memᴰ.head refl, q, f)) inr
                  (here.0 r))
              (later.0 m),
        ⊎_elim
            (λ (g, d, n, q, f).
              ⊎_elim
                (λ same. later.1 (
                  inr (here.1 (inl (own.1 (subst (λ (x : Item). Memᴰ p x.1.premises) same q, f))))))
                (λ r. later.1 (inl (g, d, r, q, f))) (Memᴰ.cases_cons n))
            (λ r. later.1 (inr (here.1 (inr r)))),
      )

  module _ (incoming : Hash → List Item) (target : Hash) where
    -- The nodes that stand in the way of the target: itself, and the premises that are not
    -- established of the edges into one of them.
    pub data Needed : Hash → Type 0 where
      the_target : Needed target
      blocking : {n : Hash} (p : Hash) → Needed n → Blocks p (incoming n) → Needed p

    -- A gap at one of the needed nodes.
    abbrev pub IsListed : MissingEdge → Type 0
    IsListed m = (n : Hash) × Needed n × Memᴰ m (gaps_at established n (incoming n))

    -- What holds at each turn: only needed nodes and their gaps, and everything below a visited
    -- node is visited or on the stack.
    record Invariant (stack : List Hash) (visited : List Hash) (missing : List MissingEdge)
        : Type 0 where
      on_stack : (n : Hash) → Memᴰ n stack → Needed n
      sound : (m : MissingEdge) → Memᴰ m missing → IsListed m
      complete :
          (n : Hash)
          → contains visited n ≡ true
          → (m : MissingEdge) → Memᴰ m (gaps_at established n (incoming n))
          → Memᴰ m missing
      closed :
          (n : Hash)
          → contains visited n ≡ true
          → (p : Hash) → Blocks p (incoming n)
          → (contains visited p ≡ true) ⊎ Memᴰ p stack
      started : (contains visited target ≡ true) ⊎ Memᴰ target stack

    visited-cons :
        (n node : Hash) (visited : List Hash)
        → (contains (node ∷ visited) n ≡ true) ↔ ((n ≡ node) ⊎ (contains visited n ≡ true))
    unfolding contains
    visited-cons n node visited = ground (arith, ==_iff n node)

    popped :
        (node p : Hash) (stack visited : List Hash)
        → contains visited node ≡ true
        → (contains visited p ≡ true) ⊎ Memᴰ p (node ∷ stack)
        → (contains visited p ≡ true) ⊎ Memᴰ p stack
    popped node p stack visited old (inl seen) = inl seen
    popped node p stack visited old (inr m) =
        ⊎_elim (λ e. inl (subst (λ x. contains visited x ≡ true) (sym e) old)) inr
          (Memᴰ.cases_cons m)

    skip-Invariant :
        (node : Hash) (stack visited : List Hash) (missing : List MissingEdge)
        → contains visited node ≡ true
        → Invariant (node ∷ stack) visited missing
        → Invariant stack visited missing
    skip-Invariant node stack visited missing old inv = record {
      on_stack = λ n m. inv.on_stack n (Memᴰ.tail m);
      sound = inv.sound;
      complete = inv.complete;
      closed = λ n h p b. popped node p stack visited old (inv.closed n h p b);
      started = popped node target stack visited old inv.started;
    }

    moved :
        (node p : Hash) (stack visited : List Hash)
        → (contains visited p ≡ true) ⊎ Memᴰ p (node ∷ stack)
        → (contains (node ∷ visited) p ≡ true)
          ⊎ Memᴰ p (push_blocking established (incoming node) stack)
    moved node p stack visited (inl seen) = inl ((visited-cons p node visited).1 (inr seen))
    moved node p stack visited (inr m) =
        ⊎_elim (λ e. inl ((visited-cons p node visited).1 (inl e)))
          (λ r. inr ((Memᴰ-push_blocking p (incoming node) stack).1 (inr r))) (Memᴰ.cases_cons m)

    visit-Invariant :
        (node : Hash) (stack visited : List Hash) (missing : List MissingEdge)
        → Invariant (node ∷ stack) visited missing
        → Invariant
            (push_blocking established (incoming node) stack)
            (node ∷ visited)
            (missing ++ gaps_at established node (incoming node))
    visit-Invariant node stack visited missing inv =
        let needed = inv.on_stack node (Memᴰ.head refl) in
        let gaps = gaps_at established node (incoming node) in
        record {
          on_stack = λ n m.
              ⊎_elim (λ b. blocking n needed b) (λ r. inv.on_stack n (Memᴰ.tail r))
                ((Memᴰ-push_blocking n (incoming node) stack).0 m);
          sound = λ m q.
              ⊎_elim (inv.sound m) (λ r. (node, needed, r)) ((Memᴰ-append m missing gaps).0 q);
          complete = λ n h m q. (Memᴰ-append m missing gaps).1 (
              ⊎_elim (λ e. inr (subst (λ x. Memᴰ m (gaps_at established x (incoming x))) e q))
                (λ seen. inl (inv.complete n seen m q)) ((visited-cons n node visited).0 h));
          closed = λ n h p b.
              ⊎_elim
                (λ e. inr (
                  (Memᴰ-push_blocking p (incoming node) stack).1
                    (inl (subst (λ x. Blocks p (incoming x)) e b))))
                (λ seen. moved node p stack visited (inv.closed n seen p b))
                ((visited-cons n node visited).0 h);
          started = moved node target stack visited inv.started;
        }

    seen_all :
        (visited : List Hash) (missing : List MissingEdge)
        → Invariant [] visited missing
        → (n : Hash) → Needed n
        → contains visited n ≡ true
    seen_all visited missing inv n the_target =
        ⊎_elim (λ h. h) (λ m. absurd (Memᴰ.not-nil m)) inv.started
    seen_all visited missing inv n (blocking p needed b) =
        ⊎_elim (λ h. h) (λ m. absurd (Memᴰ.not-nil m))
          (inv.closed _ (seen_all visited missing inv _ needed) p b)

    explore-IsListed :
        (fuel : ℕ) (stack visited : List Hash) (missing result : List MissingEdge)
        → Invariant stack visited missing
        → explore established incoming fuel stack visited missing ≡ some result
        → (m : MissingEdge) → Memᴰ m result ↔ IsListed m
    unfolding explore
    explore-IsListed zero stack visited missing result inv h m = absurd (cc h)
    explore-IsListed (suc fuel) [] visited missing result inv h m =
        let same : missing ≡ result = cc h in
        subst (λ r. Memᴰ m r ↔ IsListed m) same
          (
            inv.sound m,
            λ (n, needed, q). inv.complete n (seen_all visited missing inv n needed) m q,
          )
    explore-IsListed (suc fuel) (node ∷ stack) visited missing result inv h m =
        elim (Bool-cases (contains visited node)) [
          | inl old ↦
              explore-IsListed fuel stack visited missing result
                (skip-Invariant node stack visited missing old inv) (rw (old, explore) at h) m
          | inr new ↦
              explore-IsListed fuel (push_blocking established (incoming node) stack)
                (node ∷ visited) (missing ++ gaps_at established node (incoming node)) result
                (visit-Invariant node stack visited missing inv) (rw (new, explore) at h) m
        ]

    -- The loop from the target alone lists exactly the gaps at the needed nodes.
    pub explore_frontier :
        (fuel : ℕ) (result : List MissingEdge)
        → explore established incoming fuel (target ∷ []) [] [] ≡ some result
        → (m : MissingEdge) → Memᴰ m result ↔ IsListed m
    explore_frontier fuel result h m =
        explore-IsListed fuel (target ∷ []) [] [] result
          (record {
            on_stack = λ n q.
                ⊎_elim (λ e. subst Needed (sym e) the_target) (λ r. absurd (Memᴰ.not-nil r))
                  (Memᴰ.cases_cons q);
            sound = λ m q. absurd (Memᴰ.not-nil q);
            complete = λ n seen. unfold contains in cc seen;
            closed = λ n seen. unfold contains in cc seen;
            started = inr (Memᴰ.head refl);
          })
          h m
