-- ===== src/Storage/GraphIndex/Rows.antt =====
-- The rows of the table of premises of src/arxdb/storage/graph_index.py: what adding, selecting and
-- sorting them gives.
use mathlib.Core.List.{append_assoc, append-nil}
use arxdb.Base.{
  ℕ, suc, ◌<◌, ◌≡◌, refl, sym, ap, ◌∙◌, ◌≢◌, inl, inr, Bool, false, List, [], ◌∷◌, ◌++◌, map, Memᴰ,
  arith, Bool-cases, ◌==◌, ==_refl, eq_of_==, ==_false_of_ne, nat_eq, bytes_eq, pair_eq, any, keep,
  leb-true_of_le,
}
use mathlib.Core.Logic.{⊎_elim}
use mathlib.Core.List.Memᴰ
use arxdb.Storage.Hashing.{Hash}
use arxdb.Storage.GraphIndex.{
  PremiseRow, insert_row, sort_rows, same_key, add_row, add_rows, rows_of,
}

-- The rows of an edge that is new, in the order of their positions.
pub enumerated : Hash → ℕ → List Hash → List PremiseRow
enumerated e position [] = []
enumerated e position (p ∷ ps) =
    record { edge_hash = e; premise_hash = p; position = position } ∷ enumerated e (suc position) ps

abbrev FreeFrom : Hash → ℕ → List PremiseRow → Type 0
FreeFrom e position rows = (r : PremiseRow) → Memᴰ r rows → r.edge_hash ≡ e → r.position < position

any-false :
    {A : Type 0} (p : A → Bool) (xs : List A)
    → ((x : A) → Memᴰ x xs → p x ≡ false)
    → any p xs ≡ false
unfolding any
any-false p [] h = refl
any-false p (x ∷ xs) h = rw (h x (Memᴰ.head refl)) (any-false p xs (λ y m. h y (Memᴰ.tail m)))

add_row-free :
    (r : PremiseRow) (rows : List PremiseRow)
    → FreeFrom r.edge_hash r.position rows
    → add_row r rows ≡ rows ++ r ∷ []
unfolding add_row
add_row-free r rows free = rw (
    any-false (same_key r) rows (λ q m. elim (Bool-cases (r.edge_hash == q.edge_hash)) [
      | inl t ↦ let low = free q m (sym (eq_of_== r.edge_hash q.edge_hash t)) in rw t (ground arith)
      | inr f ↦ rw f
    ]))

FreeFrom-snoc :
    (r : PremiseRow) (rows : List PremiseRow)
    → FreeFrom r.edge_hash r.position rows
    → FreeFrom r.edge_hash (suc r.position) (rows ++ r ∷ [])
FreeFrom-snoc r rows free q m e = elim (Memᴰ.append_cases rows m) [
  | inl old ↦ omega (arith, free q old e)
  | inr new ↦ let same = Memᴰ.eq_of_singleton new in rw same (omega arith)
]

pub add_rows-free :
    (e : Hash) (position : ℕ) (ps : List Hash) (rows : List PremiseRow)
    → FreeFrom e position rows
    → add_rows e position ps rows ≡ rows ++ enumerated e position ps
unfolding add_rows enumerated
add_rows-free e position [] rows free = sym (append-nil rows)
add_rows-free e position (p ∷ ps) rows free =
    let r : PremiseRow = record { edge_hash = e; premise_hash = p; position = position } in
    ap (add_rows e (suc position) ps) (add_row-free r rows free)
    ∙ add_rows-free e (suc position) ps (rows ++ r ∷ []) (FreeFrom-snoc r rows free)
    ∙ append_assoc rows (r ∷ []) (enumerated e (suc position) ps)

insert_row-first :
    (e p : Hash) (position : ℕ) (ps : List Hash)
    → insert_row
        (record { edge_hash = e; premise_hash = p; position = position })
        (enumerated e (suc position) ps)
      ≡ enumerated e position (p ∷ ps)
unfolding insert_row enumerated
insert_row-first e p position [] = refl
insert_row-first e p position (q ∷ ps) = rw (leb-true_of_le position (suc position) (omega arith))

pub sort_rows-enumerated :
    (e : Hash) (position : ℕ) (ps : List Hash)
    → sort_rows (enumerated e position ps) ≡ enumerated e position ps
unfolding sort_rows enumerated
sort_rows-enumerated e position [] = unfold enumerated in refl
sort_rows-enumerated e position (p ∷ ps) =
    ap (insert_row (record { edge_hash = e; premise_hash = p; position = position }))
      (sort_rows-enumerated e (suc position) ps)
    ∙ insert_row-first e p position ps

pub map-enumerated :
    (e : Hash) (position : ℕ) (ps : List Hash)
    → map (λ (r : PremiseRow). r.premise_hash) (enumerated e position ps) ≡ ps
unfolding enumerated
map-enumerated e position [] = refl
map-enumerated e position (p ∷ ps) = ap (◌∷◌ p) (map-enumerated e (suc position) ps)

pub keep-append :
    {A : Type 0} (p : A → Bool) (xs ys : List A) → keep p (xs ++ ys) ≡ keep p xs ++ keep p ys
unfolding keep
keep-append p [] ys = refl
keep-append p (x ∷ xs) ys = elim (Bool-cases (p x)) [
  | inl t ↦ rw t (ap (◌∷◌ x) (keep-append p xs ys))
  | inr f ↦ rw f (keep-append p xs ys)
]

pub keep-none :
    {A : Type 0} (p : A → Bool) (xs : List A) → ((x : A) → Memᴰ x xs → p x ≡ false) → keep p xs ≡ []
unfolding keep
keep-none p [] h = refl
keep-none p (x ∷ xs) h = rw (h x (Memᴰ.head refl)) (keep-none p xs (λ y m. h y (Memᴰ.tail m)))

pub keep-enumerated :
    (e : Hash) (position : ℕ) (ps : List Hash)
    → keep (λ (r : PremiseRow). r.edge_hash == e) (enumerated e position ps)
      ≡ enumerated e position ps
unfolding keep enumerated
keep-enumerated e position [] = refl
keep-enumerated e position (p ∷ ps) = rw (==_refl e) (
    ap (λ rs. record { edge_hash = e; premise_hash = p; position = position } ∷ rs)
      (keep-enumerated e (suc position) ps))

pub edge-enumerated :
    (e : Hash) (position : ℕ) (ps : List Hash) (r : PremiseRow)
    → Memᴰ r (enumerated e position ps)
    → r.edge_hash ≡ e
unfolding enumerated
edge-enumerated e position [] r m = absurd (Memᴰ.not-nil m)
edge-enumerated e position (p ∷ ps) r m =
    ⊎_elim (λ q. ap (λ (x : PremiseRow). x.edge_hash) q) (edge-enumerated e (suc position) ps r)
      (Memᴰ.cases_cons m)

-- Rows of another edge are as they were.
rows_of-add_row :
    (r : PremiseRow) (rows : List PremiseRow) (h : Hash)
    → r.edge_hash ≢ h
    → rows_of (add_row r rows) h ≡ rows_of rows h
unfolding rows_of add_row
rows_of-add_row r rows h ne = elim (Bool-cases (any (same_key r) rows)) [
  | inl t ↦ rw t
  | inr f ↦
      rw (f, keep-append)
        (ap (◌++◌ (rows_of rows h)) (
            keep-none (λ (q : PremiseRow). q.edge_hash == h) (r ∷ [])
              (λ q m. rw (Memᴰ.eq_of_singleton m) (==_false_of_ne r.edge_hash h ne)))
          ∙ append-nil (rows_of rows h))
]

pub rows_of-add_rows :
    (e : Hash) (position : ℕ) (ps : List Hash) (rows : List PremiseRow) (h : Hash)
    → e ≢ h
    → rows_of (add_rows e position ps rows) h ≡ rows_of rows h
unfolding add_rows
rows_of-add_rows e position [] rows h ne = refl
rows_of-add_rows e position (p ∷ ps) rows h ne =
    let r : PremiseRow = record { edge_hash = e; premise_hash = p; position = position } in
    rows_of-add_rows e (suc position) ps (add_row r rows) h ne ∙ rows_of-add_row r rows h ne
