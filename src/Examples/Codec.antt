-- ===== src/Examples/Codec.antt =====
-- A codec with the law of `Cbor`: a program for a stack machine, two numbers to an instruction.
use arxdb.Base.{
  ℕ, ◌≡◌, refl, sym, ap, ◌∙◌, true, false, Option, none, some, List, [], ◌∷◌, ◌++◌, nat_beq,
  if◌then◌else◌, nat_eq, Bytes, bytes_eq, pair_eq,
}
use mathlib.Core.List.{append_assoc, append-nil}
use arxdb.Storage.Serialization.{
  Obj, Objs, Pairs, null, bool, int, text, bytes, list, tuple, set, dict, nil, cons, end, pair,
  in_key_order, is_plain,
}

abbrev Stack : Type 0
Stack = List Obj

abbrev on_text : ℕ → Stack → Option Stack
on_text c (text t ∷ st) = some (text (c ∷ t) ∷ st)
on_text c (bytes t ∷ st) = some (bytes (c ∷ t) ∷ st)
on_text c st = none

abbrev on_items : Stack → Option Stack
on_items (x ∷ list xs ∷ st) = some (list (cons x xs) ∷ st)
on_items st = none

abbrev on_pair : Stack → Option Stack
on_pair (v ∷ text k ∷ dict ps ∷ st) = some (dict (pair k v ps) ∷ st)
on_pair st = none

abbrev on_tuple : Stack → Option Stack
on_tuple (list xs ∷ st) = some (tuple xs ∷ st)
on_tuple st = none

abbrev on_set : Stack → Option Stack
on_set (list xs ∷ st) = some (set xs ∷ st)
on_set st = none

step : ℕ → ℕ → Stack → Option Stack
step op arg st =
    if nat_beq op 0
    then some (null ∷ st)
    else if nat_beq op 1
    then some (bool (nat_beq arg 1) ∷ st)
    else if nat_beq op 2
    then some (int arg ∷ st)
    else if nat_beq op 3
    then some (text [] ∷ st)
    else if nat_beq op 4
    then on_text arg st
    else if nat_beq op 5
    then some (bytes [] ∷ st)
    else if nat_beq op 6
    then some (list nil ∷ st)
    else if nat_beq op 7
    then on_items st
    else if nat_beq op 8
    then some (dict end ∷ st)
    else if nat_beq op 9
    then on_pair st
    else if nat_beq op 10
    then on_tuple st
    else if nat_beq op 11
    then on_set st
    else none

bind : Option Stack → (Stack → Option Stack) → Option Stack
bind none f = none
bind (some st) f = f st

run : Bytes → Option Stack → Option Stack
unfolding step bind
run [] st = st
run (op ∷ []) st = none
run (op ∷ arg ∷ rest) st = run rest (bind st (step op arg))

abbrev codes_of : Bytes → Bytes
codes_of [] = []
codes_of (c ∷ cs) = codes_of cs ++ 4 ∷ c ∷ []

mutual
  compile : Obj → Bytes
  compile null = 0 ∷ 0 ∷ []
  compile (bool true) = 1 ∷ 1 ∷ []
  compile (bool false) = 1 ∷ 0 ∷ []
  compile (int n) = 2 ∷ n ∷ []
  compile (text t) = 3 ∷ 0 ∷ codes_of t
  compile (bytes b) = 5 ∷ 0 ∷ codes_of b
  compile (list xs) = compile_items xs
  compile (tuple xs) = compile_items xs ++ 10 ∷ 0 ∷ []
  compile (set xs) = compile_items xs ++ 11 ∷ 0 ∷ []
  compile (dict ps) = compile_pairs ps

  compile_items : Objs → Bytes
  compile_items nil = 6 ∷ 0 ∷ []
  compile_items (cons x xs) = compile_items xs ++ (compile x ++ 7 ∷ 0 ∷ [])

  compile_pairs : Pairs → Bytes
  compile_pairs end = 8 ∷ 0 ∷ []
  compile_pairs (pair k v ps) =
      compile_pairs ps ++ ((3 ∷ 0 ∷ codes_of k) ++ (compile v ++ 9 ∷ 0 ∷ []))

run-text :
    (t u rest : Bytes) (st : Stack)
    → run (codes_of t ++ rest) (some (text u ∷ st)) ≡ run rest (some (text (t ++ u) ∷ st))
unfolding run
run-text [] u rest st = refl
run-text (c ∷ t) u rest st =
    rw (append_assoc (codes_of t) (4 ∷ c ∷ []) rest) (run-text t u (4 ∷ c ∷ rest) st)

run-bytes :
    (t u rest : Bytes) (st : Stack)
    → run (codes_of t ++ rest) (some (bytes u ∷ st)) ≡ run rest (some (bytes (t ++ u) ∷ st))
unfolding run
run-bytes [] u rest st = refl
run-bytes (c ∷ t) u rest st =
    rw (append_assoc (codes_of t) (4 ∷ c ∷ []) rest) (run-bytes t u (4 ∷ c ∷ rest) st)

mutual
  unfolding run compile

  run-compile :
      (x : Obj) (rest : Bytes) (st : Stack)
      → run (compile x ++ rest) (some st) ≡ run rest (some (x ∷ st))
  run-compile null rest st = refl
  run-compile (bool true) rest st = refl
  run-compile (bool false) rest st = refl
  run-compile (int n) rest st = refl
  run-compile (text t) rest st =
      run-text t [] rest st ∙ ap (λ u. run rest (some (text u ∷ st))) (append-nil t)
  run-compile (bytes t) rest st =
      run-bytes t [] rest st ∙ ap (λ u. run rest (some (bytes u ∷ st))) (append-nil t)
  run-compile (list xs) rest st = run-compile_items xs rest st
  run-compile (tuple xs) rest st =
      ap (λ p. run p (some st)) (append_assoc (compile_items xs) (10 ∷ 0 ∷ []) rest)
      ∙ run-compile_items xs (10 ∷ 0 ∷ rest) st
  run-compile (set xs) rest st =
      ap (λ p. run p (some st)) (append_assoc (compile_items xs) (11 ∷ 0 ∷ []) rest)
      ∙ run-compile_items xs (11 ∷ 0 ∷ rest) st
  run-compile (dict ps) rest st = run-compile_pairs ps rest st

  run-compile_items :
      (xs : Objs) (rest : Bytes) (st : Stack)
      → run (compile_items xs ++ rest) (some st) ≡ run rest (some (list xs ∷ st))
  run-compile_items nil rest st = refl
  run-compile_items (cons x xs) rest st =
      ap (λ p. run p (some st))
        (append_assoc (compile_items xs) (compile x ++ 7 ∷ 0 ∷ []) rest
          ∙ ap (◌++◌ (compile_items xs)) (append_assoc (compile x) (7 ∷ 0 ∷ []) rest))
      ∙ run-compile_items xs (compile x ++ 7 ∷ 0 ∷ rest) st
      ∙ run-compile x (7 ∷ 0 ∷ rest) (list xs ∷ st)

  run-compile_pairs :
      (ps : Pairs) (rest : Bytes) (st : Stack)
      → run (compile_pairs ps ++ rest) (some st) ≡ run rest (some (dict ps ∷ st))
  run-compile_pairs end rest st = refl
  run-compile_pairs (pair k v ps) rest st =
      let key = codes_of k in
      ap (λ p. run p (some st))
        (append_assoc (compile_pairs ps) ((3 ∷ 0 ∷ key) ++ (compile v ++ 9 ∷ 0 ∷ [])) rest
          ∙ ap (λ p. compile_pairs ps ++ (3 ∷ 0 ∷ p))
              (append_assoc key (compile v ++ 9 ∷ 0 ∷ []) rest
                ∙ ap (◌++◌ key) (append_assoc (compile v) (9 ∷ 0 ∷ []) rest)))
      ∙ run-compile_pairs ps (3 ∷ 0 ∷ (key ++ (compile v ++ 9 ∷ 0 ∷ rest))) st
      ∙ run-text k [] (compile v ++ 9 ∷ 0 ∷ rest) (dict ps ∷ st)
      ∙ ap (λ u. run (compile v ++ 9 ∷ 0 ∷ rest) (some (text u ∷ dict ps ∷ st))) (append-nil k)
      ∙ run-compile v (9 ∷ 0 ∷ rest) (text k ∷ dict ps ∷ st)

only : Option Stack → Option Obj
only (some (x ∷ [])) = some x
only _ = none

unfoldable pub load : Bytes → Option Obj
unfolding run only
load p = only (run p (some []))

unfoldable pub dump : Obj → Bytes
unfolding compile in_key_order
dump x = compile (in_key_order x)

pub load-dump : (x : Obj) → is_plain x ≡ true → load (dump x) ≡ some (in_key_order x)
load-dump x h =
    unfold load dump in
    ap only (
      ap (λ p. run p (some [])) (sym (append-nil (compile (in_key_order x))))
      ∙ run-compile (in_key_order x) [] [])
