-- ===== src/Base/Strings.antt =====
-- Python's `str` as the list of its code points: literals, and the methods of str and re that the
-- package calls. A run is a longest stretch of characters that satisfy a test.
use Prim.Native.Char.{code}
use Prim.Native.String.{String}
use arxdb.Base.{
  inl, inr, is_empty, ℕ, ◌≡◌, refl, Bool, not, ◌&&◌, ◌||◌, List, [], ◌∷◌, ◌++◌, arith, leb,
  if◌then◌else◌, Bool-cases, Bytes, all,
}

abbrev pub codes : String → Bytes
codes String.[] = []
codes (String.◌∷◌ c s) = code c ∷ codes s

-- What the tables of Unicode and the engine for regular expressions decide: `str.lower`, the white
-- space of `str.split` and `str.strip`, and `re.search(pattern, text, re.IGNORECASE)`.
pub record Strings : Type 0 where
  pub lower : Bytes → Bytes
  pub is_space : ℕ → Bool
  pub search : Bytes → Bytes → Bool

abbrev pub is_space : ⦃u : Strings⦄ → ℕ → Bool
is_space ⦃u⦄ = u.is_space

unfoldable pub flush : Bytes → List Bytes → List Bytes
flush [] later = later
flush (c ∷ run) later = (c ∷ run) ∷ later

-- The run at the start of the text and the runs after it.
unfoldable pub split_runs : (ℕ → Bool) → Bytes → Bytes × List Bytes
unfolding flush
split_runs inside [] = ([], [])
split_runs inside (c ∷ cs) =
    let (run, later) = split_runs inside cs in
    if inside c then (c ∷ run, later) else ([], flush run later)

unfoldable pub runs : (ℕ → Bool) → Bytes → List Bytes
unfolding split_runs flush
runs inside cs = let (run, later) = split_runs inside cs in flush run later

-- `[a-z0-9]`
unfoldable pub is_word_char : ℕ → Bool
is_word_char c = leb b'a' c && leb c b'z' || leb b'0' c && leb c b'9'

-- `re.findall(r"[a-z0-9]+", text)`
unfoldable pub find_words : Bytes → List Bytes
unfolding runs is_word_char
find_words text = runs is_word_char text

-- `text.split()`
unfoldable pub split : ⦃u : Strings⦄ → Bytes → List Bytes
unfolding runs
split text = runs (λ c. not (is_space c)) text

-- `" ".join(parts)`
unfoldable pub join_by_space : List Bytes → Bytes
join_by_space [] = []
join_by_space (x ∷ []) = x
join_by_space (x ∷ y ∷ rest) = x ++ b' ' ∷ join_by_space (y ∷ rest)

unfoldable pub strip_left : ⦃u : Strings⦄ → Bytes → Bytes
strip_left [] = []
strip_left (c ∷ cs) = let rest = strip_left cs in if is_space c then rest else c ∷ cs

unfoldable pub keep_right : ⦃u : Strings⦄ → ℕ → Bytes → Bytes
keep_right c [] = if is_space c then [] else c ∷ []
keep_right c (d ∷ rest) = c ∷ d ∷ rest

unfoldable pub strip_right : ⦃u : Strings⦄ → Bytes → Bytes
unfolding keep_right
strip_right [] = []
strip_right (c ∷ cs) = keep_right c (strip_right cs)

-- `text.strip()`
unfoldable pub strip : ⦃u : Strings⦄ → Bytes → Bytes
unfolding strip_left strip_right
strip text = strip_right (strip_left text)

module _ ⦃u : Strings⦄ where
  is_empty-keep_right :
      (c : ℕ) (rest : Bytes) → is_empty (keep_right c rest) ≡ (is_space c && is_empty rest)
  unfolding keep_right
  is_empty-keep_right c [] = elim (Bool-cases (is_space c)) [
    | inl t ↦ rw t refl
    | inr f ↦ rw f refl
  ]
  is_empty-keep_right c (d ∷ rest) = ground arith

  is_empty-strip_right : (cs : Bytes) → is_empty (strip_right cs) ≡ all is_space cs
  unfolding strip_right all
  is_empty-strip_right [] = refl
  is_empty-strip_right (c ∷ cs) =
      rw (is_empty-keep_right c (strip_right cs), is_empty-strip_right cs) refl

  -- `not text.strip()`: the text is all white space.
  pub is_empty-strip : (cs : Bytes) → is_empty (strip cs) ≡ all is_space cs
  unfolding strip strip_left strip_right all
  is_empty-strip [] = refl
  is_empty-strip (c ∷ cs) = elim (Bool-cases (is_space c)) [
    | inl space ↦ rw space (is_empty-strip cs)
    | inr other ↦ rw (other, is_empty-strip_right (c ∷ cs)) (rw other refl)
  ]
