-- ===== src/Verification/Elenchus/Texts.antt =====
-- The words and the patterns that src/arxdb/verification/elenchus.py lists.
use arxdb.Base.{List, [], ◌∷◌, map}
use arxdb.Base.Strings.{codes}
use arxdb.Verification.Schema.{Text}

-- Connectives and common English without content.
abbrev pub stopwords : List Text
stopwords = map codes (
    "the" ∷ "and" ∷ "or" ∷ "not" ∷ "if" ∷ "then" ∷ "for" ∷ "all" ∷ "some" ∷ "such" ∷ "that" ∷ "this"
    ∷ "these" ∷ "those" ∷ "which" ∷ "where" ∷ "when" ∷ "there" ∷ "here" ∷ "with" ∷ "from" ∷ "into"
    ∷ "onto" ∷ "over" ∷ "under" ∷ "between" ∷ "implies" ∷ "imply" ∷ "equivalent" ∷ "equals"
    ∷ "equal" ∷ "therefore" ∷ "hence" ∷ "thus" ∷ "since" ∷ "because" ∷ "given" ∷ "let" ∷ "be" ∷ "is"
    ∷ "are" ∷ "was" ∷ "were" ∷ "has" ∷ "have" ∷ "had" ∷ "does" ∷ "do" ∷ "did" ∷ "any" ∷ "every"
    ∷ "each" ∷ "both" ∷ "either" ∷ "neither" ∷ "nor" ∷ "only" ∷ "also" ∷ "than" ∷ "about" ∷ "above"
    ∷ "below" ∷ "within" ∷ "without" ∷ "via" ∷ "per" ∷ "onto" ∷ [])

abbrev pub self_model_terms : List Text
self_model_terms =
    map codes
      ("consciousness" ∷ "conscious" ∷ "qualia" ∷ "sentient" ∷ "sentience" ∷ "awareness" ∷ [])

abbrev pub hard_domains : List Text
hard_domains = map codes ("math" ∷ "physics" ∷ "logic" ∷ "number theory" ∷ [])

-- The patterns that recognise a statement equivalent to the Riemann hypothesis.
abbrev pub rh_signatures : List Text
rh_signatures = map codes (
    "riemann\\s*hypothesis" ∷ "\\brh\\b"
    ∷ "all\\s*(?:non[-\\s]?trivial\\s*)?zeros.{0,30}critical\\s*line" ∷ "de\\s*bruijn"
    ∷ "newman\\s*constant" ∷ "\\bλ\\s*=\\s*0\\b" ∷ "\\blambda\\s*=\\s*0\\b"
    ∷ "curvature.{0,20}non\\s*negative" ∷ "\\bκ\\s*(?:≥|>=|>)\\s*0\\b"
    ∷ "\\bkappa\\s*(?:≥|>=|>)\\s*0\\b" ∷ "li\\s*coefficients" ∷ "li'?s\\s*criterion"
    ∷ "\\bλ_?n\\s*(?:≥|>=|>)\\s*0\\b" ∷ "\\blambda_?n\\s*(?:≥|>=|>)\\s*0\\b"
    ∷ "h_?0\\b.{0,30}real\\s*zeros" ∷ "polya\\s*criterion" ∷ [])

abbrev pub name_category_error : Text
name_category_error = codes "category_error"

abbrev pub name_self_model_leak : Text
name_self_model_leak = codes "self_model_leak"

abbrev pub name_non_sequitur : Text
name_non_sequitur = codes "non_sequitur"

abbrev pub name_empty_rule : Text
name_empty_rule = codes "empty_rule"

abbrev pub name_circularity : Text
name_circularity = codes "circularity"

abbrev pub name_rh_equivalence : Text
name_rh_equivalence = codes "rh_equivalence"
