-- ===== src/Verification/Elenchus.antt =====
-- src/arxdb/verification/elenchus.py: the predicates that inspect an edge before any formal check.
-- A Python set of strings is a list without repetitions; the text of a flag is its template with
-- the values that are filled in.
pub mod Texts
pub mod Sets
pub mod Vetoes
pub mod Grounds
pub mod Verdicts
use arxdb.Base.{
  zero, suc, Bool, true, false, not, ◌&&◌, ◌||◌, Option, none, some, List, [], ◌∷◌, ◌++◌, map, ltb,
  if◌then◌else◌, is_empty, Eq, nat_eq, bytes_eq, pair_eq, bytes_leb, length, any, keep, contains,
  add,
}
use arxdb.Base.Strings.{Strings, find_words, strip}
use arxdb.Verification.Schema.{
  Text, Node, EdgeType, Verdict, definition, deduction, numerical, spectral, reduction, refutation,
  analogy, citation, pass, soft_flag, hard_veto,
}
use Texts.{
  stopwords, self_model_terms, hard_domains, rh_signatures, name_category_error,
  name_self_model_leak, name_non_sequitur, name_empty_rule, name_circularity, name_rh_equivalence,
}

-- `set(xs)`
unfoldable pub set_of : List Text → List Text
set_of [] = []
set_of (x ∷ xs) = add x (set_of xs)

-- `xs | ys`
unfoldable pub union : List Text → List Text → List Text
union [] ys = ys
union (x ∷ xs) ys = add x (union xs ys)

unfoldable pub insert_text : Text → List Text → List Text
insert_text x [] = x ∷ []
insert_text x (y ∷ ys) =
    let rest = insert_text x ys in if bytes_leb x y then x ∷ y ∷ ys else y ∷ rest

-- `sorted(xs)`
unfoldable pub sorted : List Text → List Text
unfolding insert_text
sorted [] = []
sorted (x ∷ xs) = insert_text x (sorted xs)

-- `len(t) > 2 and t not in _STOPWORDS`
unfoldable pub is_content : Text → Bool
unfolding contains
is_content t = ltb 2 (length t) && not (contains stopwords t)

pub data Message : Type 0 where
  domain_not_in : (domain : Text) (premise_domains : List Text) → Message
  terms_in_hard_domain : (leaked : List Text) (domain : Text) → Message
  novel_concepts : (novel : List Text) → Message
  no_inference_rule : Message
  shared_classes : (shared : List Text) → Message

pub record Flag : Type 0 where
  pub name : Text
  pub severity : Verdict
  pub message : Message

pub record ElenchusResult : Type 0 where
  pub verdict : Verdict
  pub flags : List Flag

pub record EquivalenceClass : Type 0 where
  pub name : Text
  pub signatures : List Text

abbrev pub rh_equivalence : EquivalenceClass
rh_equivalence = record { name = name_rh_equivalence; signatures = rh_signatures }

abbrev pub equivalence_classes : List EquivalenceClass
equivalence_classes = rh_equivalence ∷ []

-- `edge_type in DERIVATIONAL_TYPES`
abbrev pub is_derivational : EdgeType → Bool
is_derivational deduction = true
is_derivational numerical = true
is_derivational _ = false

-- `edge_type in CROSS_DOMAIN_TYPES`
abbrev pub is_cross_domain : EdgeType → Bool
is_cross_domain reduction = true
is_cross_domain analogy = true
is_cross_domain _ = false

-- `edge_type in CIRCULARITY_TYPES`
abbrev pub is_circularity_type : EdgeType → Bool
is_circularity_type deduction = true
is_circularity_type numerical = true
is_circularity_type spectral = true
is_circularity_type reduction = true
is_circularity_type _ = false

abbrev pub Predicate : Type 0
Predicate = List Node → Node → Text → EdgeType → Option Flag

unfoldable pub category_error : Predicate
unfolding set_of contains sorted
category_error premises conclusion rule edge_type =
    if is_empty premises || is_cross_domain edge_type
    then none
    else let premise_domains = set_of (map (λ (p : Node). p.domain) premises) in
      if contains premise_domains conclusion.domain
      then none
      else some (record {
        name = name_category_error;
        severity = hard_veto;
        message = domain_not_in conclusion.domain (sorted premise_domains);
      })

-- `tuple(f for f in (pred(...) for pred in PREDICATES) if f is not None)`
unfoldable pub fired : List (Option Flag) → List Flag
fired [] = []
fired (none ∷ fs) = fired fs
fired (some f ∷ fs) = f ∷ fired fs

abbrev pub is_veto : Flag → Bool
is_veto f = elim f.severity [ hard_veto ↦ true | _ ↦ false ]

unfoldable pub verdict_of : List Flag → Verdict
unfolding any
verdict_of flags =
    if any is_veto flags then hard_veto else if is_empty flags then pass else soft_flag

module _ ⦃u : Strings⦄ where
  unfoldable pub tokens : Text → List Text
  unfolding find_words is_content keep set_of
  tokens text = set_of (keep is_content (find_words (u.lower text)))

  -- `f"{conclusion.claim} {rule}"`
  unfoldable pub claim_and_rule : Node → Text → Text
  claim_and_rule conclusion rule = conclusion.claim ++ b' ' ∷ rule

  unfoldable pub self_model_leak : Predicate
  unfolding tokens contains keep claim_and_rule sorted
  self_model_leak premises conclusion rule edge_type =
      if not (contains hard_domains conclusion.domain) || is_cross_domain edge_type
      then none
      else let leaked =
          keep (contains (tokens (claim_and_rule conclusion rule))) self_model_terms in
        if is_empty leaked
        then none
        else some (record {
          name = name_self_model_leak;
          severity = hard_veto;
          message = terms_in_hard_domain (sorted leaked) conclusion.domain;
        })

  -- `for p in premises: premise_tokens |= _tokens(p.claim)`
  unfoldable pub claim_tokens : List Text → List Node → List Text
  unfolding tokens union
  claim_tokens premise_tokens [] = premise_tokens
  claim_tokens premise_tokens (p ∷ ps) = claim_tokens (union premise_tokens (tokens p.claim)) ps

  unfoldable pub non_sequitur : Predicate
  unfolding tokens claim_tokens contains keep sorted
  non_sequitur premises conclusion rule edge_type =
      if is_empty premises || not (is_derivational edge_type)
      then none
      else let premise_tokens = claim_tokens [] premises in
        let novel = keep (λ t. not (contains premise_tokens t)) (tokens conclusion.claim) in
        if is_empty novel
        then none
        else some (record {
          name = name_non_sequitur;
          severity = hard_veto;
          message = novel_concepts (sorted novel);
        })

  unfoldable pub empty_rule : Predicate
  unfolding strip
  empty_rule premises conclusion rule edge_type =
      if is_derivational edge_type && is_empty (strip rule)
      then some
          (record { name = name_empty_rule; severity = soft_flag; message = no_inference_rule })
      else none

  unfoldable pub classes_of : List EquivalenceClass → Text → List Text
  unfolding any add contains
  classes_of [] claim = []
  classes_of (eq ∷ eqs) claim =
      let rest = classes_of eqs claim in
      if any (λ sig. u.search sig claim) eq.signatures then add eq.name rest else rest

  unfoldable pub classify : Text → List Text
  unfolding classes_of
  classify claim = classes_of equivalence_classes claim

  -- The first premise that shares a class with the conclusion decides.
  unfoldable pub first_shared : List Text → List Node → Option (List Text)
  unfolding classify keep contains
  first_shared concl_classes [] = none
  first_shared concl_classes (p ∷ ps) =
      let shared = keep (contains (classify p.claim)) concl_classes in
      let later = first_shared concl_classes ps in if is_empty shared then later else some shared

  unfoldable pub circularity_flag : Option (List Text) → Option Flag
  unfolding sorted
  circularity_flag none = none
  circularity_flag (some shared) = some (record {
    name = name_circularity;
    severity = hard_veto;
    message = shared_classes (sorted shared);
  })

  unfoldable pub circularity : Predicate
  unfolding classify first_shared circularity_flag
  circularity premises conclusion rule edge_type =
      if is_empty premises || not (is_circularity_type edge_type)
      then none
      else let concl_classes = classify conclusion.claim in
        if is_empty concl_classes
        then none
        else circularity_flag (first_shared concl_classes premises)

  abbrev pub predicates : List Predicate
  predicates = category_error ∷ self_model_leak ∷ non_sequitur ∷ empty_rule ∷ circularity ∷ []

  unfoldable pub evaluate : List Node → Node → Text → EdgeType → ElenchusResult
  unfolding fired verdict_of
  evaluate premises conclusion rule edge_type =
      let flags = fired (map (λ pred. pred premises conclusion rule edge_type) predicates) in
      record { verdict = verdict_of flags; flags = flags }
