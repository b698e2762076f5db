-- ===== src/Verification/Schema/Values.antt =====
-- The dict keys and enumeration values of src/arxdb/verification/schema.py.
use arxdb.Base.{◌≡◌, refl, [], ◌∷◌, if◌then◌else◌, ◌==◌, nat_eq, bytes_eq, pair_eq}
use arxdb.Base.Tests.{bytes_beq}
use arxdb.Base.Result.{Result, ok, err, value_error}
use arxdb.Storage.Serialization.{Obj}
use arxdb.Verification.Schema.{
  Text, EdgeType, Kappa, Verdict, definition, deduction, numerical, spectral, reduction, refutation,
  analogy, citation, k0, k1, k2, k3, k_inf, pass, soft_flag, hard_veto,
}

abbrev pub key_claim : Text
key_claim = b'c' ∷ b'l' ∷ b'a' ∷ b'i' ∷ b'm' ∷ []

abbrev pub key_domain : Text
key_domain = b'd' ∷ b'o' ∷ b'm' ∷ b'a' ∷ b'i' ∷ b'n' ∷ []

abbrev pub key_polarity : Text
key_polarity = b'p' ∷ b'o' ∷ b'l' ∷ b'a' ∷ b'r' ∷ b'i' ∷ b't' ∷ b'y' ∷ []

abbrev pub key_type : Text
key_type = b't' ∷ b'y' ∷ b'p' ∷ b'e' ∷ []

abbrev pub key_premises : Text
key_premises = b'p' ∷ b'r' ∷ b'e' ∷ b'm' ∷ b'i' ∷ b's' ∷ b'e' ∷ b's' ∷ []

abbrev pub key_conclusion : Text
key_conclusion = b'c' ∷ b'o' ∷ b'n' ∷ b'c' ∷ b'l' ∷ b'u' ∷ b's' ∷ b'i' ∷ b'o' ∷ b'n' ∷ []

abbrev pub key_rule : Text
key_rule = b'r' ∷ b'u' ∷ b'l' ∷ b'e' ∷ []

abbrev pub key_proof_hash : Text
key_proof_hash = b'p' ∷ b'r' ∷ b'o' ∷ b'o' ∷ b'f' ∷ b'_' ∷ b'h' ∷ b'a' ∷ b's' ∷ b'h' ∷ []

abbrev pub key_verdict : Text
key_verdict = b'v' ∷ b'e' ∷ b'r' ∷ b'd' ∷ b'i' ∷ b'c' ∷ b't' ∷ []

abbrev pub key_kappa : Text
key_kappa = b'k' ∷ b'a' ∷ b'p' ∷ b'p' ∷ b'a' ∷ []

abbrev pub key_signer_pubkey : Text
key_signer_pubkey =
    b's' ∷ b'i' ∷ b'g' ∷ b'n' ∷ b'e' ∷ b'r' ∷ b'_' ∷ b'p' ∷ b'u' ∷ b'b' ∷ b'k' ∷ b'e' ∷ b'y' ∷ []

-- `EdgeType.value`
unfoldable pub edge_type_value : EdgeType → Text
edge_type_value definition =
    b'd' ∷ b'e' ∷ b'f' ∷ b'i' ∷ b'n' ∷ b'i' ∷ b't' ∷ b'i' ∷ b'o' ∷ b'n' ∷ []
edge_type_value deduction = b'd' ∷ b'e' ∷ b'd' ∷ b'u' ∷ b'c' ∷ b't' ∷ b'i' ∷ b'o' ∷ b'n' ∷ []
edge_type_value numerical = b'n' ∷ b'u' ∷ b'm' ∷ b'e' ∷ b'r' ∷ b'i' ∷ b'c' ∷ b'a' ∷ b'l' ∷ []
edge_type_value spectral = b's' ∷ b'p' ∷ b'e' ∷ b'c' ∷ b't' ∷ b'r' ∷ b'a' ∷ b'l' ∷ []
edge_type_value reduction = b'r' ∷ b'e' ∷ b'd' ∷ b'u' ∷ b'c' ∷ b't' ∷ b'i' ∷ b'o' ∷ b'n' ∷ []
edge_type_value refutation =
    b'r' ∷ b'e' ∷ b'f' ∷ b'u' ∷ b't' ∷ b'a' ∷ b't' ∷ b'i' ∷ b'o' ∷ b'n' ∷ []
edge_type_value analogy = b'a' ∷ b'n' ∷ b'a' ∷ b'l' ∷ b'o' ∷ b'g' ∷ b'y' ∷ []
edge_type_value citation = b'c' ∷ b'i' ∷ b't' ∷ b'a' ∷ b't' ∷ b'i' ∷ b'o' ∷ b'n' ∷ []

-- `EdgeType(x)` looks a value up; anything else is a `ValueError`.
unfoldable pub edge_type_named : Text → Result EdgeType
unfolding edge_type_value bytes_beq
edge_type_named t =
    if t == edge_type_value definition
    then ok definition
    else if t == edge_type_value deduction
    then ok deduction
    else if t == edge_type_value numerical
    then ok numerical
    else if t == edge_type_value spectral
    then ok spectral
    else if t == edge_type_value reduction
    then ok reduction
    else if t == edge_type_value refutation
    then ok refutation
    else if t == edge_type_value analogy
    then ok analogy
    else if t == edge_type_value citation
    then ok citation
    else err value_error

unfoldable pub to_edge_type : Obj → Result EdgeType
unfolding edge_type_named
to_edge_type (Obj.text t) = edge_type_named t
to_edge_type _ = err value_error

pub to_edge_type-value : (x : EdgeType) → to_edge_type (Obj.text (edge_type_value x)) ≡ ok x
unfolding to_edge_type bytes_beq
to_edge_type-value definition = refl
to_edge_type-value deduction = refl
to_edge_type-value numerical = refl
to_edge_type-value spectral = refl
to_edge_type-value reduction = refl
to_edge_type-value refutation = refl
to_edge_type-value analogy = refl
to_edge_type-value citation = refl

-- `Verdict.value`
unfoldable pub verdict_value : Verdict → Text
verdict_value pass = b'P' ∷ b'A' ∷ b'S' ∷ b'S' ∷ []
verdict_value soft_flag = b'S' ∷ b'O' ∷ b'F' ∷ b'T' ∷ b'_' ∷ b'F' ∷ b'L' ∷ b'A' ∷ b'G' ∷ []
verdict_value hard_veto = b'H' ∷ b'A' ∷ b'R' ∷ b'D' ∷ b'_' ∷ b'V' ∷ b'E' ∷ b'T' ∷ b'O' ∷ []

-- `Verdict(x)` looks a value up; anything else is a `ValueError`.
unfoldable pub verdict_named : Text → Result Verdict
unfolding verdict_value bytes_beq
verdict_named t =
    if t == verdict_value pass
    then ok pass
    else if t == verdict_value soft_flag
    then ok soft_flag
    else if t == verdict_value hard_veto
    then ok hard_veto
    else err value_error

unfoldable pub to_verdict : Obj → Result Verdict
unfolding verdict_named
to_verdict (Obj.text t) = verdict_named t
to_verdict _ = err value_error

pub to_verdict-value : (x : Verdict) → to_verdict (Obj.text (verdict_value x)) ≡ ok x
unfolding to_verdict bytes_beq
to_verdict-value pass = refl
to_verdict-value soft_flag = refl
to_verdict-value hard_veto = refl

-- `Kappa.value`
unfoldable pub kappa_value : Kappa → Text
kappa_value k0 = b'K' ∷ b'0' ∷ []
kappa_value k1 = b'K' ∷ b'1' ∷ []
kappa_value k2 = b'K' ∷ b'2' ∷ []
kappa_value k3 = b'K' ∷ b'3' ∷ []
kappa_value k_inf = b'K' ∷ b'_' ∷ b'I' ∷ b'N' ∷ b'F' ∷ []

-- `Kappa(x)` looks a value up; anything else is a `ValueError`.
unfoldable pub kappa_named : Text → Result Kappa
unfolding kappa_value bytes_beq
kappa_named t =
    if t == kappa_value k0
    then ok k0
    else if t == kappa_value k1
    then ok k1
    else if t == kappa_value k2
    then ok k2
    else if t == kappa_value k3
    then ok k3
    else if t == kappa_value k_inf
    then ok k_inf
    else err value_error

unfoldable pub to_kappa : Obj → Result Kappa
unfolding kappa_named
to_kappa (Obj.text t) = kappa_named t
to_kappa _ = err value_error

pub to_kappa-value : (x : Kappa) → to_kappa (Obj.text (kappa_value x)) ≡ ok x
unfolding to_kappa bytes_beq
to_kappa-value k0 = refl
to_kappa-value k1 = refl
to_kappa-value k2 = refl
to_kappa-value k3 = refl
to_kappa-value k_inf = refl
