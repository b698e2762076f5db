-- ===== src/Api/Routes/Texts.antt =====
-- The bodies that the model of src/arxdb/api/server.py reads as the program does.
use arxdb.Base.{nat_eq, bytes_eq, pair_eq, Option, none, some, ◌≡◌}
use arxdb.Storage.Serialization.{Obj, Objs, dict_get}
use arxdb.Verification.Schema.{Text}
use arxdb.Verification.Schema.Values.{key_domain, key_rule, key_conclusion, key_premises}

-- The value under the key is a string, if there is one.
abbrev pub IsTextIfGiven : Option Obj → Type 0
IsTextIfGiven none = Unit {0}
IsTextIfGiven (some x) = (t : Text) × (x ≡ Obj.text t)

-- The domain of a node, where it is given, is a string.
unfoldable pub HasTextDomain : Obj → Type 0
unfolding dict_get
HasTextDomain (Obj.dict ps) = IsTextIfGiven (dict_get key_domain ps)
HasTextDomain _ = Unit {0}

unfoldable pub HaveTextDomains : Objs → Type 0
unfolding HasTextDomain
HaveTextDomains Objs.nil = Unit {0}
HaveTextDomains (Objs.cons x xs) = HasTextDomain x × HaveTextDomains xs

-- The fields of a request that the program keeps without a check of their type are strings.
unfoldable pub HasTexts : Obj → Type 0
unfolding HasTextDomain HaveTextDomains dict_get
HasTexts (Obj.dict ps) =
    IsTextIfGiven (dict_get key_rule ps)
    × HasTextDomain (Obj.dict ps)
    × (elim (dict_get key_conclusion ps) [ none ↦ Unit {0} | some x ↦ HasTextDomain x ])
    × (elim (dict_get key_premises ps) [ some (Obj.list xs) ↦ HaveTextDomains xs | _ ↦ Unit {0} ])
HasTexts _ = Unit {0}
