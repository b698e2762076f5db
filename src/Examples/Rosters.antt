-- ===== src/Examples/Rosters.antt =====
-- A roster with one agent reads back.
use arxdb.Base.{◌≡◌, refl, [], ◌∷◌, nat_eq, bytes_eq, pair_eq}
use arxdb.Base.Strings.{codes}
use arxdb.Base.Result.{ok}
use arxdb.Attestation.Roster.{Roster, roster_new, roster_bytes, from_bytes}
use arxdb.Attestation.Roster.RoundTrip.{write_all, from_bytes-roster_bytes}
use arxdb.Examples.Packages.{toy_cbor, digits}
use arxdb.Examples.Commit.{key}

abbrev one_agent : Roster
one_agent = record { entries = (codes "ann", key) ∷ [] }

from_bytes-roster_bytes_example : from_bytes (roster_bytes one_agent) ≡ ok one_agent
unfolding write_all roster_new digits
from_bytes-roster_bytes_example = from_bytes-roster_bytes one_agent refl refl
