-- ===== src/Verification/Schema.antt =====
-- src/arxdb/verification/schema.py: the records and enumerations.
pub mod Values
pub mod Decoding
pub mod NodeCodec
pub mod EdgeCodec
pub mod RoundTrip
use arxdb.Base.{Bool, Option, List, nat_eq, Bytes, bytes_eq, pair_eq}
use arxdb.Storage.Hashing.{Hash}

-- A `str`, as the list of its code points.
abbrev pub Text : Type 0
Text = Bytes

pub data EdgeType : Type 0 where
  definition deduction numerical spectral reduction refutation analogy citation : EdgeType

pub data Kappa : Type 0 where
  k0 k1 k2 k3 k_inf : Kappa

pub data Verdict : Type 0 where
  pass soft_flag hard_veto : Verdict

pub record Node : Type 0 where
  pub claim : Text
  pub domain : Text
  pub polarity : Bool

pub record Edge : Type 0 where
  pub type : EdgeType
  pub premises : List Hash
  pub conclusion : Hash
  pub rule : Text
  pub proof_hash : Option Hash
  pub verdict : Verdict
  pub kappa : Kappa
  pub signer_pubkey : Bytes
