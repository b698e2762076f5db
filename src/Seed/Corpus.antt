-- ===== src/Seed/Corpus.antt =====
-- src/arxdb/seed/corpus.py: the nodes and edges of the seed corpus.
pub mod Nodes
pub mod Edges
use arxdb.Base.{Bool, Option, List, Bytes}
use arxdb.Verification.Schema.{Text, EdgeType, Kappa}

pub record CorpusNode : Type 0 where
  pub key : Text
  pub claim : Text
  pub domain : Text
  pub polarity : Bool

pub record CorpusEdge : Type 0 where
  pub key : Text
  pub edge_type : EdgeType
  pub premise_keys : List Text
  pub conclusion_key : Text
  pub rule : Text
  pub expected_kappa : Kappa
  pub source : Text
  pub proof_bytes : Option Bytes
