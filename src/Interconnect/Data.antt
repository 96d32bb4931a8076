-- ===== src/Interconnect/Data.antt =====
-- The data of crates/thicket-interconnect/src: error.rs, and the structs of envelope.rs, grant.rs
-- and handshake.rs. A `BTreeSet` is a list, of which the code asks only what it contains.
use thicket_ai.Base.{ℕ, String, Bool, Option, none, List, [], Bytes}
use thicket_ai.Base.Dict.{Dict}
use thicket_ai.Core
use thicket_ai.Core.{ResourceId}

pub data Error : Type 0 where
  core : Core.Error → Error
  empty_grant target_mismatch broken_chain bad_signature bad_attenuation : Error
  capability_not_allowed expired audience_mismatch not_holder : Error
  bad_envelope bad_proof deadline_exceeded : Error

pub data EnvelopeType : Type 0 where
  request response event error stream_chunk cancel : EnvelopeType

pub data ErrorCode : Type 0 where
  not_found unauthorized timeout unavailable bad_request conflict internal : ErrorCode

pub record ErrorInfo : Type 0 where
  pub code : ErrorCode
  pub message : String

pub record SinkRef : Type 0 where
  pub id : ResourceId
  pub endpoint : String

pub record Context : Type 0 where
  pub trace_id : Bytes
  pub span_id : Bytes
  pub parent_span_id : Bytes
  pub deadline : Option ℕ
  pub budget : Option ℕ
  pub sink : Option SinkRef

-- `Context::default`
abbrev pub no_context : Context
no_context = record {
  trace_id = [];
  span_id = [];
  parent_span_id = [];
  deadline = none;
  budget = none;
  sink = none;
}

pub record Caveats : Type 0 where
  pub capabilities : List String
  pub not_after : ℕ
  pub constraints : Dict String String

pub record GrantLink : Type 0 where
  pub issuer_pub : Bytes
  pub audience_pub : Bytes
  pub caveats : Caveats
  pub sig : Bytes

pub record LinkView : Type 0 where
  pub target : ResourceId
  pub issuer_pub : Bytes
  pub audience_pub : Bytes
  pub caveats : Caveats
  pub prev : Bytes

pub record Grant : Type 0 where
  pub target : ResourceId
  pub links : List GrantLink

pub record EnvelopePayload : Type 0 where
  pub v : ℕ
  pub from : ResourceId
  pub to : ResourceId
  pub typ : EnvelopeType
  pub capability : Option String
  pub correlation : Bytes
  pub content_type : Option String
  pub context : Context
  pub auth : Option Grant
  pub stream_seq : Option ℕ
  pub stream_end : Bool
  pub error_info : Option ErrorInfo
  pub body : Bytes
  pub ext : Dict String String

pub record SignedEnvelope : Type 0 where
  pub payload : EnvelopePayload
  pub signer_pub : Bytes
  pub signature : Bytes

pub record Challenge : Type 0 where
  pub nonce : Bytes

pub record ProofView : Type 0 where
  pub nonce : Bytes
  pub id : ResourceId

pub record Proof : Type 0 where
  pub id : ResourceId
  pub working_pub : Bytes
  pub sig : Bytes
