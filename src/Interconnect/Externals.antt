-- ===== src/Interconnect/Externals.antt =====
-- What crates/thicket-interconnect calls and does not implement: what the core calls, and the CBOR
-- encoder at the types signed here.
use thicket_ai.Core.{Kernel, Writer}
use thicket_ai.Interconnect.Data.{LinkView, EnvelopePayload, ProofView}

pub record Fabric : Type 0 where
  pub kernel : Kernel
  pub open kernel use *
  pub write_link : Writer LinkView
  pub write_envelope : Writer EnvelopePayload
  pub write_proof : Writer ProofView
