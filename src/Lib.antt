-- ===== src/Lib.antt =====
-- thicket-ai: identity, grants and discovery for agents, modelled from the Rust crates.
--
-- The program's parts and their files. An identity is the hash of a root key, which endorses working
-- keys; a working key signs records, envelopes, grants and proofs (crates/thicket-core,
-- crates/thicket-interconnect). A registry verifies the records that it stores and finds them by
-- id and by intent (crates/thicket-registry); a federation asks registries as peers, verifies what
-- they answer and caches it (crates/thicket-federation). A connection authenticates its peer and
-- carries requests (crates/thicket-net); a directory is a registry that answers them, for each peer
-- its own record alone (crates/thicket-directory). Attestations and outcomes give identities a
-- reputation (crates/thicket-trust).
--
--   Core.Data          the structs of crates/thicket-core/src: capability.rs, error.rs, identity.rs, record.rs
--   Core.Externals     the libraries that the core calls
--   Core.Crypto        crypto.rs: signing_bytes, verify_raw, verify_signature
--   Core.Identity      identity.rs: RootKey, WorkingKey, RevocationSet, verify_working_key
--   Core.Identity.Printing   identity.rs: Id::hex, Id::from_hex, from_seed and generate of keys
--   Core.Record        record.rs: RecordPayload::sign, SignedRecord::verify
--   Core.Checkpoint    checkpoint.rs: Checkpoint::replay, Checkpoint::record, Checkpoint::next_key
--   Interconnect.Data  the structs of crates/thicket-interconnect/src
--   Interconnect.Context, Interconnect.Envelope   envelope.rs
--   Interconnect.Grant                            grant.rs: issue, attenuate, verify, satisfies
--   Interconnect.Handshake                        handshake.rs: prove, verify_proof
--   Registry           crates/thicket-registry/src: registry.rs, and cosine of embedder.rs
--   Registry.Abstract  the book that a registry keeps, as a specification of registry.rs but search
--   Registry.Embedding embedder.rs: MockEmbedder
--   Federation         crates/thicket-federation/src: federation.rs, peer.rs
--   Federation.Profile profile.rs
--   Net                crates/thicket-net/src: error.rs, identity.rs
--   Net.Framing        framing.rs: write_frame, read_frame
--   Net.Secure         secure.rs: make_proof, verify_proof (verify_identity)
--   Net.Sealing        secure.rs: encrypt_frame, decrypt_frame
--   Net.Establish      secure.rs: establish (handshake_over), the messages of both ends
--   Net.Routing        conn.rs: route
--   Net.Conn           conn.rs: establish, the two tasks (reader, writer), call, call_stream, send, emit
--   Net.Conn.Opening   conn.rs: connect and accept (accept_peer)
--   Net.Wired          conn.rs and server.rs: the rounds of the tasks of two ends, over channels
--   Net.Wired.Closing  conn.rs: flush and Drop
--   Net.Gated          examples/grant_gated_server.rs
--   Net.Server         server.rs: serve_conn, over a list of envelopes and a handler with a state
--   Directory          crates/thicket-directory/src: handle of server.rs, wire.rs, the names of lib.rs
--   Directory.Client   client.rs and error.rs of the same crate
--   Directory.Client.Wired, Directory.Client.Session   a client at a directory over a connection, all
--                      parts together, for one operation and for several
--   Trust              crates/thicket-trust/src: attestation.rs, reputation.rs, scoring.rs
--   Base               lists, maps, bytes, results, f32 operations
--   Tests              primitives that can be run, and the results applied to concrete data
--
-- A method with `&mut self` is a function from the state to the new state; one that fails has
-- changed nothing and returns the error alone, but for the calls of a connection and of a client,
-- which return the error with the state that they leave. A `Result` is Result, an early return is
-- reject_if, a panic is `none` or an error where it can happen. A `HashMap` or `BTreeMap` is an
-- association list with one entry for each key; the order in which `values()` visits a `HashMap`
-- is not specified, the model's is that of the list. `unix_now` in a handler is read for each
-- request; the clock is any function from the number of a request to a time. A `u64` is a natural
-- number; where the code adds two, the sum wraps at 2^64, as in a release build. Loops are
-- structural recursion over the list that the code iterates. Two have rounds instead: the reader
-- of a connection takes one reading of the clock for each round, and each round consumes at least
-- the four bytes of a length; the loop over `slice::chunks` has as many rounds as there are bytes,
-- and each takes one at least. A stream is the bytes still to be read. The tasks and calls that
-- share the tables of a connection are steps on them, in any order; a call is split at its wait.
-- Net.Wired fixes one order for a whole call: request, handler, response, each task one round. The
-- digits of a number are printed with the number itself as the bound of the rounds; flush has the
-- thousand rounds of the code.
--
-- Parameters: SHA-256 (sha2), Ed25519 (ed25519_dalek), the CBOR encoders and decoders at each type
-- (ciborium), hexadecimal forms (hex), the operations of f32, `sort_by` of slices, whose result is
-- not specified where a comparison is not a total order, the embedder, the Noise handshake and its
-- transport (snow), and the channels of tokio. What a theorem relies on of them is a named
-- hypothesis: the lengths that the libraries' types fix, and that a signature verifies under its
-- key (Core.Externals.PrimitiveLaws); that what one end of a Noise session writes the other reads
-- (Net.Sealing.Opening.TransportLaws, Net.Establish.Mutual.NoiseLaws and SplitLaws); that an open
-- and empty queue of tokio gives what was put in (Net.Wired.Laws.ChannelLaws); that a codec reads
-- back the values that are sent; how zero adds in f32 (Trust.Sybil.ZeroLaws); that a sort keeps
-- the elements and orders them where the comparison is a total order on them
-- (Base.Sorting.SortLaws), and that f32 values that are numbers are so ordered
-- (Registry.Scores.NumberOrder); for renewals and replays, that the encoding shows a field and
-- that a signature fits one message.
--
-- Not modelled: that a recent `sort_by` may panic where the comparison is not a total order, debug
-- forms, randomness, sockets and the loops that accept them, and the Python SDK.
pub mod Base
pub mod Core
pub mod Interconnect
pub mod Registry
pub mod Federation
pub mod Net
pub mod Directory
pub mod Trust
pub mod Tests
