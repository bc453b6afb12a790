-- ===== src/Lib.antt =====
-- OpenAir, a peer-to-peer link between a person's devices (Go): file transfer, remote file system,
-- input, clipboard and notifications over QUIC sessions between devices that were paired once.
-- The parts below are models of the program's functions, with the errors, the wrap-around of uint64s
-- and the order of checks of the code. A name of the code is spelled here in snake_case.
--
-- The parts and the code they model:
--   Infra.Frame               internal/infra/frame.go, the framing of relay and rendezvous
--   Session.Envelope          internal/session/envelope.go, the framing of a session
--   Session.Convert           internal/session/convert.go, wire enums and the program's own
--   Identity.Types, DeviceId  internal/identity/types.go and deviceid.go
--   Identity.TrustStore       internal/identity/truststore.go, the peers a device knows
--   Identity.OwnedProof       internal/identity/identity.go, what an Owned-level proof signs
--   Identity.KeyFile          internal/identity/keyfile.go, the privilege key at rest
--   Identity.Unlock           internal/identity/unlock.go, the decrypted key and its grants
--   Session.Auth              internal/session/auth.go, which messages a peer's level and proofs open,
--                             and (Sending) what is sent with a proof; `Send` of session.go
--   Session.Hello             internal/session/session.go, how a session comes about
--   Session.Loop              the same, what a session does with what it receives, and how it ends
--   Pairing.Sas               internal/pairing/sas.go, the digits that two users compare
--   Pairing.Offer             internal/pairing/offer.go, what a scanned offer says of a key
--   Pairing.Guard             internal/pairing/guard.go, what a peer may do in a live session
--   Pairing.Authorize         internal/pairing/authorize.go, who gets a session at all
--   Congestion.RingBuffer     internal/congestion/bbr/ringbuffer.go
--   Congestion.PacketQueue    internal/congestion/bbr/packet_number_indexed_queue.go, over the ring
--   Congestion.WindowedFilter internal/congestion/bbr/windowed_filter.go
--   Congestion.Pacer          internal/congestion/common/pacer.go
--   Files.Plan                internal/caps/files/plan.go, files cut into chunks
--   Files.ChunkSet            internal/caps/files/state.go, which chunks have been verified
--   Files.Path                internal/caps/files/path.go, which offered paths may be written
--   RemoteFs.WirePath         internal/caps/remotefs/path.go, which paths a peer may ask for
--   RemoteFs.Cache            internal/caps/remotefs/cache.go, blocks of a remote file kept on disk
--   Paths.Stun                internal/path/stun.go, the codec and what the server answers
-- Prelude holds what they share: Go's byte slices, maps, readers, words and `sort.Search`.
--
-- How they interact: the gate and the guards of Pairing act on the trust store of Identity through
-- `put`, `delete` and `get`; offers and stored records carry ids that `derive_device_id` gives; the
-- plan's binary searches are those of Prelude.Search. A function that changes state takes the state
-- and returns it with its result. `sign_owned` makes the proofs that `consume` spends, both over
-- `owned_signing_input`; `unlock` opens the container with `open_privilege`.
-- `new_session` leaves what `started` begins with; `dispatch` and `admit_stream` ask
-- `authorize_inbound` and `dispatch_datagram` asks `datagram_allowed`. Guards are
-- objects on a heap, since capabilities keep them.
--
-- Parameters: SHA-256, Argon2id, XChaCha20-Poly1305, Ed25519, random bytes, page locking, protobuf's
-- marshalling, the writer of the trust store's file, the clock, the capabilities' handlers.
-- A reader is the bytes it still holds and the error it ends with.
--
-- Bounds and fuel: a byte is a number below 256, a uint64 is kept below 2 ^ 64 by a remainder, and
-- the theorems on plans suppose that the sizes add up to a uint64. `step_over` has a round for each
-- file, `claim_loop` one for each index behind the counter and one more, and `search_loop` one for
-- each element, which is more than a binary search takes; each then ends before its fuel does.
-- `evict_loop` has a round for each block, and `attribute_loop` one for each byte of the
-- attributes and one more, of which each turn takes four at least. `clear_loop` and
-- `remove_loop` have a round for each slot and one more.
--
-- Not modelled: the session's binding to quic-go, cancellation and path hint, the creation of keys, TLS, the transfer's
-- streams, the remote file system's requests, BBR's sampler and sender, hole punching, discovery,
-- relay, rendezvous, input, clipboard, mirror, daemon and user interfaces, generated code. They wait
-- for the parts above, or only move bytes between sockets, files and the operating system. Locks are
-- left out where a call is one step under its lock.
pub mod Prelude
pub mod Infra
pub mod Identity
pub mod RemoteFs
pub mod Session
pub mod Congestion
pub mod Files
pub mod Pairing
pub mod Paths
