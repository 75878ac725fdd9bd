-- ===== src/Lib.antt =====
-- Verification of the Go packages internal/relay, internal/storage, internal/transport,
-- internal/crypto, internal/manifest, internal/database, internal/drops, internal/events and
-- internal/payments: the relay that holds encrypted drops, the storage providers, the headers, delays
-- and retries of a transfer, the file format GD01 and the wrapping of keys, the manifest of a drop,
-- the tables of the database, the lifecycle of a drop, the bus of progress events, and the release of
-- a paid drop.
--
-- A sender seals a file (internal/crypto), registers a drop at a relay (POST, handleCreate), uploads
-- the sealed bytes in one PUT or in several with Content-Range (internal/transport), and a receiver
-- with the drop's token downloads them (GET) until the drop expires, is deleted, or was served once.
-- The manager (internal/drops) does this over any storage provider: it seals, describes and stores a
-- file, and fetches, opens and compares it again.
--
-- Base, Strings: shared notation; Go strings as lists of bytes; association lists for maps and for
--   the files of a directory; int64 addition with its wrap; strings.TrimSpace, strconv.FormatInt,
--   strconv.ParseInt and encoding/hex.
-- Relay (internal/relay/server.go): Types has the records, Ids validID, Disk the file operations,
--   checkToken, expired and storedBytes, Handlers the HTTP handlers (handleCreate, handlePut,
--   handleGet, handleMeta, handleDelete, sweep, handleStats, reloadTokens).
--   The state is the records ({id}.meta.json), the payloads ({id}.bin), the token index and the
--   counters, with two flags of the data directory that say whether os.Remove fails on records and on
--   payloads, whose errors the source ignores. A handler is a function from the time, the faults of the system calls and the request
--   to a reply and the next state. handleGet releases its lock while it serves, so it is three steps
--   (get_open, get_serve, get_close), and get_serve takes what
--   the open file holds by then; Trace has runs of all steps in any order. Safety, Access,
--   Isolation, Upload, LargestSize, Download, OneTime, Sweep and Create hold the proofs; Cases goes through the
--   branches of handlePut once for all of them, and Files has the lemmas on written files.
-- Transport (internal/transport/transport.go): Copy (CopyWithProgress, HashingReader, HashFile),
--   ContentRange, Backoff, Retry.
-- Storage (internal/storage): Ids is ValidateID and Store the interface Provider, both of provider.go,
--   the latter a record of operations with a record of the laws that a client may use. Memory
--   (memory.go) and Local (local.go) are the providers, each with a module Lawful that fills the laws;
--   Memory's Get takes the mutex twice and is two steps (get_peek, get_finish). Local has the faults
--   of its system calls as an argument, and in its state whether its files can be removed; Copy,
--   Sound and Refused hold proofs on it. Wire and Client (relay.go) are the provider that speaks to a relay.
-- Crypto (internal/crypto/crypto.go): Words the words of encoding/binary, Nonce chunkNonce, Gd01 the
--   loops of SealFile and OpenFile, SingleShot SealBytes and OpenBytes, Wrap WrapFileKey and
--   UnwrapFileKey.
-- Manifest (internal/manifest/manifest.go): Types and New, Validate, Filenames and Signing.
-- Database (internal/database/database.go): a statement is a function on the tables; Migrate works on
--   the database file, and a copy of it may stop half-way. Consistent, History, Listing and Delete
--   hold proofs.
-- Events (internal/events/bus.go): the channels of the subscribers; Order, Sublists and Waiting hold
--   proofs.
-- Drops (internal/drops/manager.go): Types, Manager (the state, setStatus, remember, GetManifest),
--   Locks (the locks of a file key and resolveKey), Prepare and Create, Retrieve, Query (Revoke, Status,
--   ResumeOffset), over the interface Storage.Store. Available, Deliver, Verified, Revoked, Ghost,
--   Prepare.Kept and Prepare.Locked hold proofs. Create and Retrieve are chains of functions, one for what follows each early return.
-- Payments (internal/payments/payments.go): requests, Authorize and AwaitPayment; Check is
--   CheckPayment and ValidateAddress of internal/dero/dero.go. The answers of the daemon are
--   arguments.
-- Examples: the theorems at concrete inputs.
--
-- Parameters: SHA-256, time.Parse, the format of a time and http.ServeContent (Relay.Types.Env);
-- XChaCha20-Poly1305 (Crypto.Aead.Aead), of which only that Open undoes Seal and that a sealed text
-- is 16 bytes longer is used; X25519 (Crypto.Wrap.Exchange), both sides of which get one secret;
-- Ed25519 (Manifest.Signing.Ed25519), which verifies what it has signed; Argon2id and the JSON of a
-- manifest (Drops.Types.Library), with the lengths of keys and that outputs are bytes; what SQLite does
-- to a file (Database.Migrate); the other end of a relay client (Storage.Wire.Net);
-- strings.EqualFold is an argument of the payments. Times are nanoseconds. Tokens, keys, nonces and
-- random delays are arguments.
--
-- Fuel: SealFile's loop has one more than the bytes of the source, as each round but the last takes
-- a full chunk, and OpenFile's loop one more than the bytes behind the magic, as a chunk has at
-- least four; format_nat has one more than the number; the loops of Put in local.go and relay.go have
-- one more than the bytes to store, as each round takes one at least.
--
-- Not modelled: the transport of HTTP, JSON, the errors of reading a directory, temporary
-- files that stay behind, Start, Stop and the sweep's timer, AttachTxid during AwaitPayment, the uptime, the rate limiter, which is
-- float64 arithmetic, overlapping calls of one manager, ListDrops and ListContacts of the database, and the other packages. Records on disk are those that
-- the program writes.
pub mod Base
pub mod Strings
pub mod Examples
pub mod Transport
pub mod Relay
pub mod Storage
pub mod Crypto
pub mod Payments
pub mod Manifest
pub mod Database
pub mod Drops
pub mod Events
