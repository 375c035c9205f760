-- ===== src/Lib.antt =====
-- Go SDK of a realtime messaging service: the client's wire codec, its callback machinery, the
-- connection and the state machine of a channel, modelled after the source.
--
-- The program. A `Client` (realtime.go) keeps one WebSocket `Connection` (connection.go) and a
-- `Channel` per name (channel.go). Frames (wire.go) travel as records of a binary format
-- (binary.go): the connection encodes a client frame per message and splits each inbound message
-- into records, decodes them and hands message frames to their channel. A channel drops repeats,
-- follows the contiguous serial, heals gaps with a fetch and queues what listeners shall see on
-- the connection's dispatcher, which runs callbacks one at a time through emitters (emitter.go).
--
-- The modules.
--   Wire      wire.go: the frames, as records, and the sums of client and server frames.
--   Codec     binary.go: Uvarint is the varint of encoding/binary, Reader the `binReader` with its
--             sticky error, Writer the append helpers, Client and Server the frames of each side,
--             Messages and Members what batches and bundles hold, Records the framing of several
--             records in one WebSocket message. A Go string or byte slice is a list of bytes.
--   Emitter   emitter.go: `emitter` with its listener maps; Registry is its abstract view, one list
--             of registrations, and Refinement relates the two; Dispatcher is `dispatcher`, with its
--             callers and drain goroutines as interleaved steps.
--   Channel   channel.go: the record and its effects; Convert turns frames into messages, Dedup is
--             the delivered-message cache, Cursor the contiguous serial and its gaps, Batch the
--             publish buffer, Lifecycle the state machine, Deliver the inbound path and the gap fill,
--             and Steps every event that can reach a channel, in any order. An operation returns
--             the channel and the calls it makes on the connection, as effects; one that waits for
--             an answer is split there (attach and attach_answered, detach and detach_answered,
--             start_backfill and backfill).
--
--   Errors    the states of the connection and the errors that it gives to its callers.
--   Connection  connection.go: the record of a connection and its effects (writes, answers, timers,
--             state events). Lifecycle sets the state, Requests and Publishes keep who waits, Inbound
--             hands a frame to its caller or channel, Subscriptions remembers what a reconnect
--             restores, KeepAlive and Backoff are the timers, Closing ends a socket or the connection,
--             Handshake is one connect attempt, Endpoint the URL. Events is all that can happen to a
--             connection, in any order. Ledger is an account of who waits and who was answered, Frame
--             what an operation leaves alone, Recovery follows the
--             publishes through an outage, and Rejection and Messages are about lost sockets and
--             whole WebSocket messages.
--             A socket is a number; an operation that waits is split there; a publish, a flush and
--             the end of a handshake are one step each, though they let go of the lock in between.
--   Presence  presence.go: what was entered, the listeners (an Emitter) and the server's watcher. Run
--             interleaves its calls, each split where it lets go of a lock: a registration and its
--             ensureWatching, a removal and the emitter's hook, a refusal and giving up.
--   Client    realtime.go: the merge and the limits of BatchPublish; Registry is Channels, with the
--             names of wire.go.
--   Crypto    crypto.go: the checks of a key, and the envelope of an encrypted payload.
--   Auth      auth.go: API keys and tokens, over parameters for JSON, base64 and HMAC.
--
-- Numbers. uint64 values are native numbers below 2 ^ 64, which the round trips ask of a frame;
-- Go's int is ℤ, and conversions between the two are two's complement (Common/Int).
--
-- Loops are structural, but for two: `splitBinaryRecords` has the length of the message as fuel, since
-- each round takes at least one byte; and the decimal digits of a member index have fuel 20, since an
-- int has at most 19 digits. Time is a number of nanoseconds of the monotonic clock.
--
-- Not modelled: the WebSocket, the clock and goroutine scheduling, whose reports are events of the
-- connection, HTTP (rest.go), AES-GCM, base64, HMAC and JSON, which are parameters or whose texts
-- travel as bytes, logging, and the packages of Go's standard library.
pub mod Common
pub mod Wire
pub mod Errors
pub mod Codec
pub mod Emitter
pub mod Channel
pub mod Auth
pub mod Connection
pub mod Presence
pub mod Client
pub mod Crypto
