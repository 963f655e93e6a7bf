-- ===== src/Lib.antt =====
-- A model of the HMMP Python SDK (hmmp/), the client of a binary protocol for service discovery and
-- configuration. The SDK writes frames to a connection and reads frames from it; the bodies of the
-- frames are laid out by the data classes; caches, circuit breakers and a backpressure controller
-- react to what the server sends.
--
-- Files and the code they model (paths from the repository's root):
-- - Base: helpers. Base.Errors has the exceptions (hmmp/exceptions.py and the standard library's) and
--   the result of code that may raise; Base.Dict is Python's dict in insertion order; Base.Keys has
--   str as its code points, Base.Decimal str(int), Base.Bits the bit operations as remainders.
-- - Constants, Constants.Flag, Constants.OpCode: hmmp/constants.py.
-- - Codec: hmmp/codec.py. Writer is BinaryWriter (a writer is its buffer, a method returns the new
--   buffer), Reader is BinaryReader (a reader is the bytes that are left; a read returns them beside
--   its result, also when it raises). Utf8 and Endian are str.encode, bytes.decode and struct of the
--   standard library. Metrics is pack_metrics_pack and unpack_metrics_pack, Hash is fnv1a_64 and
--   compute_metadata_hash. RoundTrip, Strings, MetricsLaws and HashLaws have the proofs.
-- - Frame: hmmp/frame.py. Header is FrameHeader, Encoder is FrameEncoder.encode, Decoder is
--   FrameDecoder. Metadata has the library msgpack as a parameter (MsgPack): packing may raise, and
--   unpacking what was packed gives the dict back. RoundTrip, Flags, Whole and Trailing have the
--   proofs.
-- - Governance: hmmp/governance.py. Block has the entries and to_bytes, Parse has from_bytes and
--   build_governance_block; Total, RoundTrip, Whole and Prefix have the
--   proofs.
-- - CircuitBreaker: hmmp/circuit_breaker.py. Breaker is CircuitBreaker, Registry is
--   CircuitBreakerRegistry. Events has the calls of a breaker as events, runs of them, and the
--   documented state machine as a relation. Invariant, Probing, Tripping, Instances and Replay have the
--   proofs.
-- - Backpressure: hmmp/backpressure.py. Controller is BackpressureController; Delays and Recovery
--   have the proofs.
-- - Models: hmmp/models.py. Instance, Snapshot, Config, Notices and Requests are its data classes;
--   Platform has the standard library's ipaddress and the 32-bit float format as a parameter. The
--   modules under Models.Laws have the proofs.
-- - Cache: hmmp/cache.py. Snapshots is ServiceSnapshotCache, Configs is ConfigCache (its keys are
--   those of Keys), Canary is CanaryVersionVector, Keys has the keys and file names. Freshness, Files
--   and Keys have the proofs.
-- - Connection: hmmp/connection.py. Stream is the reading side of HMMPConnection (the socket is the
--   bytes that will still arrive and what happens behind them: the peer closes, or a read times out),
--   Transport its connect and send_frame, Router is FrameRouter with its pending requests, Dispatch the
--   same with its handlers. Framing, Encoded, StreamIds and Responses have the proofs.
-- - Crypto: hmmp/crypto.py. Primitives has HMAC, HKDF, AES-GCM and MD5 as a parameter, Signatures the
--   signatures and derived keys, Payload the encrypted configuration bodies. RoundTrip and Acceptance
--   have the proofs.
-- - Balancer: hmmp/load_balancer.py. Weights is the effective weight of AdaptiveLoadBalancer, Selection
--   its choice, Router is TrafficColorRouter. Monotone, Draws, Permits (with the registry of circuit
--   breakers) and Colors have the proofs.
-- - Collector: hmmp/metrics.py. Metrics is MetricsCollector; Average and Report have the proofs.
-- - Admin: hmmp/admin.py. Tenants, Credentials and Listings are the operations of AdminService over the
--   client's _send_request, Responses the parsers of the responses; OpCodes, RoundTrip and Listed have
--   the proofs.
-- - Interceptor: hmmp/interceptor.py. Frames has GovernanceFrameInterceptor and CompositeFrameInterceptor;
--   Signals has the calls that change an interceptor, and the proofs.
-- - Client: hmmp/client.py. State has ClientConfig and the fields of HMMPClient, Session the part that all
--   requests share and _send_request, Bodies the bodies of the handshake, Handshake connect and what it
--   calls, Services the registration and discovery of instances, Configs and Chunks the configurations,
--   Notices the handlers of notifications, Deliveries what a frame makes them do, Lifecycle heartbeats,
--   _reconnect, disconnect and migration. Unread, Waiting, Requests, Subscriptions, Chunks, Backoff and
--   Decryption have the proofs.
-- - Tests: concrete inputs for the theorems.
--
-- How the code corresponds to the model. An object is a record of its fields, and a method returns
-- the new record beside its result. A method that reads the clock takes the time in whole
-- milliseconds as an argument. Byte strings are lists of numbers. Fields of a fixed width keep the
-- reduction (BinaryWriter) or the range check (struct) that the code has. Floats: the failure rate
-- is a fraction, a delay is counted in eighths of a millisecond (all delays that occur are multiples
-- of it), percentages are in hundredths, and an instance's weight is an abstract float. In the balancer
-- weights are counted in parts of 1.0 and the factors in parts of 100,000, so that products are exact;
-- in the collector the moving average and the usages are fractions. Rounding of floats is not modelled.
--
-- Fuel: the loop of GovernanceBlock.from_bytes takes the length of the input as fuel, enough
-- since each round reads three bytes at least; str(int) takes one round more than the number,
-- which has fewer digits. HMMPConnection.read_frame_loop takes fuel, and one round more than
-- there are frames is enough; its handler is an argument, with a state of its own, and may raise.
-- Where the client waits, what happens meanwhile is an argument: the events of the frame router
-- until a request's timeout, the rounds of _reconnect and of the heartbeats, and the looks of an
-- assembly of chunks at what has arrived; the theorems hold for all of them. All other loops are
-- structural.
--
-- Not modelled: logging, status dictionaries for display, the asynchronous transport and its event
-- loop, the length of the client's timeouts, what is written to the socket (whether writing raises is an
-- argument), and the re-exports of hmmp/__init__.py. Of the metrics collector the reading of /proc/meminfo
-- is a parameter, as is psutil.
pub mod Base
pub mod Codec
pub mod Constants
pub mod Frame
pub mod CircuitBreaker
pub mod Governance
pub mod Backpressure
pub mod Models
pub mod Cache
pub mod Connection
pub mod Crypto
pub mod Balancer
pub mod Admin
pub mod Collector
pub mod Client
pub mod Interceptor
mod Tests
