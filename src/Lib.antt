-- ===== src/Lib.antt =====
-- feed-mux takes market feeds from upstream providers and fans them out: Titan's quotes over a
-- WebSocket, Triton's slots over gRPC and Triton's shreds over UDP go to Redis, where the bots read
-- counters, quote rows and wake events, and to relays on the local host.
--
-- The parts, and the files that model them:
--
--   Config        src/config.rs: the configuration from the environment and its redacted summary.
--                 Child: Secrets.
--   Shred.Parse   src/shred/parse.rs: `parse_data_shred`, from a packet to a data shred.
--   Shred.Reassembly  src/shred/reassembly.rs: `push`, `deshred`, `trim_old_sets` over maps in key
--                 order, as the source's `BTreeMap`s are.
--   Shred.VaultWatch  src/shred/vault_watch.rs: the scan of a batch for vault keys, and the estimate
--                 of its transactions; its parser of a list of vaults is in VaultList.
--   Fanout        src/redis_fanout.rs: a method is the list of the commands that it sends. The
--                 children hold the keys (Keys), the server's interface (Counters) with an instance
--                 (Store), and the laws.
--   Reconnect     src/ws_reconnect.rs: the backoff, the classification of errors and the log lines of a
--                 reconnect.
--   Titan         src/titan_quote.rs in Value, Sizes, Registry, Route, Quote, Board and Message, and
--                 the requests, the session and the loop of src/upstream/titan.rs in Request and
--                 Session.
--   Upstream      src/upstream/triton_shred.rs in TritonShred, src/upstream/triton.rs in Triton, and
--                 the constructors with their log lines, the live states and the statuses of
--                 src/upstream/*.rs in Construct and Live.
--   Relay         the relays on the local host: src/titan_local.rs in TitanClient and
--                 src/triton_local.rs in TritonService; Channel states what they rely on of tokio's
--                 broadcast channel, with the loss of events of a receiver that lags behind.
--   Service       src/lib.rs in Start, with every order of the commands of its tasks in
--                 Start.Tasks; src/http.rs in Http, src/mock.rs in Mock, src/rate_limit.rs in
--                 RateLimit and the poll of src/upstream/mod.rs in Hub.
--   Prelude       Tests, lists, texts, numbers in text, maps.
--
-- How they interact: the UDP loop parses a datagram, pushes the shred, and where a batch comes out
-- scans it and sends the hits through the fan-out. A Titan session registers its requests, marks
-- those that the rate limiter refuses, and gives each binary message to the relay and to the handler,
-- which confirms streams in the registry, puts quotes on the size board and sends rows and counters
-- through the fan-out. The loop around it marks the upstream as down between sessions and backs off.
-- The events that a session gives to its relay reach the clients through the broadcast channel. The
-- start of the program spawns the servers, and by the configuration the mock publisher or the live
-- tasks and the heartbeat; the HTTP endpoints read the flags and counters and use the fan-out.
--
-- Conventions. A byte and a code point are natural numbers, a text is a list of code points, and a
-- machine integer is a natural number with its wrap-around written out; a function that panics
-- returns none. State is passed explicitly: a handler takes the registry and the board and returns
-- them with the commands sent, and a session takes and returns the record `Shared`. The source holds
-- each lock only inside one such step. What the network does is data: a list of messages or of
-- datagrams, the answers of the rate limiter, the errors of sends. A datagram is a list of all the
-- bytes sent, of which the listener receives the first 1232, its buffer's size. The clock is an
-- argument.
--
-- Fuel: only `trim_loop` has it, and starts with the number of the sets, of which each turn removes
-- one. The other loops are structural: over the bytes, the hunt sizes, the messages or the datagrams
-- so far, so a property of an endless loop is one of each of its finite prefixes.
--
-- Parameters: base 58 (bs58), JSON (serde_json), the decoding of MessagePack (rmpv, of whose values
-- the constructors are modelled), the parser of socket addresses, the rate limiter (governor), the
-- WebSocket, gRPC and UDP connections, the broadcast channel (tokio), and the Redis server.
--
-- Not modelled: the other log lines, the closing and accepting of sockets, the routing of requests,
-- the bytes of the requests to Titan, `main` and the set-up of logging. They are input and output,
-- or calls of libraries.
pub mod Prelude
pub mod Config
pub mod Shred
pub mod Fanout
pub mod Reconnect
pub mod Titan
pub mod Upstream
pub mod Relay
pub mod Service
