-- ===== src/Lib.antt =====
-- shark-socket is a multi-protocol socket gateway in Go: transports (TCP, UDP, WebSocket, HTTP, QUIC,
-- CoAP, gRPC-Web) accept peers and read frames or messages, a runtime that they share keeps the
-- sessions and runs the plugins on each accept, message and close, and an infrastructure layer gives
-- caches, stores, metrics and circuit breakers. The LwM2M protocol is built on CoAP messages.
--
-- What is modelled, by file:
--
-- - Base: names that all files share; lists, bytes and bit masks on native numbers; Go's maps as
--   association lists (Base/Maps) and tables in shards (Base/Shards); (value, error) as `Result`.
-- - Runtime/Sessions: internal/runtime/session_manager.go. The record has the counter and the 64
--   tables; `register`, `unregister`, `get`, `snapshot`, `broadcast` and `close_all` are the methods.
--   Table has the manager with a single table that it is compared with, Registered the invariant of
--   the tables, Listed the snapshots, Closing, Sending and Ranging the methods that call each session.
-- - Runtime/Chain: internal/runtime/plugin_chain.go. `append`, `start_all`, `stop_loop` (StopAll),
--   `on_accept`, `on_message` and `on_close` give the calls that they make on the plugins, and the
--   error. Order is about the sort, Rollback about plugins that fail or panic.
-- - Runtime/Gateway: internal/runtime/gateway.go, by the calls that it makes: Starting and Stopping are
--   about Start and Stop, Registering about Register. It calls the functions of Runtime/Chain.
-- - Plugin/RateLimit: internal/plugin/ratelimit.go. `on_message`, `sweep` and `set_limit` over the 32
--   shards, for any type of key and any hash. Stamps has what each does to a key's stamps, Windows
--   the limiter that remembers everything, Bound the messages in a stretch of time.
-- - Plugin/AutoBan: internal/plugin/autoban.go; Bans is about how long a ban holds.
-- - Transport/Quota: internal/transport/shared/quota.go. `acquire` and `release` over shards of any
--   type of address. Held has the invariant by the slots that are held, Ledger what calls keep of it.
-- - Transport/Backoff: internal/transport/shared/backoff.go, the delays between retries.
-- - Transport/Proxy: internal/transport/shared/proxyproto.go. Reading, Lines and Fronts are about one
--   version, Headers about the modes; Binary, Words and Textual have
--   what a proxy writes.
-- - Tcp/Framer: internal/transport/tcp/framer.go. LengthPrefix, Line, FixedSize and Raw have the
--   framers of these names, each with its plain and, where there is one, its buffered reader.
-- - Coap/Message: internal/transport/coap/message.go. `parse` and `marshal` with their helpers;
--   Header, Options and Sorted have the lemmas of the option headers and of their order, Layout and
--   Accepts the datagrams that `parse` takes, Truncated one that is cut short.
-- - Coap/Block: internal/transport/coap/blockwise.go. Codec is about the option, Transfer about the
--   block that is served for a request.
-- - Coap/Observe: internal/transport/coap/observe.go, the registry of observers: Steps, Removal and
--   Leaving are about one call, Calls, Answers and Growth about what a server sees.
-- - Coap/Server: internal/transport/coap/server.go, what `handleCoAPMessage` does with a datagram and
--   the tables; Once is about duplicates, Sequence about the Observe option, Fetch about a client that
--   fetches a body in blocks (the client is none of the repository's: it does what RFC 7959 says).
-- - Coap/Retransmit: internal/transport/coap/retransmit.go, and `pendingNotify` of server.go.
-- - Lwm2m/Tlv: internal/protocol/lwm2m/codec_tlv.go. Records has the bytes of a whole
--   record, Decode and RoundTrip are about the decoder and about both directions.
-- - Grpcweb/Framing: internal/transport/grpcweb/framing.go. Frames is about the frames of a body,
--   Trailer about the status message.
-- - Infra/Cache: internal/infra/cache/cache.go; Expiry is about what a sweep leaves.
-- - Infra/Breaker: internal/infra/circuitbreaker/circuitbreaker.go.
--
-- How the code is modelled. A method that holds one lock for its whole body, or claims its slot by
-- compare-and-swap while it holds a shard's lock, is one step of a record. A clock, a hash, a random
-- draw and the callbacks of users (sessions, plugins, the guarded function) are arguments; a callback
-- ends by returning, by an error or by a panic. Bytes are numbers, and a lemma asks for less than 256
-- where it needs that; conversions to a width are written as remainders. int is 64 bits wide.
--
-- Loops over bytes run on fuel: the length of the input, which is enough since each round takes a
-- byte; where the model could run out of it, it ends with an error of its own, `stuck`, and the
-- theorems on termination or on results show that it does not. `close_all` runs on rounds, and two
-- are enough where no session is registered meanwhile.
--
-- Not modelled: sockets, TLS, DTLS and HTTP stacks, goroutines and timers, logs and metrics, error
-- texts (an error keeps its kind), the texts of addresses, floating point values, and the
-- parts of the repository that are not named above (the UDP, WebSocket, HTTP and QUIC transports,
-- the worker pools and acceptors, the admin listener, the other plugins, stores and
-- pub-sub, the LwM2M client and server, the application's configuration, commands and scripts).
pub mod Base
pub mod Coap
pub mod Grpcweb
pub mod Infra
pub mod Lwm2m
pub mod Plugin
pub mod Runtime
pub mod Tcp
pub mod Transport
