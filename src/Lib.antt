-- ===== src/Lib.antt =====
-- A model of xray-lite, a VLESS proxy server with the Reality and XHTTP transports.
--
-- A client's connection is accepted by the server (src/server.rs), which may first take a PROXY
-- header off it. The Reality transport gathers the TLS ClientHello, checks who sent it, and either
-- serves TLS or hands the connection to a fallback destination. Inside TLS, directly or as the body
-- of HTTP/2 streams (XHTTP), the client sends a VLESS request, which names a target; the bytes
-- behind it are relayed.
--
-- Files:
-- - Prelude and its children: lists over native numbers, bytes, results that can panic (Outcome),
--   readers of a buffer (Read), rules for readers that do not panic (Safe), that end (Ends) and
--   for what they give (Gives), and UTF-8. A string is the list of its bytes.
-- - Handler: src/handler.rs. `serve_vless` takes what the calls of the session answer (an `Env`, in
--   Handler.World) and gives what the session does, in order, and how it ends. Handler.Datagrams
--   has the two tasks that relay UDP.
-- - Server: src/server.rs. `handle_client` up to the transport, `PrefixedStream`, and the
--   conversion of the configuration. Server.Permits has the accept loop as a step relation.
-- - Vless: src/protocol/vless. `Address.decode`, `Request.decode` and their encoders are the methods
--   of those names; a buffer is passed in and comes back with the result, after an error too.
-- - ProxyProtocol: src/protocol/proxy_protocol.rs; `parse_v1`, `parse_v2` and their parts.
-- - Sniffer: src/protocol/sniffer.rs; the loops are recursive functions of the position.
-- - Reality.HelloParser: src/transport/reality/hello_parser.rs. Reality.Record, ClientHello and
--   ServerHello: src/transport/reality/tls.rs. Reality.Auth: auth.rs beside it. Reality.Crypto:
--   crypto.rs. Reality.Stream: stream.rs. Reality.CertFetch: cert_fetch.rs. Reality.Accept:
--   server_rustls.rs, `decide` for what `accept` does with the gathered bytes. Reality.Server:
--   the constructors (server.rs and server_rustls.rs), `accept` and the certificate.
--   Reality.Handshake: handshake.rs, the older handshake, with `perform` in its child Perform.
--   Reality.Inject: rustls-reality/rustls/src/reality.rs from
--   the repository's root, the file that the repository added to its copy of rustls.
-- - Xhttp.Grpc: src/transport/xhttp/grpc.rs. Xhttp.Shaping, Xhttp.Uplink,
--   Xhttp.Downlink, Xhttp.Routing, Xhttp.Sessions and Xhttp.Watchdog: h2.rs beside it; Sessions has
--   the session table, and Watchdog the loop over requests, as step relations.
-- - Config: src/config/mod.rs, and Config.Validator: src/config/validator.rs.
-- - Network: src/network/connection.rs; Network.Joined has both directions of the relay.
-- The files named Tests hold runs at concrete inputs.
--
-- Loops over a buffer are recursive on fuel, the length of the buffer and one more: each round
-- takes a byte or more. An error `out_of_fuel` or a `none` stands for a lack of fuel, which is no
-- result of the program. Casts that truncate are written out, as is a panic: an index, a slice or a
-- read out of range. Where the test right before it or a fixed length puts an index or a slice in
-- range, it may be written without, as in the record loops of Reality.Stream, Reality.Handshake and
-- Reality.CertFetch and in the frames of Handler.Datagrams.
--
-- Parameters of the model, because they are not code of the repository: HMAC, HKDF, AEAD, X25519,
-- base64 and hex, the parsers of UUIDs and of IPv6 text, the printing of IPv6 addresses, the cache
-- and the generation of certificates, random numbers, what the calls of a session answer, and what
-- the transport below answers to a poll.
--
-- Not modelled: the making of sockets, timers but for the answers that they give, the HTTP/2 and TLS
-- libraries, the copying of bytes to the fallback destination, the placeholder certificates
-- (src/transport/reality/cert_gen.rs), the prototypes beside it, the loading of kernel programs
-- (src/xdp.rs), the command lines, and rustls-reality apart from the file named above, which is a
-- copy of another project.
pub mod Prelude
pub mod Handler
pub mod Server
pub mod Vless
pub mod ProxyProtocol
pub mod Sniffer
pub mod Reality
pub mod Xhttp
pub mod Config
pub mod Network
