-- ===== src/Lib.antt =====
-- A model of xx-url, a networking library in Rust, with theorems about its parts. Paths such as
-- ws/stream.rs are below src of the repository.
--
-- WebSockets (src/ws). `Ws.Header` encodes and decodes frame headers (`FrameHeader::write` and
-- `read`, ws/stream.rs) over the packet of `Ws.Wire` (ws/wire.rs). `Ws.Mask` is `mask` of
-- ws/mod.rs, with the split of `align_to_mut` as an argument. `Ws.Shared` is the close state that
-- both halves of a connection share, `Ws.Socket` the connection with its options (ws/conn.rs,
-- ws/request.rs), `Ws.Close` the end of the closing handshake, `Ws.Handshake` the keys and checks
-- of the opening one and `Ws.Handshake.Exchange` its bytes, on the side of the client (`connect`)
-- and of the server (`handle_upgrade`, `accept_websocket`), in ws/handshake.rs, ws/transfer.rs and
-- ws/conn.rs. `Ws.Request` is the request for a connection and `Ws.Options` its options
-- (ws/request.rs), over the HTTP request below; `Ws.Server` takes connections (ws/conn.rs).
-- `Ws.Reader` reads and checks headers, `Ws.Frames` puts messages together out of them, `Ws.Writer`
-- checks and sends frames. A reader, a writer and `Frames` borrow the fields of one connection in
-- the source; here each of their methods takes the whole connection (`WebSocket`) and returns it.
-- `Ws.Split` has the two halves behind `split` as tasks whose calls are interleaved at each wait
-- for the stream.
--
-- HTTP (src/http). `Http.Library` holds what the http and memchr packages give, `Http.Text` the
-- operations of `str`. `Http.Headers` is `Headers` of http/mod.rs; `Http.Lines` reads lines and
-- header lines, `Http.Response` the head of a response, and `Http.Transfer` sends requests and
-- follows redirects (http/transfer.rs), in a world that has one connection at a time;
-- `Http.Options` are its options, and `Http.Request` builds and fetches them (http/request.rs,
-- http/response.rs). `Http.Body` is the state of a body and `Http.Body.Read` its reads
-- (http/body.rs). `Http.Stream` is the box in which a request has its connection, a socket or a TLS
-- connection, and its split (http/stream.rs); `Http.Stream.Connecting` chooses its kind
-- (http/transfer.rs).
--
-- Files, requests and connections. `Request` is request.rs, over the url package. `File` is
-- file/stream.rs and file/request.rs, over the files of the xx-pulse package. `Net` is the part of
-- net/conn.rs that connects to one of the addresses of a host, over the core's sockets; `Net.Conn`
-- its options and `has_peer_hungup`.
--
-- TLS (src/tls). `Tls` drives a session of the rustls package (`Session`, a parameter) over a
-- socket: the loops of the handshake, of reads and of writes of tls/conn.rs. `Tls.Halves` are the
-- loops of a split connection, whose halves take turns with the session under a lock: `lock` is a
-- parameter that may change the session as the other half does. `Tls.Client` makes a connection,
-- `Tls.Certs` is tls/certs.rs.
--
-- Shared data (env.rs). `Env` has the data that is made once and the copy of each thread; in
-- `Env.Shared` calls on any threads are interleaved between their accesses.
--
-- Name resolution (src/dns). `Dns.NameServer` is dns/name_server.rs and the lookup of dns/hosts.rs,
-- over the packets of the simple-dns package; `Dns.Hosts` reads the hosts file (dns/hosts.rs).
-- `Dns.Resolver` is dns/resolver.rs, whose services are asked for both kinds of addresses at once,
-- in whatever interleaving; `Dns.Services` makes the services of the hosts file and of
-- dns/config.rs.
--
-- Shared parts. `Common` has Boolean tests, byte strings, `Result` (values, errors, panics) and the
-- state of methods (`M`), `BigEndian`, `Xor` and `Utf8` (`from_utf8` of the standard library).
-- `Errors` has the error enums of error.rs, ws/errors.rs, http/error.rs and dns/mod.rs.
--
-- Parameters. The readers and connections of the xx-core package are the records `BufRead` and
-- `ConnWrite` of `Io`; what is relied on are the laws `Delivers` and `Buffers`, which the readers
-- of `Io.Memory` and `Io.Chunks` meet. Taking a reader apart and putting it together again is in
-- `UpgradeIo`, with the law `KeepsParts`: the buffer is kept. The other half of a split TLS
-- connection is in the law `HandsOut`: it may queue more, up to what the session owes. The packet
-- of the packet macro is `FramePacket` with the law `HasLayout`. Sizes are 64 bit wide; an
-- addition that could only overflow beyond the size of memory is written without its wrap-around.
--
-- Fuel. A loop that waits for its peer takes fuel, and `stuck` says that it ran out. The theorems
-- name an amount that is enough. `Ws.Frames.Progress` has the laws of a stream whose reads end
-- (`Drains`, `Expires`), for readers whose peer may send anything.
--
-- Not modelled: the constant paths of env.rs; `bytes` and `text` of a response, which are reads of
-- the core library to the end of a body; the sockets' setters that only pass on; the logging, and
-- what only measures time.
pub mod Common
pub mod Errors
pub mod Io
pub mod Http
pub mod Ws
pub mod Net
pub mod Dns
pub mod Tls
pub mod Env
pub mod File
pub mod Request
