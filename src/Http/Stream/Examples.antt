-- ===== src/Http/Stream/Examples.antt =====
-- Connections of both kinds at concrete inputs.
use xx_url.Common.{◌≡◌, refl, false, Bytes, [], ◌∷◌, ◌++◌, length, take, drop, ok}
use xx_url.Http.Stream.{
  SocketLib, conn_connection, tls_connection, HttpConn, secure, http_connection, SplitLib,
  secure_reader, secure_writer, http_split,
}
use xx_url.Common.{M, equal, some, none}
use xx_url.Http.Concrete.{Fields, fields}
use xx_url.Http.Request.{https_scheme, get_method, new_request}
use xx_url.Http.Stream.Connecting.{is_secure, get_connection_for, get_connection_for-new_request}
use xx_url.Http.Transfer.{Parts, Request, connect_options}
use xx_url.Net.{ConnectStats, NetLib, connect_stats, connect_to, connect_addrs}
use xx_url.Request as Base
use xx_url.Request.{UrlLib, url_of}
use xx_url.Tls.Client.{ClientLib, connect}
use xx_url.Tls.{TlsConn, recv, tls_connect, connect_loop}
use xx_url.Tls.Concrete.{Socket, Plain, socket, take_short}
use xx_url.Tls.Concrete

-- A socket in memory that takes three bytes at a time.
abbrev in_memory : SocketLib Socket
in_memory = record {
  read = λ n c. (ok (take n c.input), record c { input = drop n c.input });
  write = λ buf c. (ok (length (take 3 buf)), record c { output = c.output ++ take 3 buf });
  write_vectored = λ bufs c. (ok 0, c);
  poll = λ flags c. (ok flags, c);
  shutdown = λ how c. (ok tt, c);
}

abbrev secured : HttpConn Socket Plain
secured = secure (record {
  connection = record { input = 1 ∷ 2 ∷ 3 ∷ []; output = [] };
  tls = record { handshake = 0; incoming = []; ready = 9 ∷ []; pending = [] };
})

-- What is ready is read without the socket.
secured_read :
    ((http_connection
        (conn_connection in_memory false)
        (tls_connection in_memory (socket 3) Concrete.plain 20)
        secured).read
      8 secured).0
    ≡ ok (9 ∷ [])
unfolding http_connection tls_connection recv
secured_read = refl

-- Two halves that both name the whole socket, and a reader that is one of them.
abbrev halves : SplitLib Socket Socket Socket
halves = record { try_split = λ c. ok (c, c); buf_reader = λ c. c }

-- Either half of a split connection has the session, with what is ready in it.
secured_split :
    (s : TlsConn Socket Plain)
    → http_split halves (secure s) ≡ ok (secure_reader s, secure_writer s)
unfolding http_split
secured_split s = refl

-- A world in which one address is found, and any connection is made.
abbrev network : NetLib (Unit {0}) Socket
network = record {
  new_for_addr = λ ip port w. (ok (record { input = 1 ∷ 2 ∷ 3 ∷ []; output = [] }), w);
  connect = λ c ip port w. (ok tt, w);
  check_interrupt = λ w. (ok tt, w);
  timed = λ duration f s. (none, s);
  set_recvbuf_size = λ c size w. (ok tt, w);
  set_sendbuf_size = λ c size w. (ok tt, w);
  set_tcp_nodelay = λ c enable w. (ok tt, w);
  set_tcp_keepalive = λ c enable idle w. (ok tt, w);
  resolve_ips = λ host w. (ok (record { addrs4 = 5 ∷ []; addrs6 = [] }), w);
}

-- A session whose handshake takes two bytes of the peer.
abbrev client : ClientLib (Unit {0}) Bytes Plain
client = record {
  server_name = λ host. ok host;
  new = λ config name. ok (record { handshake = 2; incoming = []; ready = []; pending = [] });
}

-- A URL is its text, and its scheme the first five bytes.
abbrev urls : UrlLib Bytes
urls = record { parse = λ text. some text; parse_error = λ text. 0; scheme = take 5 }

abbrev url_parts : Parts Bytes Fields
url_parts = record {
  host_str = drop 5;
  url_port = λ u. none;
  scheme_of = take 5;
  path_and_query = λ u. [];
  join = λ u location. some location;
  fields = λ h. h;
}

abbrev config : M (ConnectStats (Unit {0})) (Unit {0})
config stats = (ok tt, stats)

abbrev https_url : Bytes
https_url = https_scheme ++ (97 ∷ [])

abbrev before : ConnectStats (Unit {0})
before = record { world = tt; tcp_tries = 0 }

abbrev connection : HttpConn Socket Plain
connection = secure (record {
  connection = record { input = []; output = [] };
  tls = record { handshake = 0; incoming = []; ready = 3 ∷ []; pending = [] };
})

abbrev request : Request Bytes Fields
request = new_request fields urls https_url get_method

request_url : url_of request.request ≡ some https_url
unfolding new_request url_of Base.new
request_url = refl

connection_run :
    get_connection_for url_parts client network
      (socket 3)
      Concrete.plain
      config
      10
      request.options
      https_url
      before
    ≡ (ok connection, record { world = tt; tcp_tries = 1 })
unfolding get_connection_for new_request connect_options connect connect_stats connect_to
    connect_addrs tls_connect connect_loop url_of Base.new
connection_run = refl

get_connection_for-new_request_example :
    is_secure connection ≡ equal (urls.scheme https_url) https_scheme
get_connection_for-new_request_example =
    get_connection_for-new_request url_parts client network (socket 3) Concrete.plain config fields
      urls https_url get_method https_url 10 before (record { world = tt; tcp_tries = 1 })
      connection request_url connection_run
