-- ===== src/Ws/Request.antt =====
-- ws/request.rs and WebSocket::new of ws/conn.rs: the request for a WebSocket connection.
use xx_url.Common.{ℕ, Result, Bytes, [], ◌∷◌, ◌||◌, equal, ok, M, ◌>>=◌, true}
use xx_url.Http.Library.{HeaderLib}
use xx_url.Http.Request as HttpRequest
use xx_url.Http.Request.{get_method, secured}
use xx_url.Http.Transfer.{Parts, Connect, Payload, Request}
use xx_url.Net.{IpStrategy}
use xx_url.Io.{BufRead}
use xx_url.Request as Base
use xx_url.Request.{UrlLib, UrlResult, url_of}
use xx_url.Ws.Handshake.{CryptoLib, Words}
use xx_url.Ws.Handshake.Exchange.{ClientIo, WsRequest, connect}
use xx_url.Ws.Options
use xx_url.Ws.Socket.{WebSocket, new_options, from}

-- The schemes of the source.
abbrev pub ws_scheme : Bytes
ws_scheme = 119 ∷ 115 ∷ []

abbrev pub wss_scheme : Bytes
wss_scheme = 119 ∷ 115 ∷ 115 ∷ []

module _ {U H : Type 0} where
  unfoldable pub set_handshake_timeout : ℕ → WsRequest U H → WsRequest U H
  set_handshake_timeout timeout this = record this {
    options = Options.set_handshake_timeout timeout this.options;
  }

  unfoldable pub set_max_message_length : ℕ → WsRequest U H → WsRequest U H
  set_max_message_length max this = record this {
    options = Options.set_max_message_length max this.options;
  }

  unfoldable pub set_close_timeout : ℕ → WsRequest U H → WsRequest U H
  set_close_timeout timeout this = record this {
    options = Options.set_close_timeout timeout this.options;
  }

  -- The methods that are those of the HTTP request in it.
  abbrev on_inner : (Request U H → Request U H) → WsRequest U H → WsRequest U H
  on_inner f this = record this { inner = f this.inner }

  unfoldable pub header : HeaderLib H → Result Bytes → Result Bytes → WsRequest U H → WsRequest U H
  header lib name value = on_inner (HttpRequest.header lib name value)

  unfoldable pub set_port : ℕ → WsRequest U H → WsRequest U H
  set_port port = on_inner (HttpRequest.set_port port)

  unfoldable pub set_strategy : IpStrategy → WsRequest U H → WsRequest U H
  set_strategy strategy = on_inner (HttpRequest.set_strategy strategy)

  unfoldable pub set_timeout : ℕ → WsRequest U H → WsRequest U H
  set_timeout timeout = on_inner (HttpRequest.set_timeout timeout)

  unfoldable pub set_recvbuf_size : ℕ → WsRequest U H → WsRequest U H
  set_recvbuf_size size = on_inner (HttpRequest.set_recvbuf_size size)

  unfoldable pub set_sendbuf_size : ℕ → WsRequest U H → WsRequest U H
  set_sendbuf_size size = on_inner (HttpRequest.set_sendbuf_size size)

  unfoldable pub payload : Payload → WsRequest U H → WsRequest U H
  payload body = on_inner (HttpRequest.payload body)

  -- `open`; a URL that is refused is the error of the first run.
  unfoldable pub open_request : HeaderLib H → UrlLib U → Bytes → WsRequest U H
  open_request lib urls text =
      let request =
        Base.new urls text (λ scheme. equal scheme ws_scheme || equal scheme wss_scheme) in
      record {
        inner =
            secured lib urls wss_scheme (url_of request) (HttpRequest.new lib request get_method);
        options = new_options;
      }

module _ (crypto : CryptoLib) (words : Words) {U H W : Type 0} (parts : Parts U H) (io : BufRead W)
    (lib : HeaderLib H) (net : Connect W) (client : ClientIo W U H) where
  -- `WebSocket::new`; the connection is the one of the world.
  unfoldable pub run : ℕ → ℕ → M (W × WsRequest U H) (WebSocket (Unit {0}))
  run rounds fuel = connect crypto words parts io lib net client rounds fuel >>= λ _.
      λ s. (ok (from tt s.1.options true), s)
