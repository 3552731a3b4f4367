-- ===== src/Ws/Handshake/Prepared/Examples.antt =====
-- A request of a client, at a server: the theorem at a concrete request.
use xx_url.Common.{none, Bytes, [], ◌∷◌, ◌++◌, reverse, drop, some, ok}
use xx_url.Errors.{http11, url, invalid_request}
use xx_url.Http.Concrete.{Fields}
use xx_url.Http.Options.{default_options}
use xx_url.Http.Transfer.{Request, Parts, Connect, head_of}
use xx_url.Io.Chunks.{Chunks}
use xx_url.Request.{failed}
use xx_url.Ws.Handshake.{web_socket_version}
use xx_url.Ws.Handshake.Concrete.{named, real_words, letters}
use xx_url.Ws.Handshake.Exchange.{ClientIo, WsRequest}
use xx_url.Ws.Socket.{new_options}

-- URLs are their paths, at the host "x"; the fields in the order in which they were inserted.
abbrev url_parts : Parts Bytes Fields
url_parts = record {
  host_str = λ u. 120 ∷ [];
  url_port = λ u. none;
  scheme_of = λ u. [];
  path_and_query = λ u. u;
  join = λ u location. some location;
  fields = reverse;
}

abbrev offline : Connect Bytes
offline = record {
  connect = λ secure options w. (ok tt, []);
  write_all = λ bytes w. (ok tt, w);
  check_interrupt = λ w. (ok tt, w);
  flush = λ w. (ok tt, w);
}

abbrev client : ClientIo Bytes Bytes Fields
client = record { new_key = λ w. (letters, w); timeout = λ duration f s. (none, s) }

abbrev request : WsRequest Bytes Fields
request = record {
  inner = record {
    options = default_options;
    request = record { url_result = failed (url invalid_request) };
    method = real_words.get_method;
    headers = [];
    body = none;
  };
  options = new_options;
}

abbrev sent : Request Bytes Fields
sent = record (request.inner) {
  headers =
      (named.host, 120 ∷ [])
      ∷ ((real_words.key_name, letters)
          ∷ ((real_words.version_name, web_socket_version)
              ∷ ((real_words.upgrade_name, real_words.websocket_text)
                  ∷ ((named.connection, real_words.upgrade_text) ∷ []))));
}

-- The bytes of the request behind the first one, which is a G.
abbrev sent_bytes : Bytes
sent_bytes = drop 1 (head_of url_parts http11 sent (47 ∷ [])) ++ (7 ∷ [])

-- The peer sends it at once, with a byte behind it.
abbrev peer : Chunks
peer = record { buf = []; coming = (71, sent_bytes) ∷ [] }
