-- ===== src/Http/Transfer.antt =====
-- http/transfer.rs: a request, its redirects, and the head of the response.
pub mod Head
pub mod Redirects
mod Examples
use xx_url.Common.{
  ℕ, zero, suc, Bool, true, false, not, ◌&&◌, Option, none, some, Bytes, List, [], ◌∷◌, ◌++◌, ◌==◌,
  if◌then◌else◌, equal, Result, ok, err, panic, stuck, M, ◌>>=◌, ◌>>◌, pure, lift, bind_result,
}
use xx_url.Errors.{url, invalid_redirect_url, redirect_forbidden, Version, http09, http11}
use xx_url.Http.Body
use xx_url.Http.Body.{Body}
use xx_url.Http.Headers.{contains_key, get_str}
use xx_url.Http.Library.{HeaderLib}
use xx_url.Http.Lines.{try_into_value}
use xx_url.Http.Options.{Options}
use xx_url.Http.Response.{parse_response, as_str}
use xx_url.Io.{BufRead}
use xx_url.Net.{ConnectOptions, with_resolver}
use xx_url.Request.{RequestBase, finalize}

-- A payload: bytes, or a stream by what it still gives.
pub data Payload : Type 0 where
  bytes : Bytes → Payload
  stream : Bytes → Payload

pub record Request (U H : Type 0) : Type 0 where
  pub options : Options
  pub request : RequestBase U
  pub method : Bytes
  pub headers : H
  pub body : Option Payload

-- What the source takes from the url package, and of the header map its fields in their order.
pub record Parts (U H : Type 0) : Type 0 where
  pub host_str : U → Bytes
  pub url_port : U → Option ℕ
  pub scheme_of : U → Bytes
  -- from the path to the end of the query
  pub path_and_query : U → Bytes
  pub join : U → Bytes → Option U
  pub fields : H → List (Bytes × Bytes)

-- A world `W` with one connection at a time, which `BufRead W` reads.
pub record Connect (W : Type 0) : Type 0 where
  pub connect : Bool → ConnectOptions → M W (Unit {0})
  pub write_all : Bytes → M W (Unit {0})
  pub check_interrupt : M W (Unit {0})
  pub flush : M W (Unit {0})

pub record RawResponse (U H : Type 0) : Type 0 where
  pub status : ℕ
  pub version : Version
  pub response_headers : H
  pub redirected : Option U

-- "HEAD"
abbrev pub head_method : Bytes
head_method = 72 ∷ 69 ∷ 65 ∷ 68 ∷ []

abbrev crlf : Bytes
crlf = 13 ∷ 10 ∷ []

-- `port` of the URL or of the options; 0 stands for the default one.
unfoldable pub port_of : Option ℕ → Options → ℕ
port_of none options =
    if options.port == 0 then (if options.secure then 443 else 80) else options.port
port_of (some port) options = if port == 0 then (if options.secure then 443 else 80) else port

module _ {U H : Type 0} (parts : Parts U H) where
  -- The options of `get_connection_for`.
  unfoldable pub connect_options : Options → U → ConnectOptions
  unfolding port_of
  connect_options options u = record (with_resolver (parts.host_str u) 0) {
    port = port_of (parts.url_port u) options;
    strategy = options.strategy;
    timeout = options.timeout;
    recvbuf_size = options.recvbuf_size;
    sendbuf_size = options.sendbuf_size;
    tcp_nodelay = true;
    tcp_keepalive = some 60;
  }

  pub request_line : Version → Request U H → U → Bytes
  request_line http09 r u = r.method ++ (32 ∷ (parts.path_and_query u ++ crlf))
  request_line version r u =
      r.method ++ (32 ∷ (parts.path_and_query u ++ (32 ∷ (as_str version ++ crlf))))

  pub header_lines : List (Bytes × Bytes) → Bytes
  header_lines [] = []
  header_lines ((name, value) ∷ more) = name ++ (58 ∷ (32 ∷ (value ++ (crlf ++ header_lines more))))

  -- The head of a request, up to the empty line.
  unfoldable pub head_of : Version → Request U H → U → Bytes
  unfolding request_line header_lines
  head_of version r u = request_line version r u ++ (header_lines (parts.fields r.headers) ++ crlf)

  module _ {W : Type 0} (io : BufRead W) (lib : HeaderLib H) (net : Connect W) where
    abbrev put_payload :
        {A : Type 0} → Option Payload → Result A × W → Result A × (W × Option Payload)
    put_payload payload (result, w) = (result, (w, payload))

    abbrev on_world : {A : Type 0} → M W A → M (W × Option Payload) A
    on_world f s = put_payload s.1 (f s.0)

    -- A stream is empty behind the request that sent it.
    send_body : M (W × Option Payload) (Unit {0})
    send_body (w, none) = (ok tt, (w, none))
    send_body (w, some (bytes b)) =
        put_payload (some (bytes b)) ((do net.write_all b; net.check_interrupt) w)
    send_body (w, some (stream b)) =
        put_payload (some (stream [])) ((do net.write_all b; net.check_interrupt) w)

    unfoldable pub send_request : Request U H → Version → U → M (W × Option Payload) (Unit {0})
    unfolding send_body
    send_request r version u = do
      on_world (net.write_all (head_of version r u))
      send_body
      on_world net.flush

    abbrev put_headers : {A : Type 0} → Result A × (W × H) → Result (A × H) × W
    put_headers (ok a, (w, h)) = (ok (a, h), w)
    put_headers (err e, (w, h)) = (err e, w)
    put_headers (panic, (w, h)) = (panic, w)
    put_headers (stuck, (w, h)) = (stuck, w)

    -- One round of the loop, up to the head of the response.
    unfoldable pub exchange : ℕ → ℕ → Request U H → U → M (W × Option Payload) (RawResponse U H)
    exchange rounds fuel r u = do
      on_world (net.connect r.options.secure (connect_options r.options u))
      send_request r http11 u
      _ ← on_world io.fill
      ((status, version), headers) ←
          on_world (λ w. put_headers (parse_response io lib rounds fuel r.options (w, lib.empty)))
      pure (record {
        status = status;
        version = version;
        response_headers = headers;
        redirected = none;
      })

    check_target : U → U → Bytes → Option U → Result (Option U)
    check_target req_url u location none = err (url (invalid_redirect_url location))
    check_target req_url u location (some new_url) =
        if equal (parts.scheme_of new_url) (parts.scheme_of req_url)
        then ok (some new_url)
        else err (url (redirect_forbidden (parts.scheme_of new_url)))

    -- A body is made and dropped, and the place is joined to the URL.
    at_location : Request U H → U → U → RawResponse U H → Option Bytes → Result (Option U)
    unfolding check_target
    at_location r req_url u response none = ok none
    at_location r req_url u response (some location) =
        bind_result
          (Body.new lib tt (equal r.method head_method) response.status response.response_headers)
          (λ body. check_target req_url u location (parts.join u location))

    -- Where a response leads to, if it is a redirection that names a place.
    unfoldable pub redirect_of : Request U H → U → U → RawResponse U H → Result (Option U)
    unfolding at_location
    redirect_of r req_url u response =
        if lib.is_redirection response.status
        then bind_result (get_str lib lib.location response.response_headers)
            (at_location r req_url u response)
        else ok none

    -- The loop, by the redirects that remain.
    unfoldable pub follow :
        ℕ → ℕ → ℕ → Request U H → U → U → Option U → M (W × Option Payload) (RawResponse U H)
    follow rounds fuel zero r req_url u redirected = do
      response ← exchange rounds fuel r u
      pure (record response { redirected = redirected })
    follow rounds fuel (suc remaining) r req_url u redirected = do
      response ← exchange rounds fuel r u
      next ← lift (redirect_of r req_url u response)
      elim next [
        | none ↦ pure (record response { redirected = redirected })
        | some new_url ↦ follow rounds fuel remaining r req_url new_url (some new_url)
      ]

    -- The header `Host`, where the request has none.
    unfoldable pub with_host : Request U H → U → Result (Request U H)
    with_host r u =
        if contains_key lib (ok lib.host) r.headers
        then ok r
        else bind_result (try_into_value lib (parts.host_str u))
            (λ value. ok (record r { headers = lib.insert lib.host value r.headers }))

    abbrev put_body :
        Request U H
        → Result (RawResponse U H) × (W × Option Payload)
        → Result (RawResponse U H) × (W × Request U H)
    put_body r (ok response, (w, body)) = (ok response, (w, record r { body = body }))
    put_body r (err e, (w, body)) = (err e, (w, r))
    put_body r (panic, (w, body)) = (panic, (w, r))
    put_body r (stuck, (w, body)) = (stuck, (w, r))

    transfer_to :
        ℕ
        → ℕ
        → Result U
        → Result (Request U H)
        → Request U H
        → W
        → Result (RawResponse U H) × (W × Request U H)
    transfer_to rounds fuel (ok u) (ok r') r w =
        let taken : Request U H = record r' { body = none } in
        put_body taken (follow rounds fuel r'.options.follow_redirect taken u u none (w, r'.body))
    transfer_to rounds fuel (ok u) (err e) r w = (err e, (w, r))
    transfer_to rounds fuel (err e) _ r w = (err e, (w, r))
    transfer_to rounds fuel _ _ r w = (panic, (w, r))

    -- The body is given back to the request when the transfer succeeds.
    unfoldable pub transfer : ℕ → ℕ → M (W × Request U H) (RawResponse U H)
    unfolding with_host transfer_to
    transfer rounds fuel (w, r) =
        let (found, base) = finalize r.request in
        let r' : Request U H = record r { request = base } in
        transfer_to rounds fuel found (bind_result found (with_host r')) r' w
