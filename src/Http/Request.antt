-- ===== src/Http/Request.antt =====
-- http/request.rs, the building of a request in http/transfer.rs, and `fetch` of http/response.rs.
pub mod Refused
use xx_url.Common.{
  ℕ, Bool, true, false, ◌||◌, Option, none, some, Bytes, [], ◌∷◌, equal, if◌then◌else◌, Result, ok,
  err, panic, stuck, M, ◌>>=◌, pure, lift, bind_result,
}
use xx_url.Errors.{Error}
use xx_url.Http.Body
use xx_url.Http.Body.{Body}
use xx_url.Http.Library.{HeaderLib}
use xx_url.Http.Options.{Options, default_options}
use xx_url.Http.Transfer.{Request, Parts, Connect, Payload, RawResponse, head_method, transfer}
use xx_url.Io.{BufRead}
use xx_url.Net.{IpStrategy}
use xx_url.Request
use xx_url.Request.{RequestBase, UrlLib, url_of}

-- The words of the source.
abbrev pub http_scheme : Bytes
http_scheme = 104 ∷ 116 ∷ 116 ∷ 112 ∷ []

abbrev pub https_scheme : Bytes
https_scheme = 104 ∷ 116 ∷ 116 ∷ 112 ∷ 115 ∷ []

abbrev pub get_method : Bytes
get_method = 71 ∷ 69 ∷ 84 ∷ []

abbrev pub post_method : Bytes
post_method = 80 ∷ 79 ∷ 83 ∷ 84 ∷ []

module _ {H : Type 0} (lib : HeaderLib H) where
  -- `Headers::insert`, of what the conversions of the name and the value give.
  unfoldable pub insert : Result Bytes → Result Bytes → H → Result H
  insert name value headers =
      bind_result name (λ n. bind_result value (λ v. ok (lib.insert n v headers)))

module _ {U H : Type 0} where
  unfoldable pub set_port : ℕ → Request U H → Request U H
  set_port port this =
      let options : Options = this.options in
      record this { options = record options { port = port } }

  unfoldable pub set_strategy : IpStrategy → Request U H → Request U H
  set_strategy strategy this =
      let options : Options = this.options in
      record this { options = record options { strategy = strategy } }

  unfoldable pub set_timeout : ℕ → Request U H → Request U H
  set_timeout timeout this =
      let options : Options = this.options in
      record this { options = record options { timeout = some timeout } }

  unfoldable pub set_recvbuf_size : ℕ → Request U H → Request U H
  set_recvbuf_size size this =
      let options : Options = this.options in
      record this { options = record options { recvbuf_size = some size } }

  unfoldable pub set_sendbuf_size : ℕ → Request U H → Request U H
  set_sendbuf_size size this =
      let options : Options = this.options in
      record this { options = record options { sendbuf_size = some size } }

  unfoldable pub payload : Payload → Request U H → Request U H
  payload body this = record this { body = some body }

  module _ (lib : HeaderLib H) where
    -- `Request::new`
    unfoldable pub new : RequestBase U → Bytes → Request U H
    new request method = record {
      options = default_options;
      request = request;
      method = method;
      headers = lib.empty;
      body = none;
    }

    inserted : Request U H → Result H → Request U H
    inserted this (ok headers) = record this { headers = headers }
    inserted this (err e) =
        let base : RequestBase U = this.request in record this { request = Request.fail e base }
    inserted this _ = this

    -- A conversion that fails is the error of the request.
    unfoldable pub header : Result Bytes → Result Bytes → Request U H → Request U H
    unfolding insert inserted
    header name value this = inserted this (insert lib name value this.headers)

    -- A request whose URL has the scheme `secure_scheme` is sent over TLS.
    unfoldable pub secured : UrlLib U → Bytes → Option U → Request U H → Request U H
    secured urls secure_scheme none inner = inner
    secured urls secure_scheme (some u) inner =
        if equal (urls.scheme u) secure_scheme
        then (let options : Options = inner.options in
            record inner { options = record options { secure = true } })
        else inner

    unfoldable pub new_request : UrlLib U → Bytes → Bytes → Request U H
    unfolding new secured
    new_request urls text method =
        let request =
          Request.new urls text (λ scheme. equal scheme http_scheme || equal scheme https_scheme) in
        secured urls https_scheme (url_of request) (new request method)

    -- `get` and `post`
    unfoldable pub get_request : UrlLib U → Bytes → Request U H
    unfolding new_request
    get_request urls text = new_request urls text get_method

    unfoldable pub post_request : UrlLib U → Bytes → Payload → Request U H
    unfolding new_request payload
    post_request urls text body = payload body (new_request urls text post_method)

-- `Response`, whose body reads the connection.
pub record Response (U H W : Type 0) : Type 0 where
  pub response : RawResponse U H
  pub body : Body (Unit {0})

module _ {U H W : Type 0} (parts : Parts U H) (io : BufRead W) (lib : HeaderLib H)
    (net : Connect W) where
  unfoldable pub fetch : ℕ → ℕ → M (W × Request U H) (Response U H W)
  fetch rounds fuel = do
    response ← transfer parts io lib net rounds fuel
    (λ s. (
      bind_result
          (Body.new lib tt (equal s.1.method head_method) response.status response.response_headers)
          (λ body. ok (record { response = response; body = body })),
      s,
    ))
