-- ===== src/Http/Request/Refused.antt =====
-- A request that could not be built: http/transfer.rs and http/request.rs.
use xx_url.Common.{ℕ, ◌≡◌, refl, Bytes, Result, err}
use xx_url.Errors.{Error, url, invalid_request}
use xx_url.Http.Library.{HeaderLib}
use xx_url.Http.Request.{insert, header, fetch}
use xx_url.Http.Transfer.{Request, Parts, Connect, transfer}
use xx_url.Io.{BufRead}
use xx_url.Request.{finalize, fail, failed}

module _ {U H W : Type 0} (parts : Parts U H) (io : BufRead W) (lib : HeaderLib H)
    (net : Connect W) where
  -- A request that met an error when it was built.
  fetch_failed :
      (rounds fuel : ℕ) (w : W) (this : Request U H) (e : Error)
      → this.request.url_result ≡ failed e
      → (r : Request U H) × (fetch parts io lib net rounds fuel (w, this) ≡ (err e, (w, r)))
  unfolding fetch transfer finalize
  fetch_failed rounds fuel w this e h = (
    record this { request = record { url_result = failed (url invalid_request) } },
    rw (finalize, h) refl,
  )

  -- A request with a header whose name or value cannot be converted is not sent: its run reports
  -- the error of the conversion, and the world is as it was, so that no connection is opened.
  fetch-header :
      (rounds fuel : ℕ) (w : W) (this : Request U H) (name value : Result Bytes) (e : Error)
      → insert lib name value this.headers ≡ err e
      → (r : Request U H) × (fetch parts io lib net rounds fuel (w, header lib name value this)
          ≡ (err e, (w, r)))
  unfolding header fail
  fetch-header rounds fuel w this name value e h =
      fetch_failed rounds fuel w (header lib name value this) e (rw (header, h) refl)
