-- ===== src/Request.antt =====
-- request.rs: the URL of a request, or the error that building the request met.
use xx_url.Common.{
  ℕ, Bool, true, ◌≡◌, refl, Option, none, some, Bytes, if◌then◌else◌, ok, err, M, arith,
}
use xx_url.Errors.{Error, url, invalid_request, invalid_url, invalid_scheme}

-- What the source takes from the url package: errors of `Url::parse` are told apart by a code.
pub record UrlLib (U : Type 0) : Type 0 where
  pub parse : Bytes → Option U
  pub parse_error : Bytes → ℕ
  pub scheme : U → Bytes

-- `Result<Url>`, which holds no panic.
pub data UrlResult (U : Type 0) : Type 0 where
  valid : U → UrlResult U
  failed : Error → UrlResult U

pub record RequestBase (U : Type 0) : Type 0 where
  pub url_result : UrlResult U

module _ {U : Type 0} where
  unfoldable pub fail : Error → RequestBase U → RequestBase U
  fail error this = record this { url_result = failed error }

  unfoldable pub url_of : RequestBase U → Option U
  url_of this = elim this.url_result [ valid u ↦ some u | failed _ ↦ none ]

  -- The error is handed out once.
  unfoldable pub finalize : M (RequestBase U) U
  finalize this = elim this.url_result [
    | valid u ↦ (ok u, this)
    | failed e ↦ (err e, record this { url_result = failed (url invalid_request) })
  ]

  parsed : UrlLib U → Bytes → Option U → UrlResult U
  parsed lib text none = failed (url (invalid_url (lib.parse_error text)))
  parsed lib text (some u) = valid u

  check_scheme : UrlLib U → (Bytes → Bool) → RequestBase U → Option U → RequestBase U
  unfolding fail
  check_scheme lib scheme_allowed this none = this
  check_scheme lib scheme_allowed this (some u) =
      if scheme_allowed (lib.scheme u)
      then this
      else fail (url (invalid_scheme (lib.scheme u))) this

  unfoldable pub new : UrlLib U → Bytes → (Bytes → Bool) → RequestBase U
  unfolding parsed check_scheme url_of
  new lib text scheme_allowed =
      let this : RequestBase U = record { url_result = parsed lib text (lib.parse text) } in
      check_scheme lib scheme_allowed this (url_of this)

  -- A request whose URL is valid and of an allowed scheme gives that URL as often as it is run, and
  -- stays as it is.
  finalize-new :
      (lib : UrlLib U) (text : Bytes) (scheme_allowed : Bytes → Bool) (u : U)
      → lib.parse text ≡ some u
      → scheme_allowed (lib.scheme u) ≡ true
      → finalize (new lib text scheme_allowed) ≡ (ok u, new lib text scheme_allowed)
  unfolding finalize new
  finalize-new lib text scheme_allowed u e allowed = ground (arith, e, allowed)

  -- The error of a request is reported by the first run, and every later run reports that the
  -- request is invalid.
  finalize-fail :
      (e : Error) (this : RequestBase U)
      → let first = finalize (fail e this) in
        (first.0 ≡ err e) × (finalize first.1 ≡ (err (url invalid_request), first.1))
  unfolding finalize fail
  finalize-fail e this = (refl, refl)
