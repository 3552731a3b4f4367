-- ===== src/Http/Transfer/Redirects.antt =====
-- http/transfer.rs: what redirects keep.
use xx_url.Common.{
  ℕ, zero, suc, ◌≡◌, refl, sym, ap, arith, true, Bool-cases, inl, inr, Option, none, some, Bytes,
  equal, equal_iff, Result, ok, err, panic, stuck, and_then-ok, bind_result, pure, M,
}
use xx_url.Http.Body
use xx_url.Http.Body.{Body}
use xx_url.Http.Headers.{get_str}
use xx_url.Http.Library.{HeaderLib}
use xx_url.Http.Transfer.{
  Request, Parts, Connect, RawResponse, Payload, head_method, check_target, at_location,
  redirect_of, follow, exchange,
}
use xx_url.Io.{BufRead}

bind_result-ok :
    {A B : Type 0} (m : Result A) (f : A → Result B) (b : B)
    → bind_result m f ≡ ok b
    → (a : A) × (m ≡ ok a) × (f a ≡ ok b)
bind_result-ok (ok a) f b e = (a, refl, e)
bind_result-ok (err _) f b e = absurd (ground (arith, e))
bind_result-ok panic f b e = absurd (ground (arith, e))
bind_result-ok stuck f b e = absurd (ground (arith, e))

module _ {U H W : Type 0} (parts : Parts U H) (io : BufRead W) (lib : HeaderLib H)
    (net : Connect W) where
  -- Every address behind a redirect has the scheme of the request.
  abbrev pub KeepsScheme : U → Option U → Type 0
  KeepsScheme req_url place = (x : U) → place ≡ some x → parts.scheme_of x ≡ parts.scheme_of req_url

  check_target-scheme :
      (req_url u x : U) (location : Bytes) (place : Option U)
      → check_target parts io lib net req_url u location place ≡ ok (some x)
      → parts.scheme_of x ≡ parts.scheme_of req_url
  unfolding check_target
  check_target-scheme req_url u x location none e = absurd (ground (arith, e))
  check_target-scheme req_url u x location (some new_url) e =
      let same : equal (parts.scheme_of new_url) (parts.scheme_of req_url) ≡ true =
        ground (arith, e) in
      let found : new_url ≡ x = ground (arith, same, e) in
      rw (sym found) ((equal_iff (parts.scheme_of new_url) (parts.scheme_of req_url)).0 same)

  at_location-scheme :
      (r : Request U H) (req_url u x : U) (response : RawResponse U H) (location : Option Bytes)
      → at_location parts io lib net r req_url u response location ≡ ok (some x)
      → parts.scheme_of x ≡ parts.scheme_of req_url
  unfolding at_location
  at_location-scheme r req_url u x response none e = absurd (ground (arith, e))
  at_location-scheme r req_url u x response (some l) e =
      let (body, made, target) =
        bind_result-ok
          (Body.new lib tt (equal r.method head_method) response.status response.response_headers)
          (λ body. check_target parts io lib net req_url u l (parts.join u l)) (some x) e in
      check_target-scheme req_url u x l (parts.join u l) target

  redirect_of-scheme :
      (r : Request U H) (req_url u x : U) (response : RawResponse U H)
      → redirect_of parts io lib net r req_url u response ≡ ok (some x)
      → parts.scheme_of x ≡ parts.scheme_of req_url
  unfolding redirect_of
  redirect_of-scheme r req_url u x response e =
      elim (Bool-cases (lib.is_redirection response.status)) [
        | inl redirects ↦
            let led : bind_result (get_str lib lib.location response.response_headers)
                  (at_location parts io lib net r req_url u response)
                ≡ ok (some x) =
              ground (arith, redirects, e) in
            let (location, named, target) =
              bind_result-ok (get_str lib lib.location response.response_headers) _ (some x) led in
            at_location-scheme r req_url u x response location target
        | inr stays ↦ absurd (ground (arith, stays, e))
      ]

  -- However many redirects are followed, if a response comes in the end, then the address that it
  -- comes from has the scheme of the request, if the address before had it.
  pub follow-KeepsScheme :
      (rounds fuel remaining : ℕ) (r : Request U H) (req_url u : U) (redirected : Option U)
      → (s s' : W × Option Payload) (response : RawResponse U H) → KeepsScheme req_url redirected
      → follow parts io lib net rounds fuel remaining r req_url u redirected s ≡ (ok response, s')
      → (x : U) → response.redirected ≡ some x
      → parts.scheme_of x ≡ parts.scheme_of req_url
  unfolding follow
  follow-KeepsScheme rounds fuel zero r req_url u redirected s s' response keeps e =
      let (first, s1, came, ends) =
        and_then-ok (exchange parts io lib net rounds fuel r u s) _ response s' e in
      let same : (record first { redirected = redirected }) ≡ response = ground (arith, ends) in
      rw (sym same) keeps
  follow-KeepsScheme rounds fuel (suc remaining) r req_url u redirected s s' response keeps e =
      let (first, s1, came, more) =
        and_then-ok (exchange parts io lib net rounds fuel r u s) _ response s' e in
      let (next, s2, found, goes_on) =
        and_then-ok (redirect_of parts io lib net r req_url u first, s1) _ response s' more in
      by_next first next s1 s2 (ap (λ (t : Result (Option U) × (W × Option Payload)). t.0) found)
        goes_on
        (λ x t q. follow-KeepsScheme rounds fuel remaining r req_url x (some x) t s' response q)
    where
      by_next :
          (first : RawResponse U H) (next : Option U) (s1 s2 : W × Option Payload)
          → redirect_of parts io lib net r req_url u first ≡ ok next
          → (elim next as (λ _. M (W × Option Payload) (RawResponse U H)) [
            | none ↦ pure (record first { redirected = redirected })
            | some x ↦ follow parts io lib net rounds fuel remaining r req_url x (some x)
          ])
              s2
            ≡ (ok response, s')
          → ((x : U) (t : W × Option Payload)
              → KeepsScheme req_url (some x)
              → follow parts io lib net rounds fuel remaining r req_url x (some x) t
                ≡ (ok response, s')
              → KeepsScheme req_url response.redirected)
          → KeepsScheme req_url response.redirected
      by_next first none s1 s2 found goes_on ih =
          let same : (record first { redirected = redirected }) ≡ response =
            ground (arith, goes_on) in
          rw (sym same) keeps
      by_next first (some x) s1 s2 found goes_on ih =
          let scheme = redirect_of-scheme r req_url u x first found in
          ih x s2 (λ y q. let found_x : x ≡ y = ground (arith, q) in rw (sym found_x) scheme)
            goes_on
