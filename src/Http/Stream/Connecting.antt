-- ===== src/Http/Stream/Connecting.antt =====
-- get_connection_for of http/transfer.rs: which kind of connection a request gets.
use xx_url.Common.{
  ◌||◌, ℕ, ◌≡◌, refl, sym, ap, ◌∙◌, arith, Bool, true, false, Bool-cases, inl, inr, Option, none,
  some, Bytes, equal, if◌then◌else◌, ok, M, ◌>>=◌, pure, and_then-ok,
}
use xx_url.Http.Library.{HeaderLib}
use xx_url.Http.Options.{Options}
use xx_url.Http.Request.{https_scheme, http_scheme, new, secured, new_request}
use xx_url.Http.Stream.{HttpConn, plain, secure}
use xx_url.Http.Transfer.{Request, Parts, connect_options}
use xx_url.Net.{ConnectStats, NetLib, connect_stats}
use xx_url.Request as Base
use xx_url.Request.{UrlLib, RequestBase, url_of}
use xx_url.Tls.{ConnLib, Session}
use xx_url.Tls.Client.{ClientLib, connect}

abbrev pub is_secure : {C T : Type 0} → HttpConn C T → Bool
is_secure (plain _) = false
is_secure (secure _) = true

module _ {U H F Name W C T : Type 0} (parts : Parts U H) (client : ClientLib F Name T)
    (net : NetLib W C) (conn : ConnLib C) (session : Session T)
    (get_tls_client_config : M (ConnectStats W) F) where
  -- The new connection is put in its box.
  unfoldable pub get_connection_for : ℕ → Options → U → M (ConnectStats W) (HttpConn C T)
  get_connection_for fuel options u =
      let connecting = connect_options parts options u in
      if options.secure
      then (connect client net conn session fuel connecting get_tls_client_config >>= λ s.
          pure (secure s))
      else (connect_stats net connecting >>= λ c. pure (plain c))

  get_connection_for-kind :
      (fuel : ℕ) (options : Options) (u : U) (stats stats' : ConnectStats W) (c : HttpConn C T)
      → get_connection_for fuel options u stats ≡ (ok c, stats')
      → is_secure c ≡ options.secure
  unfolding get_connection_for
  get_connection_for-kind fuel options u stats stats' c e =
      let connecting = connect_options parts options u in
      let of_tls = connect client net conn session fuel connecting get_tls_client_config stats in
      let of_conn = connect_stats net connecting stats in
      elim (Bool-cases options.secure) [
        | inl y ↦
            let (s, t, _, boxed) =
              and_then-ok of_tls (λ s. pure (secure s)) c stats' (sym (rw y refl) ∙ e) in
            let same : secure s ≡ c = ground (arith, boxed) in rw (sym same, y) refl
        | inr n ↦
            let (d, t, _, boxed) =
              and_then-ok of_conn (λ d. pure (plain d)) c stats' (sym (rw n refl) ∙ e) in
            let same : plain d ≡ c = ground (arith, boxed) in rw (sym same, n) refl
      ]

  module _ (lib : HeaderLib H) where
    secured-request :
        (urls : UrlLib U) (u : Option U) (inner : Request U H)
        → (secured lib urls https_scheme u inner).request ≡ inner.request
    unfolding secured
    secured-request urls none inner = refl
    secured-request urls (some u) inner = elim (Bool-cases (equal (urls.scheme u) https_scheme)) [
      | inl y ↦ rw y refl
      | inr n ↦ rw n refl
    ]

    secured-secure :
        (urls : UrlLib U) (u : U) (inner : Request U H)
        → inner.options.secure ≡ false
        → (secured lib urls https_scheme (some u) inner).options.secure
          ≡ equal (urls.scheme u) https_scheme
    unfolding secured
    secured-secure urls u inner off = elim (Bool-cases (equal (urls.scheme u) https_scheme)) [
      | inl y ↦ rw y refl
      | inr n ↦ rw n off
    ]

    -- A request that was built for a text whose URL `u` is valid and allowed: the connection for
    -- it, if one is made, is a TLS connection exactly if the scheme of the URL is https, whatever
    -- the method.
    pub get_connection_for-new_request :
        (urls : UrlLib U) (text method : Bytes) (u : U) (fuel : ℕ) (stats stats' : ConnectStats W)
        (c : HttpConn C T)
        → url_of (new_request lib urls text method).request ≡ some u
        → get_connection_for fuel (new_request lib urls text method).options u stats
          ≡ (ok c, stats')
        → is_secure c ≡ equal (urls.scheme u) https_scheme
    unfolding new_request new
    get_connection_for-new_request urls text method u fuel stats stats' c e connected =
        let r = new_request lib urls text method in
        let base : RequestBase U =
          Base.new urls text (λ scheme. equal scheme http_scheme || equal scheme https_scheme) in
        let inner : Request U H = new lib base method in
        let built : url_of base ≡ some u =
          ap url_of (sym (secured-request urls (url_of base) inner)) ∙ e in
        let flag : (secured lib urls https_scheme (url_of base) inner).options.secure
            ≡ equal (urls.scheme u) https_scheme =
          rw built (secured-secure urls u inner refl) in
        get_connection_for-kind fuel r.options u stats stats' c connected ∙ flag
