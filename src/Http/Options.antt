-- ===== src/Http/Options.antt =====
-- http/transfer.rs: the options of a request.
use xx_url.Common.{ℕ, Bool, false, Option, none, ◌*◌}
use xx_url.Errors.{Version, http10, http11}
use xx_url.Net.{IpStrategy, any}

-- Durations are counted in a unit of their own.
pub record Options : Type 0 where
  pub port : ℕ
  pub strategy : IpStrategy
  pub timeout : Option ℕ
  pub recvbuf_size : Option ℕ
  pub sendbuf_size : Option ℕ
  pub secure : Bool
  pub min_version : Version
  pub max_version : Version
  pub follow_redirect : ℕ
  pub maximum_header_size : ℕ

-- `Options::new`
abbrev pub default_options : Options
default_options = record {
  port = 0;
  strategy = any;
  timeout = none;
  recvbuf_size = none;
  sendbuf_size = none;
  secure = false;
  min_version = http10;
  max_version = http11;
  follow_redirect = 5;
  maximum_header_size = 128 * 1024;
}
