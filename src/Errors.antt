-- ===== src/Errors.antt =====
-- The error enums: error.rs, ws/errors.rs, http/error.rs, dns/mod.rs, with the HTTP versions
-- and DNS records that they carry.
use Prim.Native.Nat.{ℕ}
use mathlib.Core.List.{List}
use mathlib.Core.Option.{Option}

-- `http::Version`
pub data Version : Type 0 where
  http09 http10 http11 http20 http30 : Version

-- What the library reads of a question of the simple-dns package: name, type and class.
pub record Query : Type 0 where
  pub qname : List ℕ
  pub qtype : ℕ
  pub qclass : ℕ

-- The data of a resource record: addresses, or another type by its code.
pub data RData : Type 0 where
  a : ℕ → RData
  aaaa : ℕ → RData
  other : ℕ → RData

pub record Record : Type 0 where
  pub name : List ℕ
  pub class : ℕ
  pub rdata : RData

-- The kinds of the core library's errors that the source names.
pub data ErrorKind : Type 0 where
  shutdown unexpected_eof would_block : ErrorKind

pub data UrlError : Type 0 where
  invalid_request : UrlError
  invalid_url : ℕ → UrlError
  invalid_scheme : List ℕ → UrlError
  partial_file : UrlError
  invalid_redirect_url : List ℕ → UrlError
  redirect_forbidden : List ℕ → UrlError
  dns_timed_out : UrlError

pub data HttpError : Type 0 where
  headers_too_long : HttpError
  invalid_status_line : List ℕ → HttpError
  invalid_header_name : List ℕ → HttpError
  invalid_header_value : List ℕ → HttpError
  invalid_header : List ℕ → List ℕ → HttpError
  chunk_too_large : HttpError
  unexpected_version : Version → HttpError

pub data InvalidControl : Type 0 where
  fin_not_set too_long : InvalidControl

pub data WebSocketError : Type 0 where
  server_rejected : WebSocketError
  invalid_client_request : WebSocketError
  handshake_timeout : WebSocketError
  invalid_key : WebSocketError
  invalid_opcode : WebSocketError
  invalid_control_frame : InvalidControl → WebSocketError
  expected_continuation : WebSocketError
  unexpected_continuation : WebSocketError
  server_masked : WebSocketError
  message_too_long : WebSocketError
  user_invalid_control_frame : WebSocketError
  data_type_mismatch : WebSocketError

pub data DnsError : Type 0 where
  no_data : DnsError
  no_records : List Query → Option Record → ℕ → DnsError
  other_dns : ℕ → DnsError

-- `external` is an error of a library below, told apart by a code; the others are this library's.
pub data Error : Type 0 where
  kind : ErrorKind → Error
  url : UrlError → Error
  http : HttpError → Error
  web_socket : WebSocketError → Error
  dns : DnsError → Error
  invalid_utf8 : Error
  no_addresses : Error
  connect_timeout : Error
  external : ℕ → Error
