-- ===== src/Http/Transfer/Examples.antt =====
-- The theorems about redirects at concrete inputs.
use xx_url.Common.{◌≡◌, refl, arith, none, some, Bytes, [], ◌∷◌, ◌++◌, take, ok}
use xx_url.Common.Utf8.{from_utf8, is_utf8}
use xx_url.Errors.{http11}
use xx_url.Http.Body.{new, transfer_of, is_bodyless}
use xx_url.Http.Concrete.{Fields, fields}
use xx_url.Http.Headers.{get_str}
use xx_url.Http.Library.{position}
use xx_url.Http.Lines.{
  read_headers_limited, read_header_line_limited, read_line_in_place, find_line, header_of,
  parse_header, strip_line, try_into_name, try_into_value,
}
use xx_url.Http.Options.{default_options}
use xx_url.Http.Response.{
  parse_response, read_status, fill_prefix, parse_status_line, parse_version, from_u32, number,
}
use xx_url.Http.Text.{
  split, split_once, strip_last, trim, trim_start, drop_spaces, space_front, space_back, to_digit,
}
use xx_url.Http.Transfer.{
  Request, Parts, Connect, RawResponse, follow, exchange, redirect_of, send_request,
}
use xx_url.Http.Transfer.Redirects.{follow-KeepsScheme}
use xx_url.Io.Chunks.{Chunks, chunks as pieces}
use xx_url.Request.{valid}

abbrev piece : Bytes → Chunks
piece buf = record { buf = buf; coming = [] }

-- URLs whose first byte is the scheme, and where a location is a whole URL.
abbrev url_parts : Parts Bytes Fields
url_parts = record {
  host_str = λ u. u;
  url_port = λ u. none;
  scheme_of = take 1;
  path_and_query = λ u. u;
  join = λ u location. some location;
  fields = λ h. h;
}

abbrev connected : Connect Chunks
connected = record {
  connect = λ secure options w. (ok tt, w);
  write_all = λ bytes w. (ok tt, w);
  check_interrupt = λ w. (ok tt, w);
  flush = λ w. (ok tt, w);
}

abbrev request_of : Request Bytes Fields
request_of = record {
  options = default_options;
  request = record { url_result = valid (104 ∷ 65 ∷ []) };
  method = 71 ∷ [];
  headers = [];
  body = none;
}

-- A redirection to "hB", and then a response that is none.
abbrev redirect_bytes : Bytes
redirect_bytes =
    (72 ∷ 84 ∷ 84 ∷ 80 ∷ 47 ∷ 49 ∷ 46 ∷ 49 ∷ 32 ∷ 51 ∷ 48 ∷ 50 ∷ 10 ∷ [])
    ++ ((76 ∷ 58 ∷ 104 ∷ 66 ∷ 10 ∷ 10 ∷ [])
        ++ (72 ∷ 84 ∷ 84 ∷ 80 ∷ 47 ∷ 49 ∷ 46 ∷ 49 ∷ 32 ∷ 50 ∷ 48 ∷ 48 ∷ 10 ∷ 10 ∷ []))

abbrev final_response : RawResponse Bytes Fields
final_response = record {
  status = 200;
  version = http11;
  response_headers = [];
  redirected = some (104 ∷ 66 ∷ []);
}

follow_run :
    follow url_parts
      (pieces 64)
      fields
      connected
      3
      1
      5
      request_of
      (104 ∷ 65 ∷ [])
      (104 ∷ 65 ∷ [])
      none
      (piece redirect_bytes, none)
    ≡ (ok final_response, (piece [], none))
unfolding follow exchange redirect_of send_request parse_response read_status fill_prefix
    parse_status_line parse_version from_u32 number read_headers_limited read_header_line_limited
    read_line_in_place find_line header_of parse_header strip_line try_into_name try_into_value
    split split_once strip_last trim trim_start drop_spaces space_front space_back to_digit get_str
    new transfer_of is_bodyless position from_utf8 is_utf8
follow_run = refl

follow-KeepsScheme_example :
    url_parts.scheme_of (104 ∷ 66 ∷ []) ≡ url_parts.scheme_of (104 ∷ 65 ∷ [])
follow-KeepsScheme_example =
    follow-KeepsScheme url_parts (pieces 64) fields connected 3 1 5 request_of (104 ∷ 65 ∷ [])
      (104 ∷ 65 ∷ []) none (piece redirect_bytes, none) (piece [], none) final_response
      (λ x e. absurd (ground (arith, e))) follow_run (104 ∷ 66 ∷ []) refl
