-- ===== src/Http/Response/Versions.antt =====
-- http/mod.rs and http/transfer.rs: the texts of the HTTP versions.
use xx_url.Common.{◌≡◌, refl, some}
use xx_url.Errors.{Version, http09, http10, http11, http20, http30}
use xx_url.Http.Response.{as_str, parse_version}
use xx_url.Http.Text.{to_digit}

-- The text of every version is parsed as that version.
parse_version-as_str : (v : Version) → parse_version (as_str v) ≡ some v
unfolding parse_version as_str to_digit
parse_version-as_str http09 = refl
parse_version-as_str http10 = refl
parse_version-as_str http11 = refl
parse_version-as_str http20 = refl
parse_version-as_str http30 = refl
