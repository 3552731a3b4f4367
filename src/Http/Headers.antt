-- ===== src/Http/Headers.antt =====
-- http/mod.rs: `Headers`, over the header map of the http package.
use xx_url.Common.{Bool, false, Option, none, some, Bytes, Result, ok, err}
use xx_url.Errors.{invalid_utf8}
use xx_url.Http.Library.{HeaderLib}

module _ {H : Type 0} (lib : HeaderLib H) where
  -- A key is what `try_into_name` makes of it.
  unfoldable pub contains_key : Result Bytes → H → Bool
  contains_key (ok key) headers = lib.contains_key key headers
  contains_key _ headers = false

  unfoldable pub get : Result Bytes → H → Option Bytes
  get (ok key) headers = lib.get key headers
  get _ headers = none

  unfoldable pub remove : Result Bytes → H → Option Bytes × H
  remove (ok key) headers = lib.remove key headers
  remove _ headers = (none, headers)

  -- With a key that is a name already.
  unfoldable pub get_str : Bytes → H → Result (Option Bytes)
  get_str key headers = elim (lib.get key headers) [
    | none ↦ ok none
    | some value ↦ elim (lib.to_str value) [ none ↦ err invalid_utf8 | some text ↦ ok (some text) ]
  ]
