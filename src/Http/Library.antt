-- ===== src/Http/Library.antt =====
-- What the source takes from the http and memchr packages, whose code is not in this repository.
use xx_url.Common.{ℕ, ◌+◌, ◌≡◌, Bool, Bytes, Option, none, some, ◌==◌, if◌then◌else◌, [], ◌∷◌}
use mathlib.Core.Option

-- `HeaderName`, `HeaderValue`, `StatusCode` and `HeaderMap`. A name stands for its bytes in the
-- spelling of the package, a status code for its number.
pub record HeaderLib (H : Type 0) : Type 0 where
  pub name_from : Bytes → Option Bytes
  pub value_from : Bytes → Option Bytes
  -- `HeaderValue::to_str`
  pub to_str : Bytes → Option Bytes
  pub status_from : Bytes → Option ℕ
  pub is_redirection : ℕ → Bool
  -- The names of `http::header` that the source uses.
  pub transfer_encoding : Bytes
  pub content_length : Bytes
  pub connection : Bytes
  pub host : Bytes
  pub location : Bytes
  pub empty : H
  pub contains_key : Bytes → H → Bool
  pub get : Bytes → H → Option Bytes
  pub insert : Bytes → Bytes → H → H
  pub remove : Bytes → H → Option Bytes × H
  -- `memchr::memchr`
  pub memchr : ℕ → Bytes → Option ℕ

-- `iter().position(found)`
unfoldable pub position : (ℕ → Bool) → Bytes → Option ℕ
position found [] = none
position found (x ∷ xs) =
    let rest = position found xs in if found x then some 0 else Option.map (λ n. n + 1) rest

-- What `memchr` is documented to give: the first place of the byte.
abbrev pub Searches : (ℕ → Bytes → Option ℕ) → Type 0
Searches memchr = (b : ℕ) (bytes : Bytes) → memchr b bytes ≡ position (λ x. x == b) bytes
