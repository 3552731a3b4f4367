-- ===== src/Http/Concrete.antt =====
-- A header package over a list of fields. It shows that the hypotheses can be met.
use xx_url.Common.{
  ℕ, ◌+◌, ◌-◌, ◌*◌, ◌≤◌, ◌≡◌, refl, ap, ◌∙◌, arith, Bool, true, false, Option, none, some, Bytes,
  List, [], ◌∷◌, length, take, drop, take-append, drop-append, take_most, leb, ltb, ◌==◌, ◌&&◌,
  if◌then◌else◌, equal, ok,
}
use xx_url.Http.Library.{HeaderLib, position, Searches}
use xx_url.Http.Body.Read.Chunked.{ReadsBuffer}
use xx_url.Http.Body.Read.Length.{IsBounded}
use xx_url.Io.Chunks.{Chunks, chunks}

abbrev pub Fields : Type 0
Fields = List (Bytes × Bytes)

abbrev find : Bytes → Fields → Option Bytes
find name [] = none
find name ((key, value) ∷ more) =
    let rest = find name more in if equal key name then some value else rest

abbrev has : Bytes → Fields → Bool
has name [] = false
has name ((key, value) ∷ more) = let rest = has name more in if equal key name then true else rest

-- A status of three digits; a name or value of any bytes but the empty name.
abbrev status : Bytes → Option ℕ
status (a ∷ (b ∷ (c ∷ []))) = some (((a - 48) * 10 + (b - 48)) * 10 + (c - 48))
status _ = none

abbrev name : Bytes → Option Bytes
name [] = none
name (b ∷ bs) = some (b ∷ bs)

abbrev pub fields : HeaderLib Fields
fields = record {
  name_from = name;
  value_from = some;
  to_str = some;
  status_from = status;
  is_redirection = λ code. leb 300 code && ltb code 400;
  transfer_encoding = 116 ∷ [];
  content_length = 108 ∷ [];
  connection = 99 ∷ [];
  host = 104 ∷ [];
  location = 76 ∷ [];
  empty = [];
  contains_key = has;
  get = find;
  insert = λ key value h. (key, value) ∷ h;
  remove = λ key h. (find key h, h);
  memchr = λ b. position (λ x. x == b);
}

pub fields-Searches : Searches fields.memchr
fields-Searches b bytes = refl

pub chunks-ReadsBuffer : (capacity : ℕ) → ReadsBuffer (chunks capacity)
chunks-ReadsBuffer capacity = record {
  read_front = λ r front rest e some_data. (
    record r { buf = drop (length front) r.buf },
    rw (ap (take (length front)) e ∙ take-append front rest),
    ap (drop (length front)) e ∙ drop-append front rest,
  );
  window = λ buf limit. refl;
}

pub chunks-IsBounded : (capacity : ℕ) → IsBounded (chunks capacity)
chunks-IsBounded capacity = record {
  read_most = most;
  inner_most = most;
  window = λ buf limit. refl;
}
  where
    most :
        (n : ℕ) (r r' : Chunks) (bytes : Bytes)
        → (chunks capacity).read n r ≡ (ok bytes, r')
        → length bytes ≤ n
    most n r r' bytes e =
        let same : take n r.buf ≡ bytes = ground (arith, e) in
        omega (arith, ap length same, take_most n r.buf)
