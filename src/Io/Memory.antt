-- ===== src/Io/Memory.antt =====
-- A reader over a list of bytes, all of them buffered. It shows that the laws can be met.
use xx_url.Common.{
  min, ◌==◌, ℕ, true, length-append, ◌<◌, ◌≡◌, refl, List, [], ◌∷◌, ◌++◌, Bytes, Option, none, some,
  Result, ok, err, M, length, drop, take, take-append, drop-append, leb, if◌then◌else◌, arith,
}
use xx_url.Common.BigEndian.{from_be}
use xx_url.Errors.{kind, unexpected_eof}
use xx_url.Io.{BufRead}
use xx_url.Io.Delivery.{Delivers}

-- All of `n` bytes, or the value for an early end.
abbrev exactly : {A : Type 0} → ℕ → (Bytes → A) → Result A → M Bytes A
exactly n found missing r =
    if leb n (length r) then (ok (found (take n r)), drop n r) else (missing, [])

abbrev pub at_end : Bytes → Result (Option Bytes)
at_end [] = ok none
at_end (_ ∷ _) = err (kind unexpected_eof)

abbrev pub memory : BufRead Bytes
memory = record {
  buffer = λ r. r;
  capacity = λ r. length r;
  fill = λ r. (ok 0, r);
  consume = drop;
  discard = λ r. [];
  read = λ n r. (ok (take n r), drop n r);
  read_inner = λ n r. (ok (take n r), drop n r);
  read_fully = λ n r. (ok (take n r), drop n r);
  try_read_type = λ n r. exactly n some (at_end r) r;
  read_into = λ buf limit. if min buf limit == 0 then none else some (min buf limit);
  read_be = λ n r. exactly n from_be (err (kind unexpected_eof)) r;
}

leb-length : {A : Type 0} (front rest : List A) → leb (length front) (length (front ++ rest)) ≡ true
leb-length front rest = ground (arith, length-append front rest)

exactly-enough :
    {A : Type 0} (found : Bytes → A) (missing : Result A) (front rest : Bytes)
    → exactly (length front) found missing (front ++ rest) ≡ (ok (found front), rest)
exactly-enough found missing front rest =
    rw (leb-length front rest, take-append front rest, drop-append front rest)

exactly-end : (n : ℕ) → 0 < n → exactly {A = Option Bytes} n some (ok none) [] ≡ (ok none, [])
exactly-end n h = ground arith

pub memory-Delivers : Delivers memory (λ r. r)
memory-Delivers = record {
  read_type = λ r front rest e. (rest, rw e (exactly-enough some _ front rest), refl);
  read_type_end = λ r n h e. ([], rw e (exactly-end n h), refl);
  read_number = λ r front rest e. (rest, rw e (exactly-enough from_be _ front rest), refl);
  window = λ buf limit. refl;
  read_full =
      λ r front rest e. (rest, rw (e, take-append front rest, drop-append front rest), refl);
}
