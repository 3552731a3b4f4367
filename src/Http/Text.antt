-- ===== src/Http/Text.antt =====
-- The operations of the standard library on `str` that the source uses, on the bytes of the text.
use xx_url.Common.{
  ℕ, zero, suc, ◌+◌, ◌-◌, ◌*◌, ◌^◌, Bool, ◌&&◌, ◌||◌, Option, none, some, Bytes, List, [], ◌∷◌,
  reverse, drop, ltb, leb, ◌==◌, if◌then◌else◌, equal, length, map,
}

-- `split_once`: the text before the first `sep` and behind it.
unfoldable pub split_once : ℕ → Bytes → Option (Bytes × Bytes)
split_once sep [] = none
split_once sep (b ∷ bs) =
    let rest = split_once sep bs in
    if b == sep
    then some ([], bs)
    else elim rest [ none ↦ none | some halves ↦ some (b ∷ halves.0, halves.1) ]

-- `split(sep)`: at least one piece.
unfoldable pub split : ℕ → Bytes → Bytes × List Bytes
split sep [] = ([], [])
split sep (b ∷ bs) =
    let rest = split sep bs in if b == sep then ([], rest.0 ∷ rest.1) else (b ∷ rest.0, rest.1)

-- `if let Some(ln) = line.strip_suffix(last) { line = ln; }`
unfoldable pub strip_last : ℕ → Bytes → Bytes
strip_last last [] = []
strip_last last (b ∷ []) = if b == last then [] else b ∷ []
strip_last last (b ∷ (c ∷ bs)) = b ∷ strip_last last (c ∷ bs)

-- The characters of white space in Unicode, by their bytes in UTF-8.
abbrev space_one : ℕ → Bool
space_one b = (leb 9 b && leb b 13) || b == 32

abbrev space_two : ℕ → ℕ → Bool
space_two a b = a == 0xc2 && (b == 0x85 || b == 0xa0)

-- The last bytes of those that begin with E2 80.
abbrev space_punctuation : ℕ → Bool
space_punctuation c = (leb 0x80 c && leb c 0x8a) || (c == 0xa8 || (c == 0xa9 || c == 0xaf))

abbrev space_three : ℕ → ℕ → ℕ → Bool
space_three a b c =
    (a == 0xe2 && ((b == 0x80 && space_punctuation c) || (b == 0x81 && c == 0x9f)))
    || ((a == 0xe1 && (b == 0x9a && c == 0x80)) || (a == 0xe3 && (b == 0x80 && c == 0x80)))

-- How many bytes of white space a text begins with, at most one character; 0 for none.
unfoldable pub space_front : Bytes → ℕ
space_front [] = 0
space_front (a ∷ []) = if space_one a then 1 else 0
space_front (a ∷ (b ∷ [])) = if space_one a then 1 else if space_two a b then 2 else 0
space_front (a ∷ (b ∷ (c ∷ _))) =
    if space_one a then 1 else if space_two a b then 2 else if space_three a b c then 3 else 0

-- The same for the end of a text, which is given in reverse.
unfoldable pub space_back : Bytes → ℕ
space_back [] = 0
space_back (a ∷ []) = if space_one a then 1 else 0
space_back (b ∷ (a ∷ [])) = if space_one b then 1 else if space_two a b then 2 else 0
space_back (c ∷ (b ∷ (a ∷ _))) =
    if space_one c then 1 else if space_two b c then 2 else if space_three a b c then 3 else 0

-- Drops characters while there are some; the first argument is at least the length.
unfoldable pub drop_spaces : (Bytes → ℕ) → ℕ → Bytes → Bytes
drop_spaces space zero bs = bs
drop_spaces space (suc n) bs =
    let rest = drop_spaces space n (drop (space bs) bs) in if space bs == 0 then bs else rest

unfoldable pub trim_start : Bytes → Bytes
trim_start bs = drop_spaces space_front (length bs) bs

unfoldable pub trim : Bytes → Bytes
trim bs =
    let front = trim_start bs in reverse (drop_spaces space_back (length front) (reverse front))

abbrev pub to_lower : ℕ → ℕ
to_lower b = if leb 65 b && leb b 90 then b + 32 else b

unfoldable pub eq_ignore_ascii_case : Bytes → Bytes → Bool
eq_ignore_ascii_case a b = equal (map to_lower a) (map to_lower b)

-- The value of a digit below `radix`, which is at most 16.
unfoldable pub to_digit : ℕ → ℕ → Option ℕ
to_digit radix b =
    let value =
      if leb 48 b && leb b 57
      then b - 48
      else if leb 97 b && leb b 102
      then b - 87
      else if leb 65 b && leb b 70
      then b - 55
      else 16 in
    if ltb value radix then some value else none

-- The digits behind a number; `none` where one is no digit or the number leaves 64 bits.
unfoldable pub parse_digits : ℕ → ℕ → Bytes → Option ℕ
parse_digits radix acc [] = some acc
parse_digits radix acc (b ∷ bs) = elim (to_digit radix b) [
  | none ↦ none
  | some d ↦
      let next = acc * radix + d in if ltb next (2 ^ 64) then parse_digits radix next bs else none
]

-- `u64::from_str_radix` and `str::parse::<u64>`: a `+` may stand before the digits.
unfoldable pub from_str_radix : ℕ → Bytes → Option ℕ
from_str_radix radix [] = none
from_str_radix radix (b ∷ []) = parse_digits radix 0 (b ∷ [])
from_str_radix radix (b ∷ (c ∷ bs)) =
    if b == 43 then parse_digits radix 0 (c ∷ bs) else parse_digits radix 0 (b ∷ (c ∷ bs))
