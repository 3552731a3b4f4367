-- ===== src/Http/Lines/Visible.antt =====
-- http/transfer.rs: header lines of visible bytes, and what they mean.
use xx_url.Common.{
  reverse, ℕ, zero, suc, ◌+◌, ◌-◌, ◌≤◌, ◌<◌, ◌≡◌, ◌≢◌, refl, sym, ap, ◌∙◌, arith, true, false, some,
  Bytes, List, [], ◌∷◌, ◌++◌, ◌==◌, length, leb, map, length-append, All, ok,
}
use mathlib.Core.List.{reverse-cons, reverse-reverse}
use xx_url.Common.Utf8.{from_utf8-ascii}
use xx_url.Http.Library.{HeaderLib}
use xx_url.Http.Lines.{HeaderLine, parse_header, try_into_name, try_into_value}
use xx_url.Http.Lines.Buffered.{IsLine, collect, strip_last-append}
use xx_url.Http.Text.{
  strip_last, split_once, trim, trim_start, drop_spaces, space_front, space_back,
}

-- Bytes of ASCII that end no line, and those that are no space either.
abbrev pub IsPlain : Bytes → Type 0
IsPlain = All (λ b. (b < 128) × (b == 10 ≡ false))

abbrev pub IsVisible : Bytes → Type 0
IsVisible = All (λ b. (32 < b) × (b < 127))

pub IsVisible-IsPlain : (bs : Bytes) → IsVisible bs → IsPlain bs
IsVisible-IsPlain [] h = tt
IsVisible-IsPlain (b ∷ bs) h = ((omega (arith, h.0), ground (arith, h.0)), IsVisible-IsPlain bs h.1)

pub All-append : (P : ℕ → Type 0) (xs ys : Bytes) → All P xs → All P ys → All P (xs ++ ys)
All-append P [] ys h k = k
All-append P (x ∷ xs) ys h k = (h.0, All-append P xs ys h.1 k)

All-weaken : (P Q : ℕ → Type 0) (xs : Bytes) → ((b : ℕ) → P b → Q b) → All P xs → All Q xs
All-weaken P Q [] f h = tt
All-weaken P Q (x ∷ xs) f h = (f x h.0, All-weaken P Q xs f h.1)

pub IsPlain-IsLine : (line : Bytes) → IsPlain line → IsLine (line ++ (13 ∷ []))
IsPlain-IsLine line h = record {
  one_line = All-append _ line (13 ∷ []) (All-weaken _ _ line (λ b k. k.1) h) (refl, tt);
  utf8 = from_utf8-ascii ((line ++ (13 ∷ [])) ++ (10 ∷ [])) (
      All-append _ (line ++ (13 ∷ [])) (10 ∷ [])
        (All-append _ line (13 ∷ []) (All-weaken _ _ line (λ b k. k.0) h) (omega arith, tt))
        (omega arith, tt));
}

-- A space in front of visible bytes is trimmed.
space_front-visible : (bs : Bytes) → IsVisible bs → space_front bs ≡ 0
unfolding space_front
space_front-visible [] h = refl
space_front-visible (a ∷ []) h = ground (arith, h.0)
space_front-visible (a ∷ (b ∷ [])) h = ground (arith, h.0)
space_front-visible (a ∷ (b ∷ (c ∷ bs))) h = ground (arith, h.0)

drop_spaces-visible : (n : ℕ) (bs : Bytes) → IsVisible bs → drop_spaces space_front n bs ≡ bs
unfolding drop_spaces
drop_spaces-visible zero bs h = refl
drop_spaces-visible (suc n) bs h = rw (space_front-visible bs h) refl

space_front-space : (bs : Bytes) → space_front (32 ∷ bs) ≡ 1
unfolding space_front
space_front-space [] = refl
space_front-space (a ∷ []) = refl
space_front-space (a ∷ (b ∷ bs)) = refl

pub trim_start-space : (bs : Bytes) → IsVisible bs → trim_start (32 ∷ bs) ≡ bs
unfolding trim_start drop_spaces
trim_start-space bs h = rw (space_front-space bs) (drop_spaces-visible (length bs) bs h)

abbrev pub field : Bytes → Bytes → ℕ → HeaderLine
field name value size = record { name = name; value = some value; read = size }

-- The line of a header, without its end.
abbrev pub field_line : Bytes × Bytes → Bytes
field_line (name, value) = name ++ (58 ∷ (32 ∷ value))

split_once-name :
    (name rest : Bytes)
    → All (λ b. b == 58 ≡ false) name
    → split_once 58 (name ++ (58 ∷ rest)) ≡ some (name, rest)
unfolding split_once
split_once-name [] rest h = refl
split_once-name (b ∷ name) rest h = rw (h.0, split_once-name name rest h.1) refl

trim_start-visible : (bs : Bytes) → IsVisible bs → trim_start bs ≡ bs
unfolding trim_start
trim_start-visible bs h = drop_spaces-visible (length bs) bs h

space_back-visible : (bs : Bytes) → IsVisible bs → space_back bs ≡ 0
unfolding space_back
space_back-visible [] h = refl
space_back-visible (a ∷ []) h = ground (arith, h.0)
space_back-visible (a ∷ (b ∷ [])) h = ground (arith, h.0)
space_back-visible (a ∷ (b ∷ (c ∷ bs))) h = ground (arith, h.0)

drop_back-visible : (n : ℕ) (bs : Bytes) → IsVisible bs → drop_spaces space_back n bs ≡ bs
unfolding drop_spaces
drop_back-visible zero bs h = refl
drop_back-visible (suc n) bs h = rw (space_back-visible bs h) refl

reverse-IsVisible : (bs : Bytes) → IsVisible bs → IsVisible (reverse bs)
reverse-IsVisible [] h = tt
reverse-IsVisible (b ∷ bs) h =
    rw (reverse-cons b bs) (All-append _ (reverse bs) (b ∷ []) (reverse-IsVisible bs h.1) (h.0, tt))

trim-visible : (bs : Bytes) → IsVisible bs → trim bs ≡ bs
unfolding trim
trim-visible bs h =
    rw (trim_start-visible bs h) (
      rw (drop_back-visible (length bs) (reverse bs) (reverse-IsVisible bs h)) (reverse-reverse bs))

abbrev pub sent_line : Bytes × Bytes → Bytes
sent_line f = field_line f ++ (13 ∷ [])

abbrev pub fields_size : List (Bytes × Bytes) → ℕ
fields_size [] = 0
fields_size (f ∷ fs) = length (field_line f) + 2 + fields_size fs

not_blank : (line : Bytes) → line ≢ [] → strip_last 13 (line ++ (13 ∷ [])) ≢ []
not_blank line full z = full (sym (strip_last-append 13 line) ∙ z)

field_line-full : (f : Bytes × Bytes) → field_line f ≢ []
field_line-full ([], value) z = absurd (ground (arith, z))
field_line-full (b ∷ name, value) z = absurd (ground (arith, z))

pub sent_lines-full :
    (fs : List (Bytes × Bytes)) → All (λ line. strip_last 13 line ≢ []) (map sent_line fs)
sent_lines-full [] = tt
sent_lines-full (f ∷ fs) = (not_blank (field_line f) (field_line-full f), sent_lines-full fs)

-- What a header needs to be sent in a line and read again.
pub record IsField {H : Type 0} (lib : HeaderLib H) (f : Bytes × Bytes) : Type 0 where
  pub named : lib.name_from f.0 ≡ some f.0
  pub valued : lib.value_from f.1 ≡ some f.1
  pub visible_name : IsVisible f.0
  pub visible_value : IsVisible f.1
  pub one_name : All (λ b. b == 58 ≡ false) f.0

module _ {H : Type 0} (lib : HeaderLib H) where
  parse_header-field :
      (f : Bytes × Bytes) (n : ℕ)
      → IsField lib f
      → parse_header lib (field_line f) n ≡ ok (field f.0 f.1 n)
  unfolding parse_header try_into_name try_into_value
  parse_header-field (name, value) n h = rw (split_once-name name (32 ∷ value) h.one_name) (
      rw (trim-visible name h.visible_name) (
        rw (try_into_name, h.named)
          (rw (trim_start-space value h.visible_value) (rw (try_into_value, h.valued) refl))))

  -- A line that can be parsed goes into the headers, and is counted.
  pub collect_line :
      (limit n : ℕ) (line name value : Bytes) (lines : List Bytes) (h : H)
      → parse_header lib line (length (line ++ (13 ∷ [])) + 1) ≡ ok (field name value n)
      → n ≤ limit
      → collect lib limit ((line ++ (13 ∷ [])) ∷ lines) h
        ≡ collect lib (limit - n) lines (lib.insert name value h)
  unfolding collect
  collect_line limit n line name value lines h parsed fits =
      let enough : leb n limit ≡ true = ground arith in
      rw (collect, strip_last-append 13 line, parsed, enough) refl

  abbrev pub insert_all : List (Bytes × Bytes) → H → H
  insert_all [] h = h
  insert_all (f ∷ fs) h = insert_all fs (lib.insert f.0 f.1 h)

  -- The lines of fields mean those fields.
  pub collect_fields :
      (limit : ℕ) (fs : List (Bytes × Bytes)) (h : H)
      → All (IsField lib) fs
      → fields_size fs ≤ limit
      → collect lib limit (map sent_line fs) h ≡ (ok tt, insert_all fs h)
  unfolding collect
  collect_fields limit [] h good fits = refl
  collect_fields limit (f ∷ fs) h good fits =
      collect_line limit (length (field_line f) + 2) (field_line f) f.0 f.1 (map sent_line fs) h
        (parse_header-field f _ good.0
          ∙ ap (λ n. ok (field f.0 f.1 n)) (omega (arith, length-append (field_line f) (13 ∷ []))))
        (omega arith)
      ∙ collect_fields (limit - (length (field_line f) + 2)) fs (lib.insert f.0 f.1 h) good.1
          (omega arith)

  pub sent_lines-IsLine :
      (fs : List (Bytes × Bytes)) → All (IsField lib) fs → All IsLine (map sent_line fs)
  sent_lines-IsLine [] good = tt
  sent_lines-IsLine (f ∷ fs) good = (
    IsPlain-IsLine (field_line f) (
        All-append _ f.0 (58 ∷ (32 ∷ f.1)) (IsVisible-IsPlain f.0 good.0.visible_name)
          ((omega arith, refl), ((omega arith, refl), IsVisible-IsPlain f.1 good.0.visible_value))),
    sent_lines-IsLine fs good.1,
  )
