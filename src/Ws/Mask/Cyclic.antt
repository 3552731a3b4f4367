-- ===== src/Ws/Mask/Cyclic.antt =====
-- `mask` against the masking of RFC 6455: octet `i` of the data with octet `i mod 4` of the key.
use xx_url.Common.{
  ℕ, zero, suc, ◌+◌, ◌*◌, ◌%◌, ◌^◌, ◌≤◌, ◌<◌, ◌≡◌, refl, sym, ◌∙◌, arith, Bytes, [], ◌∷◌, ◌++◌,
  IsByte, All, bit_xor, ap, ap₂, length, length-take, length-drop, take, drop, take-append-drop,
}
use xx_url.Common.Xor.{bit_xor_zero, bit_xor_self_inverse, bit_xor-IsByte}
use xx_url.Ws.Mask.{Endian, rotate_left, mask_loop, mask_words, Split, mask}
use xx_url.Ws.Mask.Words.{octet, mask_word}

-- The reference: the data from position `i` on.
unfoldable pub xor_cyclic : ℕ → Bytes → ℕ → Bytes
xor_cyclic i [] m = []
xor_cyclic i (b ∷ bs) m = bit_xor b (octet m (i % 4)) ∷ xor_cyclic (i + 1) bs m

-- `w` is the key `m`, turned so that its first octet serves position `i`.
record Turned (w m i : ℕ) : Type 0 where
  fits : w < 2 ^ 32
  octet_at : (j : ℕ) → j < 4 → octet w j ≡ octet m ((i + j) % 4)

octet-rotate_left : (w j : ℕ) → w < 2 ^ 32 → j < 4 → octet (rotate_left w) j ≡ octet w ((j + 1) % 4)
unfolding rotate_left
octet-rotate_left w zero h k = omega arith
octet-rotate_left w (suc zero) h k = omega arith
octet-rotate_left w (suc (suc zero)) h k = omega arith
octet-rotate_left w (suc (suc (suc zero))) h k = omega arith
octet-rotate_left w (suc (suc (suc (suc j)))) h k = absurd (omega arith)

rotate_left-Turned : {w m i : ℕ} → Turned w m i → Turned (rotate_left w) m (i + 1)
unfolding rotate_left
rotate_left-Turned {w} {m} {i} t = record {
  fits = omega (arith, t.fits);
  octet_at = λ j h.
      octet-rotate_left w j t.fits h
      ∙ t.octet_at ((j + 1) % 4) (omega arith)
      ∙ ap (octet m) (omega arith);
}

Turned-shift : {w m : ℕ} (i k : ℕ) → Turned w m i → i % 4 ≡ k % 4 → Turned w m k
Turned-shift {w} {m} i k t e = record {
  fits = t.fits;
  octet_at = λ j h. t.octet_at j h ∙ ap (octet m) (omega arith);
}

mask_loop-xor_cyclic :
    (bs : Bytes) (w m i : ℕ)
    → Turned w m i
    → ((mask_loop bs w).0 ≡ xor_cyclic i bs m) × Turned (mask_loop bs w).1 m (i + length bs)
unfolding mask_loop xor_cyclic
mask_loop-xor_cyclic [] w m i t = (refl, Turned-shift i _ t (omega arith))
mask_loop-xor_cyclic (b ∷ bs) w m i t =
    let (out, turned) = mask_loop-xor_cyclic bs (rotate_left w) m (i + 1) (rotate_left-Turned t) in
    (
      ap₂ ◌∷◌ (ap (bit_xor b) (t.octet_at 0 (omega arith) ∙ ap (octet m) (omega arith))) out,
      Turned-shift _ _ turned (omega arith),
    )

mask_words-xor_cyclic :
    (e : Endian) (n : ℕ) (bs : Bytes) (w m i : ℕ)
    → Turned w m i
    → All IsByte bs
    → length bs ≡ 4 * n
    → mask_words e w n bs ≡ xor_cyclic i bs m
unfolding mask_words xor_cyclic
mask_words-xor_cyclic e zero [] w m i t h l = refl
mask_words-xor_cyclic e zero (b ∷ bs) w m i t h l = absurd (omega arith)
mask_words-xor_cyclic e (suc n) (b0 ∷ b1 ∷ b2 ∷ b3 ∷ bs) w m i t (h0, (h1, (h2, (h3, h)))) l =
    rw (mask_word e w b0 b1 b2 b3 t.fits h0 h1 h2 h3) (
      ap₂ ◌∷◌ (same 0 i (omega arith) (omega arith) b0) (
        ap₂ ◌∷◌ (same 1 (i + 1) (omega arith) (omega arith) b1) (
          ap₂ ◌∷◌ (same 2 (i + 1 + 1) (omega arith) (omega arith) b2) (
            ap₂ ◌∷◌ (same 3 (i + 1 + 1 + 1) (omega arith) (omega arith) b3) (
              mask_words-xor_cyclic e n bs w m (i + 1 + 1 + 1 + 1)
                (Turned-shift i _ t (omega arith)) h (omega arith))))))
  where
    same :
        (j k : ℕ)
        → j < 4
        → (i + j) % 4 ≡ k % 4
        → (b : ℕ) → bit_xor b (octet w j) ≡ bit_xor b (octet m (k % 4))
    same j k small e b = ap (bit_xor b) (t.octet_at j small ∙ ap (octet m) e)
mask_words-xor_cyclic e (suc n) _ w m i t h l = absurd (omega arith)

xor_cyclic_from : (i k : ℕ) (bs : Bytes) (m : ℕ) → i ≡ k → xor_cyclic i bs m ≡ xor_cyclic k bs m
xor_cyclic_from i k bs m e = ap (λ n. xor_cyclic n bs m) e

xor_cyclic-append :
    (i : ℕ) (xs ys : Bytes) (m : ℕ)
    → xor_cyclic i (xs ++ ys) m ≡ xor_cyclic i xs m ++ xor_cyclic (i + length xs) ys m
unfolding xor_cyclic
xor_cyclic-append i [] ys m = xor_cyclic_from i _ ys m (omega arith)
xor_cyclic-append i (x ∷ xs) ys m = ap (◌∷◌ (bit_xor x (octet m (i % 4)))) (
    xor_cyclic-append (i + 1) xs ys m
    ∙ ap (◌++◌ (xor_cyclic (i + 1) xs m))
        (xor_cyclic_from (i + 1 + length xs) (i + length (x ∷ xs)) ys m (omega arith)))

All-take : (P : ℕ → Type 0) (n : ℕ) (xs : Bytes) → All P xs → All P (take n xs)
All-take P zero xs h = tt
All-take P (suc n) [] h = h
All-take P (suc n) (x ∷ xs) h = (h.0, All-take P n xs h.1)

All-drop : (P : ℕ → Type 0) (n : ℕ) (xs : Bytes) → All P xs → All P (drop n xs)
All-drop P zero xs h = h
All-drop P (suc n) [] h = h
All-drop P (suc n) (x ∷ xs) h = All-drop P n xs h.1

-- The parts of a split, one behind the other.
xor_cyclic_split :
    (pre middle : ℕ) (bytes : Bytes) (m : ℕ)
    → pre + middle ≤ length bytes
    → xor_cyclic 0 bytes m
      ≡ xor_cyclic 0 (take pre bytes) m
        ++ (xor_cyclic pre (take middle (drop pre bytes)) m
            ++ xor_cyclic (pre + middle) (drop middle (drop pre bytes)) m)
xor_cyclic_split pre middle bytes m h =
    let after = drop pre bytes in
    let room : middle ≤ length after = omega (arith, length-drop pre bytes) in
    ap (λ bs. xor_cyclic 0 bs m) (sym (take-append-drop pre bytes))
    ∙ xor_cyclic-append 0 (take pre bytes) after m
    ∙ ap (◌++◌ (xor_cyclic 0 (take pre bytes) m)) (
        xor_cyclic_from _ pre after m (omega (arith, length-take pre bytes (omega arith)))
        ∙ ap (λ bs. xor_cyclic pre bs m) (sym (take-append-drop middle after))
        ∙ xor_cyclic-append pre (take middle after) (drop middle after) m
        ∙ ap (◌++◌ (xor_cyclic pre (take middle after) m)) (
            xor_cyclic_from _ _ (drop middle after) m
              (omega (arith, length-take middle after room))))

-- A split that lies inside the data.
abbrev pub Inside : Split → Bytes → Type 0
Inside s bytes = s.pre + 4 * s.words ≤ length bytes

start_Turned : (m : ℕ) → m < 2 ^ 32 → Turned m m 0
start_Turned m h = record { fits = h; octet_at = λ j k. ap (octet m) (omega arith) }

-- For bytes, a key of 32 bits and any split that lies inside the data, in either byte order, `mask`
-- is the masking of the RFC.
pub mask_lem :
    (e : Endian) (s : Split) (bytes : Bytes) (m : ℕ)
    → m < 2 ^ 32
    → All IsByte bytes
    → Inside s bytes
    → mask e s bytes m ≡ xor_cyclic 0 bytes m
unfolding mask
mask_lem e s bytes m fits h inside =
    let after = drop s.pre bytes in
    let bytes_after = All-drop IsByte s.pre bytes h in
    let room : 4 * s.words ≤ length after = omega (arith, length-drop s.pre bytes) in
    let (first, turned) = mask_loop-xor_cyclic (take s.pre bytes) m m 0 (start_Turned m fits) in
    let at_pre =
      Turned-shift _ s.pre turned (omega (arith, length-take s.pre bytes (omega arith))) in
    let middle =
      mask_words-xor_cyclic e s.words (take (4 * s.words) after) (mask_loop (take s.pre bytes) m).1
        m s.pre at_pre (All-take IsByte (4 * s.words) after bytes_after)
        (length-take _ after room) in
    let last =
      mask_loop-xor_cyclic (drop (4 * s.words) after) (mask_loop (take s.pre bytes) m).1 m
        (s.pre + 4 * s.words) (Turned-shift _ _ at_pre (omega arith)) in
    ap₂ ◌++◌ first (ap₂ ◌++◌ middle last.0)
    ∙ sym (xor_cyclic_split s.pre (4 * s.words) bytes m inside)

pub xor_cyclic_twice : (i : ℕ) (bs : Bytes) (m : ℕ) → xor_cyclic i (xor_cyclic i bs m) m ≡ bs
unfolding xor_cyclic
xor_cyclic_twice i [] m = refl
xor_cyclic_twice i (b ∷ bs) m = ap₂ ◌∷◌ (bit_xor_self_inverse b _) (xor_cyclic_twice (i + 1) bs m)

pub xor_cyclic-IsByte :
    (i : ℕ) (bs : Bytes) (m : ℕ) → All IsByte bs → All IsByte (xor_cyclic i bs m)
unfolding xor_cyclic
xor_cyclic-IsByte i [] m h = h
xor_cyclic-IsByte i (b ∷ bs) m (hb, h) =
    (bit_xor-IsByte b _ hb (omega arith), xor_cyclic-IsByte (i + 1) bs m h)

pub length-xor_cyclic : (i : ℕ) (bs : Bytes) (m : ℕ) → length (xor_cyclic i bs m) ≡ length bs
unfolding xor_cyclic
length-xor_cyclic i [] m = refl
length-xor_cyclic i (b ∷ bs) m = ap suc (length-xor_cyclic (i + 1) bs m)

-- Masking of bytes is undone by masking with the same key of 32 bits, also where the copy is
-- aligned otherwise, as long as both splits lie inside the data.
pub mask-mask :
    (e e' : Endian) (s s' : Split) (bytes : Bytes) (m : ℕ)
    → m < 2 ^ 32
    → All IsByte bytes
    → Inside s bytes
    → Inside s' bytes
    → mask e' s' (mask e s bytes m) m ≡ bytes
mask-mask e e' s s' bytes m fits h inside inside' =
    ap (λ bs. mask e' s' bs m) (mask_lem e s bytes m fits h inside)
    ∙ mask_lem e' s' (xor_cyclic 0 bytes m) m fits (xor_cyclic-IsByte 0 bytes m h)
        (omega (arith, length-xor_cyclic 0 bytes m))
    ∙ xor_cyclic_twice 0 bytes m

octet_zero : (j : ℕ) → j < 4 → octet 0 j ≡ 0
octet_zero zero small = refl
octet_zero (suc zero) small = refl
octet_zero (suc (suc zero)) small = refl
octet_zero (suc (suc (suc zero))) small = refl
octet_zero (suc (suc (suc (suc j)))) small = absurd (omega arith)

-- The key 0 leaves the data as they are.
pub xor_cyclic_zero : (i : ℕ) (bs : Bytes) → xor_cyclic i bs 0 ≡ bs
unfolding xor_cyclic
xor_cyclic_zero i [] = refl
xor_cyclic_zero i (b ∷ bs) =
    ap₂ ◌∷◌ (ap (bit_xor b) (octet_zero (i % 4) (omega arith)) ∙ bit_xor_zero b)
      (xor_cyclic_zero (i + 1) bs)
