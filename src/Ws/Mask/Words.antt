-- ===== src/Ws/Mask/Words.antt =====
-- One word at a time, in either byte order, is four bytes at a time.
use xx_url.Common.{ℕ, ◌+◌, ◌*◌, ◌^◌, ◌-◌, ◌<◌, ◌≡◌, refl, sym, ◌∙◌, arith, [], ◌∷◌, IsByte, bit_xor}
use xx_url.Common.Xor.{bit_xor_fields, bit_xor-IsByte}
use xx_url.Ws.Mask.{Endian, little, big, word, byte_of, from_ne, to_ne, to_be}

-- The octet `j` of a masking key, the highest first.
abbrev pub octet : ℕ → ℕ → ℕ
octet m j = byte_of (3 - j) m

bit_xor-word :
    (d c b a d' c' b' a' : ℕ)
    → IsByte c
    → IsByte b
    → IsByte a
    → IsByte c'
    → IsByte b'
    → IsByte a'
    → bit_xor (word d c b a) (word d' c' b' a')
      ≡ word (bit_xor d d') (bit_xor c c') (bit_xor b b') (bit_xor a a')
bit_xor-word d c b a d' c' b' a' hc hb ha hc' hb' ha' =
    bit_xor_fields 8 ((d * 256 + c) * 256 + b) ((d' * 256 + c') * 256 + b') a a' ha ha'
    ∙ rw (
      bit_xor_fields 8 (d * 256 + c) (d' * 256 + c') b b' hb hb',
      bit_xor_fields 8 d d' c c' hc hc',
    )

word_bytes :
    (d c b a : ℕ)
    → IsByte d
    → IsByte c
    → IsByte b
    → IsByte a
    → (byte_of 3 (word d c b a) ≡ d)
      × (byte_of 2 (word d c b a) ≡ c)
      × (byte_of 1 (word d c b a) ≡ b)
      × (byte_of 0 (word d c b a) ≡ a)
word_bytes d c b a hd hc hb ha = omega arith

word_of_bytes :
    (m : ℕ) → m < 2 ^ 32 → word (byte_of 3 m) (byte_of 2 m) (byte_of 1 m) (byte_of 0 m) ≡ m
word_of_bytes m h = omega arith

to_ne-word :
    (b0 b1 b2 b3 : ℕ)
    → IsByte b0
    → IsByte b1
    → IsByte b2
    → IsByte b3
    → (e : Endian) → to_ne e (from_ne e b0 b1 b2 b3) ≡ b0 ∷ b1 ∷ b2 ∷ b3 ∷ []
unfolding to_ne from_ne
to_ne-word b0 b1 b2 b3 h0 h1 h2 h3 little =
    let (e3, e2, e1, e0) = word_bytes b3 b2 b1 b0 h3 h2 h1 h0 in rw (e0, e1, e2, e3)
to_ne-word b0 b1 b2 b3 h0 h1 h2 h3 big =
    let (e3, e2, e1, e0) = word_bytes b0 b1 b2 b3 h0 h1 h2 h3 in rw (e0, e1, e2, e3)

-- The key in the machine's byte order: its octets lie in memory from the highest.
to_be-octets :
    (e : Endian) (m : ℕ)
    → m < 2 ^ 32
    → to_be e m ≡ from_ne e (byte_of 3 m) (byte_of 2 m) (byte_of 1 m) (byte_of 0 m)
unfolding to_be from_ne
to_be-octets little m h = refl
to_be-octets big m h = sym (word_of_bytes m h)

bit_xor-from_ne :
    (e : Endian) (b0 b1 b2 b3 c0 c1 c2 c3 : ℕ)
    → IsByte b0
    → IsByte b1
    → IsByte b2
    → IsByte b3
    → IsByte c0
    → IsByte c1
    → IsByte c2
    → IsByte c3
    → bit_xor (from_ne e b0 b1 b2 b3) (from_ne e c0 c1 c2 c3)
      ≡ from_ne e (bit_xor b0 c0) (bit_xor b1 c1) (bit_xor b2 c2) (bit_xor b3 c3)
unfolding from_ne
bit_xor-from_ne little b0 b1 b2 b3 c0 c1 c2 c3 h0 h1 h2 h3 k0 k1 k2 k3 =
    bit_xor-word b3 b2 b1 b0 c3 c2 c1 c0 h2 h1 h0 k2 k1 k0
bit_xor-from_ne big b0 b1 b2 b3 c0 c1 c2 c3 h0 h1 h2 h3 k0 k1 k2 k3 =
    bit_xor-word b0 b1 b2 b3 c0 c1 c2 c3 h1 h2 h3 k1 k2 k3

byte_of-IsByte : (j m : ℕ) → IsByte (byte_of j m)
byte_of-IsByte j m = omega arith

pub mask_word :
    (e : Endian) (m b0 b1 b2 b3 : ℕ)
    → m < 2 ^ 32
    → IsByte b0
    → IsByte b1
    → IsByte b2
    → IsByte b3
    → to_ne e (bit_xor (from_ne e b0 b1 b2 b3) (to_be e m))
      ≡ bit_xor b0 (octet m 0)
        ∷ bit_xor b1 (octet m 1)
        ∷ bit_xor b2 (octet m 2)
        ∷ bit_xor b3 (octet m 3)
        ∷ []
mask_word e m b0 b1 b2 b3 h h0 h1 h2 h3 = rw (to_be-octets e m h) (
    rw
      (bit_xor-from_ne e b0 b1 b2 b3 (byte_of 3 m) (byte_of 2 m) (byte_of 1 m) (byte_of 0 m) h0 h1
        h2 h3 (byte_of-IsByte 3 m) (byte_of-IsByte 2 m) (byte_of-IsByte 1 m) (byte_of-IsByte 0 m))
      (to_ne-word _ _ _ _ (bit_xor-IsByte b0 _ h0 (byte_of-IsByte 3 m))
        (bit_xor-IsByte b1 _ h1 (byte_of-IsByte 2 m)) (bit_xor-IsByte b2 _ h2 (byte_of-IsByte 1 m))
        (bit_xor-IsByte b3 _ h3 (byte_of-IsByte 0 m)) e))
