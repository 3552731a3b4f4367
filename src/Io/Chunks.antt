-- ===== src/Io/Chunks.antt =====
-- A reader whose peer sends in pieces. It shows that the laws of a buffer can be met.
use xx_url.Common.{
  ℕ, ◌<◌, ◌≡◌, ◌≢◌, refl, sym, List, [], ◌∷◌, ◌++◌, append-nil, Bytes, none, some, ok, M, length,
  drop, take, min, ◌==◌, if◌then◌else◌, arith,
}
use xx_url.Common.BigEndian.{from_be}
use xx_url.Io.{BufRead}
use xx_url.Io.Delivery.{Buffers}

-- A piece has a first byte.
pub record Chunks : Type 0 where
  pub buf : Bytes
  pub coming : List (ℕ × Bytes)

abbrev pub unread : List (ℕ × Bytes) → Bytes
unread [] = []
unread ((b, bs) ∷ more) = b ∷ (bs ++ unread more)

abbrev fill_from : List (ℕ × Bytes) → M Chunks ℕ
fill_from [] r = (ok 0, r)
fill_from ((b, bs) ∷ more) r =
    (ok (length (b ∷ bs)), record { buf = r.buf ++ b ∷ bs; coming = more })

abbrev from_buffer : ℕ → M Chunks Bytes
from_buffer n r = (ok (take n r.buf), record r { buf = drop n r.buf })

abbrev pub chunks : ℕ → BufRead Chunks
chunks capacity = record {
  buffer = λ r. r.buf;
  capacity = λ r. capacity;
  fill = λ r. fill_from r.coming r;
  consume = λ n r. record r { buf = drop n r.buf };
  discard = λ r. record r { buf = [] };
  read = from_buffer;
  read_inner = from_buffer;
  read_fully = from_buffer;
  try_read_type = λ n r. (ok (some (take n r.buf)), record r { buf = drop n r.buf });
  read_into = λ buf limit. if min buf limit == 0 then none else some (min buf limit);
  read_be = λ n r. (ok (from_be (take n r.buf)), record r { buf = drop n r.buf });
}

fills_from :
    (buf : Bytes) (coming : List (ℕ × Bytes))
    → (new : Bytes) × (r' : Chunks) × (fill_from coming (record { buf = buf; coming = coming })
        ≡ (ok (length new), r'))
      × (r'.buf ≡ buf ++ new)
      × (unread coming ≡ new ++ unread r'.coming)
      × (buf ≡ [] → unread coming ≢ [] → 0 < length new)
fills_from buf [] = (
  [],
  record { buf = buf; coming = [] },
  refl,
  sym (append-nil buf),
  refl,
  λ e ne. absurd (ne refl),
)
fills_from buf ((b, bs) ∷ more) =
    (b ∷ bs, record { buf = buf ++ b ∷ bs; coming = more }, refl, refl, refl, λ e ne. omega arith)

pub chunks-Buffers : (capacity : ℕ) → Buffers (chunks capacity) (λ r. unread r.coming)
chunks-Buffers capacity = record {
  fills = λ r. fills_from r.buf r.coming;
  consumes = λ n r h. (refl, refl);
  discards = λ r. (refl, refl);
}
