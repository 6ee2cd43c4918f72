-- ===== src/Bitmap/Copy.antt =====
-- `bitmap_dup` copies one byte in eight: it divides `size`, a number of bytes, by 8.
use pastoral.Base.{
  ℕ, zero, suc, ◌+◌, ◌*◌, ◌/◌, ◌%◌, ◌<◌, ◌≤◌, ◌≡◌, refl, List, length, take, none, some, false, ◌∙◌,
  if◌then◌else◌, arith, length-take, get_or-take, get_or-ge, bit-zero, ltb, ◌>>=◌,
}
use native.Mathlib.Decide.{dec_lt}
use pastoral.Bitmap.{Bitmap, get_bit, scan, alloc, alloc_calls, dup, div_roundup}
use pastoral.Bitmap.Scan.{Used, scan-miss}
use pastoral.Bitmap.Alloc.{IsValid, used}

dup_lem :
    (b : Bitmap)
    → IsValid b
    → dup b ≡ some (record b { data_bytes = take (div_roundup b.size 8) b.data_bytes })
unfolding dup
dup_lem b v = ground (arith, v.bytes)

get_bit-take :
    (a : List ℕ) (n j : ℕ)
    → n ≤ length a
    → get_bit (take n a) j ≡ (if ltb j (n * 8) then get_bit a j else 0)
unfolding get_bit
get_bit-take a n j h = ground (
  arith,
  get_or-take n a (j / 8) 0,
  get_or-ge (take n a) (j / 8) 0,
  length-take {0} n a h,
  bit-zero (j % 8),
)

-- The copy that `bitmap_dup` makes of a valid map has the size of the map, and of its bits only the
-- first `8 * DIV_ROUNDUP(size, 8)`; the others read as clear.
pub dup-prefix :
    (b : Bitmap)
    → IsValid b
    → (b' : Bitmap) × (dup b ≡ some b')
      × (b'.size ≡ b.size)
      × ((j : ℕ) → used b' j ≡ (if ltb j (div_roundup b.size 8 * 8) then used b j else 0))
dup-prefix b v = (
  record b { data_bytes = take (div_roundup b.size 8) b.data_bytes },
  dup_lem b v,
  refl,
  λ j. get_bit-take b.data_bytes (div_roundup b.size 8) j (omega (arith, v.bytes)),
)

scan-past_end :
    (n i : ℕ) (a : List ℕ)
    → i ≤ 8 * length a
    → 8 * length a < i + n
    → Used a i (8 * length a)
    → scan n i a ≡ none
scan-past_end zero i a h k u = absurd (omega arith)
scan-past_end (suc n) i a h k u = elim (dec_lt i (8 * length a)) [
  | yes p ↦
      scan-miss n i a (omega arith) (u i (omega arith) p)
      ∙ scan-past_end n (i + 1) a (omega arith) (omega arith) (λ j lo hi. u j (omega arith) hi)
  | no p ↦ faults (ground arith)
]
  where
    faults : ltb (i / 8) (length a) ≡ false → scan (suc n) i a ≡ none
    faults e = unfold scan in rw e

-- The copy of a map of two bytes or more, with every copied bit set, makes `bitmap_alloc` read
-- outside the copied allocation: its loop runs over eight bits for each byte of `size`.
pub alloc-dup_out_of_bounds :
    (b : Bitmap)
    → IsValid b
    → 2 ≤ b.size
    → Used b.data_bytes 0 (div_roundup b.size 8 * 8)
    → (dup b >>= alloc) ≡ none
unfolding alloc alloc_calls
alloc-dup_out_of_bounds b v h u = rw (dup_lem b v, past)
  where
    n : ℕ
    n = div_roundup b.size 8

    len : length (take n b.data_bytes) ≡ n
    len = length-take {0} n b.data_bytes (omega (arith, v.bytes))

    past : scan (b.size * 8) 0 (take n b.data_bytes) ≡ none
    past =
        scan-past_end (b.size * 8) 0 (take n b.data_bytes) (omega arith) (omega (arith, len))
          (λ j lo hi. ground (arith, get_bit-take b.data_bytes n j, u j, len, v.bytes))
