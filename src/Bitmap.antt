-- ===== src/Bitmap.antt =====
-- kernel/lib/bitmap.c and the bit macros of kernel/lib/string.h.
pub mod Bytes
pub mod Scan
pub mod Alloc
pub mod Copy
mod Tests
use pastoral.Base.{
  ℕ, zero, suc, ◌+◌, ◌-◌, ◌*◌, ◌/◌, ◌%◌, ◌^◌, Bool, true, Option, none, some, List, ◌++◌, length,
  get_or, set, replicate, take, ltb, leb, ◌==◌, if◌then◌else◌, bit, complement, bit_and, bit_or,
  ◌>>=◌,
}

-- `DIV_ROUNDUP(a, b)`
abbrev pub div_roundup : ℕ → ℕ → ℕ
div_roundup a b = (a + (b - 1)) / b

-- `(a[b / 8] >> (b % 8)) & 1`, reading 0 behind the end
unfoldable pub get_bit : List ℕ → ℕ → ℕ
get_bit a b = bit (get_or a (b / 8) 0) (b % 8)

-- `BIT_TEST`, `BIT_SET` and `BIT_CLEAR` on an allocation of `length a` bytes.
unfoldable pub bit_test : List ℕ → ℕ → Option ℕ
unfolding get_bit
bit_test a b = if ltb (b / 8) (length a) then some (get_bit a b) else none

unfoldable pub put_bit : List ℕ → ℕ → List ℕ
put_bit a b = set a (b / 8) (bit_or (get_or a (b / 8) 0) (2 ^ (b % 8)) % 2 ^ 8)

unfoldable pub bit_set : List ℕ → ℕ → Option (List ℕ)
unfolding put_bit
bit_set a b = if ltb (b / 8) (length a) then some (put_bit a b) else none

-- `~(1 << k)` is an `int`, so its complement has 32 bits
unfoldable pub drop_bit : List ℕ → ℕ → List ℕ
drop_bit a b = set a (b / 8) (bit_and (get_or a (b / 8) 0) (complement 32 (2 ^ (b % 8))) % 2 ^ 8)

unfoldable pub bit_clear : List ℕ → ℕ → Option (List ℕ)
unfolding drop_bit
bit_clear a b = if ltb (b / 8) (length a) then some (drop_bit a b) else none

-- `struct bitmap`; `data` holds the bytes of the allocation that the pointer leads to.
pub record Bitmap : Type 0 where
  pub data_bytes : List ℕ
  pub size : ℕ
  pub resizable : Bool

-- `bitmap_init`; `alloc` returns zeroed memory.
unfoldable pub init : Bool → ℕ → Bitmap
init resizable size = record {
  data_bytes = replicate (div_roundup size 8) 0;
  size = size;
  resizable = resizable;
}

-- The loop of `bitmap_alloc`, from index `i` with `n` rounds left.
unfoldable pub scan : ℕ → ℕ → List ℕ → Option (Option ℕ × List ℕ)
unfolding bit_test bit_set
scan zero i a = some (none, a)
scan (suc n) i a =
    let rest = scan n (i + 1) a in
    do t ← bit_test a i; if t == 0 then (do a' ← bit_set a i; some (some i, a')) else rest

-- `realloc`: the bytes are kept, and what is added is zero.
unfoldable pub resize : List ℕ → ℕ → List ℕ
resize a n = a ++ replicate (n - length a) 0

unfoldable pub grow : Bitmap → Bitmap
unfolding resize
grow b = record b { size = b.size + 0x200; data_bytes = resize b.data_bytes (b.size + 0x200) }

-- `bitmap_alloc` calls itself after it has grown the map: at most `calls` calls. The result is the
-- index, or `none` for -1.
unfoldable pub alloc_calls : ℕ → Bitmap → Option (Option ℕ × Bitmap)
unfolding scan grow
alloc_calls zero b = none
alloc_calls (suc calls) b = do
  (found, a) ← scan (b.size * 8) 0 b.data_bytes
  let b' : Bitmap = record b { data_bytes = a }
  elim found [
    | some i ↦ some (some i, b')
    | none ↦ elim b.resizable [ true ↦ alloc_calls calls (grow b') | _ ↦ some (none, b') ]
  ]

unfoldable pub alloc : Bitmap → Option (Option ℕ × Bitmap)
unfolding alloc_calls
alloc b = alloc_calls 2 b

unfoldable pub free : Bitmap → ℕ → Option Bitmap
unfolding bit_clear
free b index =
    if ltb b.size index
    then some b
    else (do a ← bit_clear b.data_bytes index; some (record b { data_bytes = a }))

-- `bitmap_dup`: the copy of `DIV_ROUNDUP(size, 8)` bytes.
unfoldable pub dup : Bitmap → Option Bitmap
dup b =
    let n = div_roundup b.size 8 in
    if leb n (length b.data_bytes)
    then some (record b { data_bytes = take n b.data_bytes })
    else none
