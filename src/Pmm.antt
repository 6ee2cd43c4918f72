-- ===== src/Pmm.antt =====
-- kernel/mm/pmm.c: the allocator of physical pages. Addresses and counts are 64-bit words.
pub mod Run
pub mod Alloc
pub mod Release
pub mod Frames
mod Tests
use pastoral.Base.{
  ℕ, zero, suc, ◌+◌, ◌-◌, ◌*◌, ◌/◌, ◌%◌, ◌^◌, Bool, true, false, ◌&&◌, not, Option, none, some,
  List, [], ◌∷◌, ◌++◌, length, replicate, ltb, leb, ◌==◌, if◌then◌else◌, ◌>>=◌,
}
use pastoral.Bitmap.{bit_test, bit_set, bit_clear, div_roundup}

abbrev pub page_size : ℕ
page_size = 0x1000

-- `struct limine_memmap_entry`; `usable` tells whether `type` is LIMINE_MEMMAP_USABLE.
pub record MemmapEntry : Type 0 where
  pub base : ℕ
  pub entry_length : ℕ
  pub usable : Bool

-- `struct pmm_module`; `base` is that of its `mmap_entry`, and `next` is the order of a list.
pub record PmmModule : Type 0 where
  pub base : ℕ
  pub bitmap_entry_cnt : ℕ
  pub last_free : ℕ
  pub bits : List ℕ

-- Sums wrap at 64 bits.
abbrev pub add : ℕ → ℕ → ℕ
add a b = (a + b) % 2 ^ 64

-- `ALIGN_UP(a, b)`
unfoldable pub align_up : ℕ → ℕ → ℕ
align_up a b = add a (b - 1) / b * b

-- How the inner loop ends: at a bit that is set, at the last page of a free run, or by its condition.
pub data Found : Type 0 where
  busy over : Found
  whole : ℕ → Found

-- The inner loop from page `j`, with `n` rounds left and `count` free pages behind it.
unfoldable pub try_run : ℕ → ℕ → ℕ → ℕ → List ℕ → Option Found
unfolding bit_test
try_run zero j count cnt bits = some over
try_run (suc n) j count cnt bits =
    let rest = try_run n (j + 1) (count + 1) cnt bits in
    do
      t ← bit_test bits j
      if not (t == 0) then some busy else if count + 1 == cnt then some (whole j) else rest

-- `BIT_SET(module->bitmap, i + z)` for `n` values of `z`.
unfoldable pub set_run : ℕ → ℕ → List ℕ → Option (List ℕ)
unfolding bit_set
set_run zero i bits = some bits
set_run (suc n) i bits = bit_set bits i >>= λ b. set_run n (i + 1) b

-- The first clear bit from `z` on, among `n`; 0 if there is none.
unfoldable pub next_free : ℕ → ℕ → List ℕ → Option ℕ
unfolding bit_test
next_free zero z bits = some 0
next_free (suc n) z bits =
    let rest = next_free n (z + 1) bits in do t ← bit_test bits z; if t == 0 then some z else rest

-- The bits and `last_free` once the run of `cnt` pages at `i`, which ends at `j`, has been found.
unfoldable pub take_run : ℕ → ℕ → ℕ → PmmModule → Option PmmModule
unfolding set_run next_free
take_run cnt i j m = do
  bits ← set_run cnt i m.bits
  last ← next_free (m.bitmap_entry_cnt - j) j bits
  some (record m { bits = bits; last_free = last })

-- The outer loop, on fuel. The address is `none` for -1; the whole is `none` where the code reads
-- outside the bitmap or the fuel ends.
unfoldable pub search_runs : ℕ → ℕ → ℕ → ℕ → ℕ → PmmModule → Option (Option ℕ × PmmModule)
unfolding try_run take_run
search_runs zero i alloc_base cnt align m = none
search_runs (suc n) i alloc_base cnt align m =
    let step = (align * page_size) % 2 ^ 64 in
    let after_busy = search_runs n (add i align) (add alloc_base step) cnt align m in
    let after_over = search_runs n (add i align) alloc_base cnt align m in
    if not (ltb i m.bitmap_entry_cnt)
    then some (none, m)
    else if ltb m.bitmap_entry_cnt (add i cnt)
    then some (none, m)
    else (do
      found ← try_run (add i cnt - i) i 0 cnt m.bits
      elim found [
        | busy ↦ after_busy
        | over ↦ after_over
        | whole j ↦ (do m' ← take_run cnt i j m; some (some alloc_base, m'))
      ])

-- `pmm_module_alloc`; an alignment of 0 modulo 2 ^ 52 is a division by 0.
unfoldable pub pmm_module_alloc : PmmModule → ℕ → ℕ → Option (Option ℕ × PmmModule)
pmm_module_alloc m cnt align =
    let step = (align * page_size) % 2 ^ 64 in
    if step == 0
    then none
    else (let alloc_base = align_up (add m.base ((m.last_free * page_size) % 2 ^ 64)) step in
        let bit_base = (alloc_base + 2 ^ 64 - m.base) % 2 ^ 64 / page_size in
        search_runs (suc m.bitmap_entry_cnt) bit_base alloc_base cnt align m)

-- `BIT_CLEAR` of `n` pages from `i` on.
unfoldable pub clear_run : ℕ → ℕ → List ℕ → Option (List ℕ)
unfolding bit_clear
clear_run zero i bits = some bits
clear_run (suc n) i bits = bit_clear bits i >>= λ b. clear_run n (i + 1) b

-- `pmm_module_free`
unfoldable pub pmm_module_free : PmmModule → ℕ → ℕ → Option PmmModule
unfolding clear_run
pmm_module_free m base cnt =
    let first = (add base (page_size - 1)) / page_size in
    do bits ← clear_run (add first cnt - first) first m.bits; some (record m { bits = bits })

-- `pmm_alloc`: the first module that has room. With no module left it returns -1.
unfoldable pub pmm_alloc : ℕ → ℕ → List PmmModule → Option (Option ℕ × List PmmModule)
unfolding pmm_module_alloc
pmm_alloc cnt align [] = some (none, [])
pmm_alloc cnt align (m ∷ ms) =
    let rest = pmm_alloc cnt align ms in
    do
      (found, m') ← pmm_module_alloc m cnt align
      elim found [
        | some base ↦ some (some base, m' ∷ ms)
        | none ↦ (do (later, ms') ← rest; some (later, m' ∷ ms'))
      ]

-- The test by which `pmm_free` chooses a module.
unfoldable pub owns : PmmModule → ℕ → ℕ → Bool
owns m base cnt =
    leb m.base base
    && leb (add m.base ((cnt * page_size) % 2 ^ 64))
        (add m.base ((m.bitmap_entry_cnt * page_size) % 2 ^ 64))

unfoldable pub pmm_free : ℕ → ℕ → List PmmModule → Option (List PmmModule)
unfolding owns pmm_module_free
pmm_free base cnt [] = some []
pmm_free base cnt (m ∷ ms) =
    let rest = pmm_free base cnt ms in
    if owns m base cnt
    then (do m' ← pmm_module_free m (base - m.base) cnt; some (m' ∷ ms))
    else (do ms' ← rest; some (m ∷ ms'))

-- The first loop of `pmm_init`: memory below 1 MiB is cut off. `base` has been raised when the second
-- assignment reads it.
unfoldable pub clip : MemmapEntry → MemmapEntry
clip e =
    if not (ltb e.base 0x100000)
    then e
    else if ltb e.entry_length (0x100000 - e.base)
    then record e { entry_length = 0 }
    else record e { base = 0x100000; entry_length = e.entry_length - (0x100000 - 0x100000) }

-- `pmm_init_module`
unfoldable pub pmm_init_module : MemmapEntry → PmmModule
pmm_init_module e =
    let page_cnt = div_roundup e.entry_length page_size in
    record {
      base = e.base;
      bitmap_entry_cnt = page_cnt;
      last_free = 0;
      bits = replicate (div_roundup page_cnt 8) 0;
    }
