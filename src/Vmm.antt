-- ===== src/Vmm.antt =====
-- kernel/mm/vmm.c: the page tables of four and of five levels. The lock of a table is left out.
pub mod View
pub mod Places
pub mod Grow
pub mod Descend
pub mod Leaf
pub mod Levels
pub mod Map
pub mod Unmap
pub mod Range
pub mod Fault
pub mod Fork
pub mod Copy
pub mod Rights
pub mod Demand
pub mod Protect
mod Tests
use pastoral.Base.{
  ℕ, ◌+◌, ◌-◌, ◌*◌, ◌/◌, ◌%◌, ◌^◌, Bool, not, ◌&&◌, Option, none, some, List, leb, ltb, ◌==◌,
  if◌then◌else◌, bit, bit_and, bit_or, complement, ◌>>=◌,
}
use pastoral.Hash.{Table}
use pastoral.Mmap.{Tree}
use pastoral.Pmm.{PmmModule, pmm_alloc, page_size}

abbrev pub flag_p : ℕ
flag_p = 1

abbrev pub flag_rw : ℕ
flag_rw = 2

abbrev pub flag_us : ℕ
flag_us = 4

abbrev pub flag_ps : ℕ
flag_ps = 0x80

abbrev pub flag_g : ℕ
flag_g = 0x100

abbrev pub flag_nx : ℕ
flag_nx = 2 ^ 63

abbrev pub flag_cow : ℕ
flag_cow = 0x200

abbrev pub flag_file : ℕ
flag_file = 0x400

abbrev pub flag_share : ℕ
flag_share = 0x800

-- `PML5_FLAGS_MASK` to `PML2_FLAGS_MASK`, which are the same.
abbrev pub flags_mask : ℕ
flags_mask = complement 64 (bit_or (bit_or flag_ps flag_g) flag_nx)

-- `entry & (1 << k)` as a test
abbrev pub has : ℕ → ℕ → Bool
has entry k = not (bit entry k == 0)

-- `entry & ~(0xfff)`
abbrev pub address : ℕ → ℕ
address entry = entry / 0x1000 * 0x1000

-- `struct pml_indices`
pub record PmlIndices : Type 0 where
  pub pml5_index : ℕ
  pub pml4_index : ℕ
  pub pml3_index : ℕ
  pub pml2_index : ℕ
  pub pml1_index : ℕ

abbrev pub compute_table_indices : ℕ → PmlIndices
compute_table_indices vaddr = record {
  pml5_index = vaddr / 2 ^ 48 % 0x200;
  pml4_index = vaddr / 2 ^ 39 % 0x200;
  pml3_index = vaddr / 2 ^ 30 % 0x200;
  pml2_index = vaddr / 2 ^ 21 % 0x200;
  pml1_index = vaddr / 2 ^ 12 % 0x200;
}

-- The physical memory, by 64-bit words at their physical addresses, as it is seen from `HIGH_VMA`
-- on; and the modules of the page allocator.
pub record Ram : Type 0 where
  pub words : ℕ → ℕ
  pub modules : List PmmModule

abbrev pub update : ℕ → ℕ → (ℕ → ℕ) → ℕ → ℕ
update a v words x = if x == a then v else words x

abbrev pub store : ℕ → ℕ → Ram → Ram
store a v r = record r { words = update a v r.words }

-- `memset64` of a page with 0
abbrev pub clear_page : ℕ → (ℕ → ℕ) → ℕ → ℕ
clear_page p words x = if leb p x && ltb x (p + page_size) then 0 else words x

-- `pmm_alloc(1, 1)`; `none` where it returns -1, which the callers use as an address.
unfoldable pub alloc_page : Ram → Option (ℕ × Ram)
unfolding pmm_alloc
alloc_page r = do
  (found, ms) ← pmm_alloc 1 1 r.modules
  elim found [
    | none ↦ none
    | some p ↦ some (p, record { words = clear_page p r.words; modules = ms })
  ]

-- One level of `map_page`: the table behind the entry at `a`, which is allocated if the entry is not
-- present. `extra` is VMM_FLAGS_RW with four levels and 0 with five.
unfoldable pub table_at : ℕ → ℕ → ℕ → Ram → Option (ℕ × Ram)
unfolding alloc_page
table_at extra flags a r = do
  r' ← if has (r.words a) 0 then some r else (do
    (p, r₁) ← alloc_page r
    some (store a (bit_or (bit_or p (bit_and flags flags_mask)) extra) r₁))
  some (address (r'.words a), r')

-- The last level: the pointer to the entry is NULL for a page of 2 MiB.
unfoldable pub map_at_pml2 : ℕ → ℕ → ℕ → ℕ → ℕ → Ram → Option (Option ℕ × Ram)
unfolding table_at
map_at_pml2 extra pml2 vaddr paddr flags r =
    let ix = compute_table_indices vaddr in
    if has flags 7
    then some (none, store (pml2 + 8 * ix.pml2_index) (bit_or paddr flags) r)
    else (do
      (pml1, r') ← table_at extra flags (pml2 + 8 * ix.pml2_index) r
      let entry = pml1 + 8 * ix.pml1_index
      some (some entry, store entry (bit_or paddr flags) r'))

unfoldable pub pml4_map_page : ℕ → ℕ → ℕ → ℕ → Ram → Option (Option ℕ × Ram)
unfolding table_at map_at_pml2
pml4_map_page pml_high vaddr paddr flags r =
    let ix = compute_table_indices vaddr in
    do
      (pml3, r₁) ← table_at flag_rw flags (pml_high + 8 * ix.pml4_index) r
      (pml2, r₂) ← table_at flag_rw flags (pml3 + 8 * ix.pml3_index) r₁
      map_at_pml2 flag_rw pml2 vaddr paddr flags r₂

unfoldable pub pml5_map_page : ℕ → ℕ → ℕ → ℕ → Ram → Option (Option ℕ × Ram)
unfolding table_at map_at_pml2
pml5_map_page pml_high vaddr paddr flags r =
    let ix = compute_table_indices vaddr in
    do
      (pml4, r₁) ← table_at 0 flags (pml_high + 8 * ix.pml5_index) r
      (pml3, r₂) ← table_at 0 flags (pml4 + 8 * ix.pml4_index) r₁
      (pml2, r₃) ← table_at 0 flags (pml3 + 8 * ix.pml3_index) r₂
      map_at_pml2 0 pml2 vaddr paddr flags r₃

-- The table behind the entry at `a`, if it is present.
abbrev pub next_table : Ram → ℕ → Option ℕ
next_table r a = if has (r.words a) 0 then some (address (r.words a)) else none

-- The end of `lowest_level`; NULL is `none`.
abbrev pub lowest_at_pml2 : ℕ → ℕ → Ram → Option ℕ
lowest_at_pml2 pml2 vaddr r =
    let ix = compute_table_indices vaddr in
    let entry = pml2 + 8 * ix.pml2_index in
    if has (r.words entry) 7
    then some entry
    else (do pml1 ← next_table r entry; some (pml1 + 8 * ix.pml1_index))

unfoldable pub pml4_lowest_level : ℕ → ℕ → Ram → Option ℕ
pml4_lowest_level pml_high vaddr r =
    let ix = compute_table_indices vaddr in
    do
      pml3 ← next_table r (pml_high + 8 * ix.pml4_index)
      pml2 ← next_table r (pml3 + 8 * ix.pml3_index)
      lowest_at_pml2 pml2 vaddr r

unfoldable pub pml5_lowest_level : ℕ → ℕ → Ram → Option ℕ
pml5_lowest_level pml_high vaddr r =
    let ix = compute_table_indices vaddr in
    do
      pml4 ← next_table r (pml_high + 8 * ix.pml5_index)
      pml3 ← next_table r (pml4 + 8 * ix.pml4_index)
      pml2 ← next_table r (pml3 + 8 * ix.pml3_index)
      lowest_at_pml2 pml2 vaddr r

-- The end of `unmap_page`: the size of what was unmapped. `&= ~(VMM_FLAGS_P)` clears the lowest bit.
abbrev pub unmap_at_pml2 : ℕ → ℕ → Ram → ℕ × Ram
unmap_at_pml2 pml2 vaddr r =
    let ix = compute_table_indices vaddr in
    let entry = pml2 + 8 * ix.pml2_index in
    if has (r.words entry) 7
    then (0x200000, store entry (r.words entry / 2 * 2) r)
    else elim (next_table r entry) [
      | none ↦ (0, r)
      | some pml1 ↦
          (0x1000, store (pml1 + 8 * ix.pml1_index) (r.words (pml1 + 8 * ix.pml1_index) / 2 * 2) r)
    ]

unfoldable pub pml4_unmap_page : ℕ → ℕ → Ram → ℕ × Ram
pml4_unmap_page pml_high vaddr r =
    let ix = compute_table_indices vaddr in
    elim (do
      pml3 ← next_table r (pml_high + 8 * ix.pml4_index)
      next_table r (pml3 + 8 * ix.pml3_index)) [
        | none ↦ (0, r)
        | some pml2 ↦ unmap_at_pml2 pml2 vaddr r
      ]

-- The index into the top level is that of the level below it.
unfoldable pub pml5_unmap_page : ℕ → ℕ → Ram → ℕ × Ram
pml5_unmap_page pml_high vaddr r =
    let ix = compute_table_indices vaddr in
    elim (do
      pml4 ← next_table r (pml_high + 8 * ix.pml4_index)
      pml3 ← next_table r (pml4 + 8 * ix.pml4_index)
      next_table r (pml3 + 8 * ix.pml3_index)) [
        | none ↦ (0, r)
        | some pml2 ↦ unmap_at_pml2 pml2 vaddr r
      ]

-- `struct page_table`. `five_levels` tells which of the two families the function pointers lead to;
-- `pages` holds pointers to the pages, by their addresses.
pub record PageTable : Type 0 where
  pub five_levels : Bool
  pub mmap_region_root : Tree
  pub mmap_bump_base : ℕ
  pub pages : Table ℕ
  pub pml_high : ℕ

unfoldable pub map_page : PageTable → ℕ → ℕ → ℕ → Ram → Option (Option ℕ × Ram)
unfolding pml4_map_page pml5_map_page
map_page t vaddr paddr flags r =
    if t.five_levels
    then pml5_map_page t.pml_high vaddr paddr flags r
    else pml4_map_page t.pml_high vaddr paddr flags r

unfoldable pub unmap_page : PageTable → ℕ → Ram → ℕ × Ram
unfolding pml4_unmap_page pml5_unmap_page
unmap_page t vaddr r =
    if t.five_levels then pml5_unmap_page t.pml_high vaddr r else pml4_unmap_page t.pml_high vaddr r

unfoldable pub lowest_level : PageTable → ℕ → Ram → Option ℕ
unfolding pml4_lowest_level pml5_lowest_level
lowest_level t vaddr r =
    if t.five_levels
    then pml5_lowest_level t.pml_high vaddr r
    else pml4_lowest_level t.pml_high vaddr r
