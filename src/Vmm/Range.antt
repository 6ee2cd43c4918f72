-- ===== src/Vmm/Range.antt =====
-- Ranges of pages, and the table that every address space starts with.
use pastoral.Base.{
  ℕ, zero, suc, ◌+◌, ◌-◌, ◌*◌, ◌/◌, ◌%◌, ◌^◌, Bool, Option, none, some, List, [], ◌∷◌, ◌==◌,
  if◌then◌else◌, ◌>>=◌,
}
use pastoral.Bitmap.{div_roundup}
use pastoral.Mmap.{leaf}
use pastoral.Pmm.{MemmapEntry, pmm_alloc}
use pastoral.Vmm.{
  Ram, PageTable, map_page, unmap_page, clear_page, has, flag_p, flag_rw, flag_us, flag_ps, flag_g,
  alloc_page,
}

-- `pmm_alloc(1, align)` for a page that is mapped, whatever the allocator returns.
unfoldable pub alloc_frame : ℕ → Ram → Option (ℕ × Ram)
unfolding pmm_alloc
alloc_frame align r = do
  (found, ms) ← pmm_alloc 1 align r.modules
  elim found [
    | none ↦ some (2 ^ 64 - 1, record r { modules = ms })
    | some p ↦ some (p, record { words = clear_page p r.words; modules = ms })
  ]

-- A loop of `vmm_map_range`; a page of 2 MiB is allocated as one page that is aligned to 0x200 pages.
unfoldable pub map_new : ℕ → ℕ → ℕ → PageTable → ℕ → ℕ → Ram → Option Ram
unfolding alloc_frame map_page
map_new zero align step t vaddr flags r = some r
map_new (suc n) align step t vaddr flags r = do
  (paddr, r₁) ← alloc_frame align r
  (entry, r₂) ← map_page t vaddr paddr flags r₁
  map_new n align step t ((vaddr + step) % 2 ^ 64) flags r₂

unfoldable pub vmm_map_range : PageTable → ℕ → ℕ → ℕ → Ram → Option Ram
unfolding map_new
vmm_map_range t vaddr cnt flags r =
    if has flags 7
    then map_new cnt 0x200 0x200000 t vaddr flags r
    else map_new cnt 1 0x1000 t vaddr flags r

unfoldable pub vmm_unmap_range : PageTable → ℕ → ℕ → Ram → Ram
unfolding unmap_page
vmm_unmap_range t vaddr zero r = r
vmm_unmap_range t vaddr (suc cnt) r =
    let (page_size, r') = unmap_page t vaddr r in
    let rest = vmm_unmap_range t ((vaddr + page_size) % 2 ^ 64) cnt r' in
    if page_size == 0 then r' else rest

-- A loop of `vmm_default_table`: `n` pages one behind the other.
unfoldable pub map_run : ℕ → PageTable → ℕ → ℕ → ℕ → ℕ → Ram → Option Ram
unfolding map_page
map_run zero t vaddr paddr step flags r = some r
map_run (suc n) t vaddr paddr step flags r = do
  (entry, r') ← map_page t vaddr paddr flags r
  map_run n t ((vaddr + step) % 2 ^ 64) ((paddr + step) % 2 ^ 64) step flags r'

abbrev pub kernel_flags : ℕ
kernel_flags = flag_p + flag_rw + flag_g + flag_us

abbrev pub direct_flags : ℕ
direct_flags = flag_p + flag_rw + flag_ps + flag_g + flag_us

-- What the processor and the boot protocol tell: five levels, HIGH_VMA, the kernel's addresses, and
-- the map of the memory.
pub record Boot : Type 0 where
  pub la57 : Bool
  pub high_vma : ℕ
  pub virtual_base : ℕ
  pub physical_base : ℕ
  pub entries : List MemmapEntry

-- The loop over the map of the memory.
unfoldable pub map_entries : ℕ → PageTable → List MemmapEntry → Ram → Option Ram
unfolding map_run
map_entries high_vma t [] r = some r
map_entries high_vma t (e ∷ entries) r =
    let phys = e.base / 0x200000 * 0x200000 in
    do
      r' ←
          map_run (div_roundup e.entry_length 0x200000) t ((phys + high_vma) % 2 ^ 64) phys 0x200000
            direct_flags r
      map_entries high_vma t entries r'

unfoldable pub vmm_default_table : Boot → Ram → Option (PageTable × Ram)
unfolding map_run map_entries alloc_page
vmm_default_table b r = do
  (top, r₁) ← alloc_page r
  let t : PageTable = record {
    five_levels = b.la57;
    mmap_region_root = leaf;
    mmap_bump_base = 0x10000;
    pages = [];
    pml_high = top;
  }
  r₂ ← map_run 0x400 t b.virtual_base b.physical_base 0x1000 kernel_flags r₁
  r₃ ← map_run 0x800 t b.high_vma 0 0x200000 direct_flags r₂
  r₄ ← map_entries b.high_vma t b.entries r₃
  some (t, r₄)
