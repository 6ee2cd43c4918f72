-- ===== src/Vmm/Tests.antt =====
-- Runs of the page tables, and their theorems at a small memory.
use pastoral.Base.{
  ℕ, ◌+◌, ◌*◌, ◌^◌, ◌<◌, ◌≡◌, ◌≢◌, refl, true, false, none, some, [], ◌∷◌, ◌==◌, if◌then◌else◌,
  arith, bit, pos, get_elem?, bit-zero, ◌>>=◌, inl, inr, ◌≤◌, subst,
}
use pastoral.Bitmap.{get_bit}
use pastoral.Hash.{find, probe, accepts, allocated, start, fnv_hash, fnv_from}
use pastoral.Mmap.{Region, leaf, node, mmap_search_region}
use pastoral.Pmm.{PmmModule, pmm_alloc, pmm_module_alloc, search_runs, align_up, page_size}
use pastoral.Pmm.Frames.{AreModules, FreePage}
use pastoral.Vmm.{
  Ram, PageTable, map_page, unmap_page, lowest_level, pml5_map_page, table_at, map_at_pml2, address,
  alloc_page, has, pml5_lowest_level, pml4_unmap_page, pml5_unmap_page,
}
use pastoral.Vmm.Places.{Labels}
use pastoral.Vmm.Descend.{Spare, Spare-suc}
use pastoral.Vmm.Map.{IsSpace, mmu_entry, page_number, map_page-refines}
use pastoral.Vmm.Unmap.{unmap_page-refines}
use pastoral.Vmm.Fault.{
  Page, Vm, copy_on_write, at_most_one, decrement, vmm_anon_map, vmm_pf_handler, bytes_of, ReadPage,
}
use pastoral.Vmm.Fork.{protect_page}
use pastoral.Vmm.Copy.{copy_on_write-Own}
use pastoral.Vmm.Protect.{IsProtected, protect_page-IsProtected, vmm_pf_handler-vmm_anon_map}

-- Sixteen pages from 0x200000 on, of which 0 and 1 are taken, and `more` others by their bits.
abbrev pages_from : ℕ → ℕ → PmmModule
pages_from last bits = record {
  base = 0x200000;
  bitmap_entry_cnt = 16;
  last_free = last;
  bits = bits ∷ 0 ∷ [];
}

-- An empty table with four levels in page 1.
abbrev table : PageTable
table = record {
  five_levels = false;
  mmap_region_root =
      node leaf (record { base = 0x10000; limit = 0x1000; prot = 3; flags = 8; fd = 0; offset = 0 })
        leaf;
  mmap_bump_base = 0x11000;
  pages = [];
  pml_high = 0x201000;
}

abbrev empty : Ram
empty = record { words = λ x. 0; modules = pages_from 2 3 ∷ [] }

labels : Labels
labels x = if x == 0x201000 then some (3, 1) else none

one_page_left : Spare 1 (pages_from 2 3 ∷ [])
unfolding pmm_alloc pmm_module_alloc align_up search_runs bit
one_page_left = (0x202000, pages_from 3 7 ∷ [], refl, tt)

four_pages_left : Spare 4 (pages_from 2 3 ∷ [])
unfolding pmm_alloc pmm_module_alloc align_up search_runs bit
four_pages_left = (
  0x202000,
  pages_from 3 7 ∷ [],
  refl,
  (
    0x203000,
    pages_from 4 15 ∷ [],
    refl,
    (0x204000, pages_from 5 31 ∷ [], refl, (0x205000, pages_from 6 63 ∷ [], refl, tt)),
  ),
)

modules_in_order : (last bits : ℕ) → last ≤ 16 → AreModules (pages_from last bits ∷ [])
modules_in_order last bits h = (
  record { covered = omega arith; fits = omega arith; hint = omega arith; aligned = refl },
  tt,
  tt,
)

held :
    (bits k : ℕ)
    → get_bit (bits ∷ 0 ∷ []) k ≡ 1
    → FreePage (pages_from 2 bits ∷ []) (0x200000 + k * 0x1000)
    → ⊥
held bits k taken (inl (j, lt, at, clear)) = let same : j ≡ k = omega arith in ground (arith, same)
held bits k taken (inr later) = absurd later

empty-IsSpace : IsSpace table empty
unfolding labels bit get_bit
empty-IsSpace = (
  labels,
  record {
    top = refl;
    aligned = λ p k q e. ground arith;
    held = λ p k q e free.
        let at : p ≡ 0x200000 + 1 * 0x1000 = ground arith in
        held 3 1 refl (subst (FreePage empty.modules) at free);
    child = λ p k q i e b on small. absurd (ground arith);
  },
  modules_in_order 2 3 (omega arith),
)

-- 0x10000 is mapped to 0x207000 with the flags 7.
map_page-refines_example :
    (a : ℕ) × (r' : Ram) × (map_page table 0x10000 0x207000 7 empty ≡ some (some a, r'))
    × (r'.words a ≡ 0x207007)
    × IsSpace table r'
    × ((w : ℕ)
        → mmu_entry table r' w ≡ (
            if page_number table w == page_number table 0x10000
            then 0x207007
            else mmu_entry table empty w))
unfolding bit
map_page-refines_example =
    map_page-refines table empty 0x10000 0x207000 7 empty-IsSpace
      (Spare-suc 3 empty.modules four_pages_left) (λ on. absurd (ground (arith, bit-zero 0)))
      (omega arith, omega arith) refl refl

unmap_page-refines_example :
    IsSpace table (unmap_page table 0x10000 empty).1
    × ((w : ℕ)
        → mmu_entry table (unmap_page table 0x10000 empty).1 w ≡ (
            if page_number table w == page_number table 0x10000
            then 0
            else mmu_entry table empty w))
unfolding unmap_page pml4_unmap_page bit
unmap_page-refines_example =
    unmap_page-refines table empty 0x10000 refl empty-IsSpace (λ e. absurd (omega arith))

-- Five levels: a page that has been mapped is still mapped after it has been unmapped.
abbrev table_five : PageTable
table_five = record table { five_levels = true }

unmapped_five :
    (map_page table_five (2 ^ 48) 0x207000 7 empty >>= λ s.
    some (mmu_entry table_five (unmap_page table_five (2 ^ 48) s.1).1 (2 ^ 48)))
    ≡ some 0x207007
unfolding map_page unmap_page pml5_unmap_page lowest_level pml5_map_page table_at map_at_pml2
    alloc_page pmm_alloc pmm_module_alloc align_up search_runs bit pml5_lowest_level
unmapped_five = refl

abbrev machine : Vm
machine = record { ram = empty; page_heap = []; counters = [] }

abbrev region : Region
region = record { base = 0x10000; limit = 0x1000; prot = 3; flags = 8; fd = 0; offset = 0 }

-- A page copied on writes at entry 0x201018, in the frame 0x205000, which is in use twice.
abbrev shared_page : Page
shared_page = record {
  paddr = 0x205000;
  vaddr = 0x3000;
  size = 0x1000;
  flags = 0x205;
  node = none;
  offset = 0;
  pml_entry = some 0x201018;
  reference = 0;
}

abbrev shared : Vm
shared = record {
  ram = record {
    words = λ x. if x == 0x201018 then 0x205205 else 7;
    modules = pages_from 2 35 ∷ [];
  };
  page_heap = shared_page ∷ [];
  counters = pos 2 ∷ [];
}

copy_on_write-Own_example :
    (frame : ℕ) × (m' : Vm) × (copy_on_write 0x201018 0 shared ≡ some m')
    × (has (m'.ram.words 0x201018) 1 ≡ true)
    × (has (m'.ram.words 0x201018) 9 ≡ false)
    × (address (m'.ram.words 0x201018) ≡ frame)
    × ((x : ℕ)
        → x < page_size
        → (m'.ram.words (frame + x) ≡ shared.ram.words (0x205000 + x))
          × (m'.ram.words (0x205000 + x) ≡ shared.ram.words (0x205000 + x)))
    × (at_most_one (pos 2) ≡ false → FreePage shared.ram.modules frame)
    × (at_most_one (pos 2) ≡ true → frame ≡ 0x205000)
    × (get_elem? m'.page_heap 0 ≡ some (record shared_page { paddr = frame; reference = 1 }))
    × (get_elem? m'.counters 0 ≡ some (decrement (pos 2)))
    × (get_elem? m'.counters 1 ≡ some (pos 1))
unfolding pmm_alloc pmm_module_alloc align_up search_runs bit get_bit
copy_on_write-Own_example =
    copy_on_write-Own 0x201018 0 shared shared_page (pos 2) refl refl
      (modules_in_order 2 35 (omega arith)) (0x202000, pages_from 3 39 ∷ [], refl, tt)
      (held 35 5 refl) (held 35 1 refl) (omega arith)

protect_page-IsProtected_example :
    (page' : Page) × (r' : Ram) × (protect_page shared_page shared.ram ≡ some (page', r'))
    × (has 0x205205 11 ≡ false
        → IsProtected 0x205205 (r'.words 0x201018) × IsProtected 0x205 page'.flags)
    × (has 0x205205 11 ≡ true → (r'.words 0x201018 ≡ 0x205205) × (page'.flags ≡ 0x205))
    × ((x : ℕ) → x ≢ 0x201018 → r'.words x ≡ shared.ram.words x)
    × (r'.modules ≡ shared.ram.modules)
    × (page' ≡ record shared_page { flags = page'.flags })
protect_page-IsProtected_example = protect_page-IsProtected shared_page shared.ram 0x201018 refl

no_files : ReadPage
no_files file offset paddr r = (pos 0, r)

-- The same space with a region that may only be read.
abbrev region_read : Region
region_read = record region { prot = 1 }

abbrev table_read : PageTable
table_read = record table { mmap_region_root = node leaf region_read leaf }

read-IsSpace : IsSpace table_read empty
read-IsSpace = empty-IsSpace

vmm_pf_handler-vmm_anon_map_example :
    (t' : PageTable) × (m' : Vm) × (a : ℕ) × (m'' : Vm) × (vmm_anon_map table_read 0x10234 machine
      ≡ some (1, t', m'))
    × (lowest_level t' 0x10000 m'.ram ≡ some a)
    × (has (m'.ram.words a) 0 ≡ true)
    × (has (m'.ram.words a) 1 ≡ false)
    × (vmm_pf_handler no_files 7 0x10234 t' m' ≡ some (1, t', m''))
    × (has (m''.ram.words a) 1 ≡ true)
unfolding bit mmap_search_region find probe accepts allocated start fnv_hash fnv_from bytes_of
vmm_pf_handler-vmm_anon_map_example =
    vmm_pf_handler-vmm_anon_map no_files 7 table_read 0x10234 12 machine region_read refl refl refl
      (omega arith) read-IsSpace four_pages_left (λ on. absurd (ground (arith, bit-zero 0)))
      (λ j k v e. absurd (ground arith)) refl
