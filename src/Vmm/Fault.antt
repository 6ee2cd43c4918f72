-- ===== src/Vmm/Fault.antt =====
-- Page faults: pages that are made on the first access, and pages that are copied on a write.
use pastoral.Base.{
  ℕ, zero, suc, ◌+◌, ◌-◌, ◌*◌, ◌/◌, ◌%◌, ◌^◌, Bool, true, false, not, Option, none, some, List, [],
  ◌∷◌, ◌++◌, length, get_elem?, set, leb, ltb, if◌then◌else◌, ◌>>=◌, ◌&&◌, bit_and, bit_or,
  complement, ℤ, pos, negsuc,
}
use pastoral.Hash.{Table, push_calls, search}
use pastoral.Mmap.{mmap_search_region}
use pastoral.Pmm.{page_size}
use pastoral.Vmm.{
  Ram, PageTable, map_page, lowest_level, has, address, store, alloc_page, flag_p, flag_rw, flag_us,
  flag_nx,
}
use pastoral.Vmm.Range.{alloc_frame}

-- `struct page`; `reference` is a pointer to a counter, which several pages share.
pub record Page : Type 0 where
  pub paddr : ℕ
  pub vaddr : ℕ
  pub size : ℕ
  pub flags : ℕ
  pub node : Option ℕ
  pub offset : ℕ
  pub pml_entry : Option ℕ
  pub reference : ℕ

-- The memory, the `struct page` objects and the counters that have been allocated.
pub record Vm : Type 0 where
  pub ram : Ram
  pub page_heap : List Page
  pub counters : List ℤ

-- A key of `pages`: the eight bytes of an address.
unfoldable pub bytes_of : ℕ → ℕ → List ℕ
bytes_of zero v = []
bytes_of (suc n) v = (v % 2 ^ 8) ∷ bytes_of n (v / 2 ^ 8)

-- `hash_table_push` on `pages`. Every level of its calls doubles the capacity, so that 64 of them
-- pass every size of an address space.
unfoldable pub push_page : Table ℕ → ℕ → ℕ → Option (Table ℕ)
push_page pages vaddr page = push_calls 64 pages (bytes_of 8 vaddr) page

unfoldable pub search_page : Table ℕ → ℕ → Option ℕ
search_page pages vaddr = search pages (bytes_of 8 vaddr)

unfoldable pub increment : ℤ → ℤ
increment (pos n) = pos (n + 1)
increment (negsuc zero) = pos 0
increment (negsuc (suc n)) = negsuc n

unfoldable pub decrement : ℤ → ℤ
decrement (pos zero) = negsuc 0
decrement (pos (suc n)) = pos n
decrement (negsuc n) = negsuc (n + 1)

-- `(*page->reference) <= 1`
unfoldable pub at_most_one : ℤ → Bool
at_most_one (pos n) = leb n 1
at_most_one (negsuc n) = true

-- The rights of a region as flags; MMAP_PROT_NONE is 0, so its test never holds.
unfoldable pub region_flags : ℕ → ℕ
region_flags prot =
    let start = bit_or flag_p flag_nx in
    let written = if has prot 1 then bit_or start flag_rw else start in
    let used = if has prot 3 then bit_or written flag_us else written in
    if has prot 2 then bit_and used (complement 64 flag_nx) else used

-- The page that `vmm_anon_map` makes for an address.
unfoldable pub make_page : PageTable → ℕ → ℕ → Vm → Option (PageTable × Vm)
unfolding alloc_frame map_page push_page
make_page t vaddr flags m = do
  (paddr, r₁) ← alloc_frame 1 m.ram
  (entry, r₂) ← map_page t vaddr paddr flags r₁
  pages ← push_page t.pages vaddr (length m.page_heap)
  some (
    record t { pages = pages },
    record {
      ram = r₂;
      page_heap =
          m.page_heap
          ++ record {
            paddr = paddr;
            vaddr = vaddr;
            size = page_size;
            flags = flags;
            node = none;
            offset = 0;
            pml_entry = entry;
            reference = length m.counters;
          }
            ∷ [];
      counters = m.counters ++ pos 1 ∷ [];
    },
  )

unfoldable pub vmm_anon_map : PageTable → ℕ → Vm → Option (ℕ × PageTable × Vm)
unfolding make_page mmap_search_region region_flags
vmm_anon_map t addr m = elim (mmap_search_region addr t.mmap_region_root) [
  | none ↦ some (0, t, m)
  | some region ↦ (do
    (t', m') ← make_page t (addr - addr % page_size) (region_flags region.prot) m
    some (1, t', m'))
]

-- `node->asset->read` of a page at an offset, into the page of memory at an address.
abbrev pub ReadPage : Type 0
ReadPage = ℕ → ℕ → ℕ → Ram → ℤ × Ram

is_minus_one : ℤ → Bool
is_minus_one (negsuc zero) = true
is_minus_one (negsuc (suc n)) = false
is_minus_one (pos n) = false

-- What `vmm_file_map` does with the page of a file.
unfoldable pub load_page : ReadPage → PageTable → ℕ → Page → ℕ → Ram → Option (ℕ × Ram)
unfolding is_minus_one lowest_level
load_page read t faulting_page page node r =
    let lowest = lowest_level t faulting_page r in
    let (got, r') = read node page.offset page.paddr r in
    if is_minus_one got
    then some (0, r')
    else (do a ← lowest; some (1, store a (bit_or (r'.words a) flag_p) r'))

unfoldable pub vmm_file_map : ReadPage → PageTable → ℕ → Vm → Option (ℕ × Vm)
unfolding load_page mmap_search_region search_page
vmm_file_map read t addr m =
    let faulting_page = addr / 0x1000 * 0x1000 in
    elim (mmap_search_region addr t.mmap_region_root) [
      | none ↦ some (0, m)
      | some region ↦ elim (search_page t.pages faulting_page) [
        | none ↦ some (0, m)
        | some i ↦ (do
          page ← get_elem? m.page_heap i
          elim page.node [
            | none ↦ some (0, m)
            | some node ↦ (do
              (status, r) ← load_page read t faulting_page page node m.ram
              some (status, record m { ram = r }))
          ])
      ]
    ]

-- `memcpy64` of a page
abbrev pub copy_page : ℕ → ℕ → (ℕ → ℕ) → ℕ → ℕ
copy_page to from words x =
    if leb to x && ltb x (to + page_size) then words (from + (x - to)) else words x

-- The frame that a write to a page copied on writes goes to.
unfoldable pub own_frame : ℕ → ℤ → Ram → Option (ℕ × Ram)
unfolding alloc_page at_most_one
own_frame original count r = if at_most_one count then some (original, r) else (do
  (frame, r') ← alloc_page r
  some (frame, record r' { words = copy_page frame original r'.words }))

-- The branch for VMM_COW_FLAG, with the entry at `a` and page number `i`.
unfoldable pub copy_on_write : ℕ → ℕ → Vm → Option Vm
unfolding own_frame decrement
copy_on_write a i m =
    let pmll_entry = m.ram.words a in
    do
      page ← get_elem? m.page_heap i
      count ← get_elem? m.counters page.reference
      (frame, r) ← own_frame (address pmll_entry % 2 ^ 40) count m.ram
      some (record {
        ram = store a (bit_or frame (bit_or (pmll_entry % 0x200) flag_rw)) r;
        page_heap =
            set m.page_heap i (record page { paddr = frame; reference = length m.counters });
        counters = set m.counters page.reference (decrement count) ++ pos 1 ∷ [];
      })

-- `vmm_pf_handler` for a task whose page table is `t`: the status, which is 0 for a fault that is not
-- resolved.
unfoldable pub vmm_pf_handler : ReadPage → ℕ → ℕ → PageTable → Vm → Option (ℕ × PageTable × Vm)
unfolding lowest_level vmm_file_map vmm_anon_map search_page copy_on_write
vmm_pf_handler read error_code addr t m =
    let faulting_page = addr / 0x1000 * 0x1000 in
    let lowest = lowest_level t faulting_page m.ram in
    let pmll_entry : ℕ = elim lowest [ none ↦ 0 | some a ↦ m.ram.words a ] in
    if not (has error_code 0)
    then (if has pmll_entry 10
        then (do (status, m') ← vmm_file_map read t addr m; some (status, t, m'))
        else vmm_anon_map t addr m)
    else if has pmll_entry 9
    then elim (search_page t.pages faulting_page) [
      | none ↦ some (0, t, m)
      | some i ↦ (do a ← lowest; m' ← copy_on_write a i m; some (1, t, m'))
    ]
    else (do
      a ← lowest
      some (1, t, record m { ram = store a (bit_or (m.ram.words a) flag_rw) m.ram }))
