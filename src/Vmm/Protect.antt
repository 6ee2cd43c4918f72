-- ===== src/Vmm/Protect.antt =====
-- What a fork and a protection fault do to the rights of a page.
use pastoral.Base.{
  ℕ, suc, ◌-◌, ◌%◌, ◌*◌, ◌<◌, ◌≡◌, ◌≢◌, ◌∙◌, ==_iff, refl, true, false, some, if◌then◌else◌, ◌==◌,
  arith, bit, bit_or, bit_and, complement, bit-bit_or, bit-bit_and, bit-complement, bit-pow,
  bit-lt_two, ◌/◌, Bool-cases, inl, inr,
}
use pastoral.Vmm.{Ram, PageTable, has, update, store, lowest_level, flag_rw, flag_cow}
use pastoral.Vmm.Places.{update-ne, update-eq}
use pastoral.Vmm.Fault.{Page, Vm, ReadPage, vmm_pf_handler, vmm_anon_map, bytes_of}
use pastoral.Hash.{accepts, allocated, find}
use pastoral.Hash.Push.{WellKeyed}
use pastoral.Mmap.{Region, mmap_search_region}
use pastoral.Pmm.{page_size}
use pastoral.Vmm.Descend.{Spare, Flat}
use pastoral.Vmm.Map.{IsSpace, top_level, mmu_entry, page_number, mmu_entry-found}
use pastoral.Vmm.Rights.{HasRights}
use pastoral.Vmm.Demand.{vmm_anon_map-refines}
use pastoral.Vmm.Fork.{protect, protect_page}

-- `f` is `e` without VMM_FLAGS_RW and with VMM_COW_FLAG.
pub record IsProtected (e f : ℕ) : Type 0 where
  pub read_only : bit f 1 ≡ 0
  pub copied : bit f 9 ≡ 1
  pub others : (i : ℕ) → i < 64 → i ≢ 1 → i ≢ 9 → bit f i ≡ bit e i

protect-bit :
    (i e : ℕ) → i < 64 → bit (protect e) i ≡ (if i == 9 then 1 else (if i == 1 then 0 else bit e i))
protect-bit i e lt = ground (
  arith,
  bit-bit_or i (bit_and e (complement 64 flag_rw)) flag_cow,
  bit-bit_and i e (complement 64 flag_rw),
  bit-complement i 64 flag_rw lt (omega arith),
  bit-pow i 9,
  bit-pow i 1,
  bit-lt_two i e,
)

protect-IsProtected : (e : ℕ) → IsProtected e (protect e)
protect-IsProtected e = record {
  read_only = protect-bit 1 e (omega arith);
  copied = protect-bit 9 e (omega arith);
  others = λ i lt n1 n9. ground (arith, protect-bit i e lt);
}

-- What a fork does to each page of the parent, before the child maps it: it takes the right to write from
-- the entry of a page that is not shared, and from its flags, with which the child maps it, and marks
-- both as copied on writes; all other digits, all other memory, the other fields of the page and the
-- modules of the allocator stay. It changes nothing of a shared page.
pub protect_page-IsProtected :
    (page : Page) (r : Ram) (a : ℕ)
    → page.pml_entry ≡ some a
    → (page' : Page) × (r' : Ram) × (protect_page page r ≡ some (page', r'))
      × (has (r.words a) 11 ≡ false
          → IsProtected (r.words a) (r'.words a) × IsProtected page.flags page'.flags)
      × (has (r.words a) 11 ≡ true → (r'.words a ≡ r.words a) × (page'.flags ≡ page.flags))
      × ((x : ℕ) → x ≢ a → r'.words x ≡ r.words x)
      × (r'.modules ≡ r.modules)
      × (page' ≡ record page { flags = page'.flags })
unfolding protect_page
protect_page-IsProtected page r a at = elim (Bool-cases (has (r.words a) 11)) [
  | inl shared ↦ (
    page,
    r,
    rw (protect_page, at, shared) refl,
    λ e. absurd (ground arith),
    λ e. (refl, refl),
    λ x ne. refl,
    refl,
    refl,
  )
  | inr own ↦ (
    record page { flags = protect page.flags },
    store a (protect (r.words a)) r,
    rw (protect_page, at, own) refl,
    λ e.
        let slot : update a (protect (r.words a)) r.words a ≡ protect (r.words a) =
          update-eq a (protect (r.words a)) r.words in
        (rw slot (protect-IsProtected (r.words a)), protect-IsProtected page.flags),
    λ e. absurd (ground arith),
    λ x ne. update-ne a (protect (r.words a)) x r.words ne,
    refl,
    refl,
  )
]

-- The digits of an entry without the right to write.
entry_bits :
    (paddr flags prot : ℕ)
    → paddr % page_size ≡ 0
    → HasRights prot flags
    → bit prot 1 ≡ 0
    → let e = bit_or paddr flags in (has e 0 ≡ true) × (has e 1 ≡ false) × (has e 9 ≡ false)
entry_bits paddr flags prot whole rights forbidden =
    let low : bit paddr 1 ≡ 0 = unfold bit in omega arith in
    let mark : bit paddr 9 ≡ 0 = unfold bit in omega arith in
    (
      ground (arith, bit-bit_or 0 paddr flags, rights.is_present),
      ground (arith, bit-bit_or 1 paddr flags, rights.writable, low),
      ground (
        arith,
        bit-bit_or 9 paddr flags,
        rights.nothing_else 9 (omega arith) (omega arith),
        mark,
      ),
    )

-- A protection fault at an entry that is not copied on writes.
fault_grants :
    (read : ReadPage) (error_code addr a : ℕ) (t : PageTable) (m : Vm)
    → has error_code 0 ≡ true
    → lowest_level t (addr / 0x1000 * 0x1000) m.ram ≡ some a
    → has (m.ram.words a) 9 ≡ false
    → (m' : Vm) × (vmm_pf_handler read error_code addr t m ≡ some (1, t, m'))
      × (has (m'.ram.words a) 1 ≡ true)
unfolding vmm_pf_handler
fault_grants read error_code addr a t m violation at plain =
    let e : ℕ = bit_or (m.ram.words a) flag_rw in
    (
      record m { ram = store a e m.ram },
      rw (vmm_pf_handler, violation, at, plain) refl,
      ground (
        arith,
        update-eq a e m.ram.words,
        bit-bit_or 1 (m.ram.words a) flag_rw,
        bit-pow 1 1,
        bit-lt_two 1 (m.ram.words a),
      ),
    )

-- A page of a region without MMAP_PROT_WRITE, made by the first access to it: it is mapped without the
-- right to write, and a later write to it, which is a protection fault, makes it writable and counts as
-- resolved, although the region forbids it.
pub vmm_pf_handler-vmm_anon_map :
    (read : ReadPage) (error_code : ℕ) (t : PageTable) (addr i : ℕ) (m : Vm) (region : Region)
    → has error_code 0 ≡ true
    → bit region.prot 1 ≡ 0
    → mmap_search_region addr t.mmap_region_root ≡ some region
    → region.prot ≢ 0
    → IsSpace t m.ram
    → Spare (suc (top_level t)) m.ram.modules
    → Flat (top_level t) m.ram.words t.pml_high (addr - addr % page_size)
    → WellKeyed 8 t.pages
    → find
        (accepts (bytes_of 8 (addr - addr % page_size)))
        (bytes_of 8 (addr - addr % page_size))
        (allocated t.pages)
      ≡ some i
    → (t' : PageTable) × (m' : Vm) × (a : ℕ) × (m'' : Vm) × (vmm_anon_map t addr m
        ≡ some (1, t', m'))
      × (lowest_level t' (addr / 0x1000 * 0x1000) m'.ram ≡ some a)
      × (has (m'.ram.words a) 0 ≡ true)
      × (has (m'.ram.words a) 1 ≡ false)
      × (vmm_pf_handler read error_code addr t' m' ≡ some (1, t', m''))
      × (has (m''.ram.words a) 1 ≡ true)
vmm_pf_handler-vmm_anon_map read error_code t addr i m region violation forbidden found some_right
      space spare flat keyed room =
    let (paddr, flags, t', m', made, free, whole, rights, space', views, listed) =
      vmm_anon_map-refines t addr i m region found some_right space spare flat keyed room in
    let v : ℕ = addr / 0x1000 * 0x1000 in
    let page : v / 0x1000 ≡ addr / 0x1000 = omega arith in
    let at : mmu_entry t' m'.ram v ≡ bit_or paddr flags =
      views v ∙ rw (page, (==_iff (page_number t addr) (page_number t addr)).1 refl) refl in
    let (on, closed, plain) = entry_bits paddr flags region.prot whole rights forbidden in
    let (a, there, is_e) = mmu_entry-found t' m'.ram v (bit_or paddr flags) on at in
    let (m'', handled, granted) =
      fault_grants read error_code addr a t' m' violation there (rw is_e plain) in
    (t', m', a, m'', made, there, rw is_e on, rw is_e closed, handled, granted)
