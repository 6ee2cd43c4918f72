-- ===== src/Vmm/Demand.antt =====
-- Pages of anonymous mappings are made on their first access.
use pastoral.Base.{
  ℕ, zero, suc, ◌+◌, ◌-◌, ◌*◌, ◌/◌, ◌%◌, ◌^◌, ◌<◌, ◌≡◌, ◌≢◌, refl, sym, ap, ◌∙◌, true, none, some,
  List, [], ◌∷◌, ◌++◌, length, ◌==◌, if◌then◌else◌, arith, bit_or, subst, pos,
}
use pastoral.Hash.{accepts, allocated, find}
use pastoral.Hash.Probe.{IsKey}
use pastoral.Hash.Push.{WellKeyed, search-push}
use pastoral.Mmap.{Region, mmap_search_region}
use pastoral.Pmm.{PmmModule, page_size}
use pastoral.Pmm.Frames.{FreePage, Handed, pmm_alloc-some-Handed}
use pastoral.Vmm.{Ram, PageTable, has, address, clear_page}
use pastoral.Vmm.View.{index, present, view, view-zero, view-cong}
use pastoral.Vmm.Places.{Labels, IsPlaced}
use pastoral.Vmm.Descend.{Spare, Flat}
use pastoral.Vmm.Map.{IsSpace, top_level, mmu_entry, mmu_entry-view, page_number, map_page-refines}
use pastoral.Vmm.Range.{alloc_frame}
use pastoral.Vmm.Rights.{HasRights, region_flags-IsGood, region_flags-HasRights}
use pastoral.Vmm.Fault.{Vm, bytes_of, push_page, search_page, region_flags, make_page, vmm_anon_map}

module _ {labels : Labels} {n root : ℕ} {r : Ram} (t : IsPlaced labels n root r) (f : ℕ)
    (ms' : List PmmModule) (h : Handed r.modules f ms') where
  cleared : Ram
  cleared = record { words = clear_page f r.words; modules = ms' }

  cleared-kept :
      (x l m j : ℕ)
      → labels x ≡ some (l, m)
      → j < 0x200
      → clear_page f r.words (x + 8 * j) ≡ r.words (x + 8 * j)
  cleared-kept x l m j e b =
      let low : x % 0x1000 ≡ 0 = t.aligned x l m e in
      let other : x ≢ f =
        λ same. t.held x l m e (subst (FreePage r.modules) (sym same) h.was_free) in
      ground (arith, h.page)

  view-cleared :
      (l x m v : ℕ)
      → labels x ≡ some (l, m)
      → view l (clear_page f r.words) x v ≡ view l r.words x v
  view-cleared zero x m v e =
      view-zero (clear_page f r.words) x v
      ∙ ap present (cleared-kept x 0 m (index 0 v) e (omega arith))
      ∙ sym (view-zero r.words x v)
  view-cleared (suc l) x m v e =
      view-cong r.words (clear_page f r.words) x v l
        (cleared-kept x (suc l) m (index (suc l) v) e (omega arith))
        (λ on small.
          view-cleared l (address (r.words (x + 8 * index (suc l) v))) (m * 0x200 + index (suc l) v)
            v (t.child x l m (index (suc l) v) e (omega arith) on small))

  Flat-cleared :
      (l x m v : ℕ)
      → labels x ≡ some (l, m)
      → Flat l r.words x v
      → Flat l (clear_page f r.words) x v
  Flat-cleared zero x m v e flat = tt
  Flat-cleared (suc l) x m v e flat = λ on.
      let kept : clear_page f r.words (x + 8 * index (suc l) v)
          ≡ r.words (x + 8 * index (suc l) v) =
        cleared-kept x (suc l) m (index (suc l) v) e (omega arith) in
      let on' : has (r.words (x + 8 * index (suc l) v)) 0 ≡ true = rw (← kept) on in
      (
        λ z. rw kept ((flat on').0 z),
        subst (λ (a : ℕ). Flat l (clear_page f r.words) (address a) v) (sym kept)
            (Flat-cleared l (address (r.words (x + 8 * index (suc l) v)))
              (m * 0x200 + index (suc l) v) v
              (t.child x l m (index (suc l) v) e (omega arith) on' (flat on').0) (flat on').1),
      )

  cleared-IsPlaced : IsPlaced labels n root (record { words = clear_page f r.words; modules = ms' })
  cleared-IsPlaced = record {
    top = t.top;
    aligned = t.aligned;
    held = λ x l m e free. t.held x l m e (h.shrinks x free).0;
    child = λ x l m j e b on small.
        let kept : clear_page f r.words (x + 8 * j) ≡ r.words (x + 8 * j) =
          cleared-kept x (suc l) m j e b in
        ap (λ a. labels (address a)) kept
        ∙ t.child x l m j e b (rw (← kept) on) (λ z. rw (← kept) (small z));
  }

bytes_of-IsKey : (n v : ℕ) → IsKey n (bytes_of n v)
unfolding bytes_of
bytes_of-IsKey zero v = record { bytes = tt; long = refl }
bytes_of-IsKey (suc n) v =
    let rest : IsKey n (bytes_of n (v / 2 ^ 8)) = bytes_of-IsKey n (v / 2 ^ 8) in
    record { bytes = (omega arith, rest.bytes); long = ap suc rest.long }

pub vmm_anon_map-refines :
    (t : PageTable) (addr i : ℕ) (m : Vm) (region : Region)
    → mmap_search_region addr t.mmap_region_root ≡ some region
    → region.prot ≢ 0
    → IsSpace t m.ram
    → Spare (suc (top_level t)) m.ram.modules
    → Flat (top_level t) m.ram.words t.pml_high (addr - addr % page_size)
    → WellKeyed 8 t.pages
    → find
        (accepts (bytes_of 8 (addr - addr % page_size)))
        (bytes_of 8 (addr - addr % page_size))
        (allocated t.pages)
      ≡ some i
    → (paddr : ℕ) × (flags : ℕ) × (t' : PageTable) × (m' : Vm) × (vmm_anon_map t addr m
        ≡ some (1, t', m'))
      × FreePage m.ram.modules paddr
      × (paddr % page_size ≡ 0)
      × HasRights region.prot flags
      × IsSpace t' m'.ram
      × ((w : ℕ)
          → mmu_entry t' m'.ram w ≡ (
              if page_number t w == page_number t addr
              then bit_or paddr flags
              else mmu_entry t m.ram w))
      × (search_page t'.pages (addr - addr % page_size) ≡ some (length m.page_heap))
unfolding vmm_anon_map make_page alloc_frame push_page search_page
vmm_anon_map-refines t addr i m region found some_right (labels, tree, ms) (f, ms', got, more) flat
      keyed room =
    let h : Handed m.ram.modules f ms' = pmm_alloc-some-Handed m.ram.modules ms' f ms got in
    let r₁ : Ram = record { words = clear_page f m.ram.words; modules = ms' } in
    let vaddr : ℕ = addr - addr % page_size in
    let (fl, on, small) = region_flags-IsGood region.prot in
    let (a, r₂, mapped, holds, space, views) =
      map_page-refines t r₁ vaddr f (region_flags region.prot)
        (labels, cleared-IsPlaced tree f ms' h, h.still) more
        (Flat-cleared tree f ms' h (top_level t) t.pml_high 1 vaddr tree.top flat) fl on small in
    let (pages, pushed, here, others) =
      search-push 8 63 t.pages (bytes_of 8 vaddr) (length m.page_heap) i keyed
        (bytes_of-IsKey 8 vaddr) room in
    (
      f,
      region_flags region.prot,
      record t { pages = pages },
      record {
        ram = r₂;
        page_heap =
            m.page_heap
            ++ record {
              paddr = f;
              vaddr = vaddr;
              size = page_size;
              flags = region_flags region.prot;
              node = none;
              offset = 0;
              pml_entry = some a;
              reference = length m.counters;
            }
              ∷ [];
        counters = m.counters ++ pos 1 ∷ [];
      },
      rw (vmm_anon_map, found, got, mapped, pushed) refl,
      h.was_free,
      h.page,
      region_flags-HasRights region.prot,
      space,
      λ w.
          let same : vaddr / 0x1000 ≡ addr / 0x1000 = omega arith in
          let old : mmu_entry t r₁ w ≡ mmu_entry t m.ram w =
            mmu_entry-view t r₁ w
            ∙ view-cleared tree f ms' h (top_level t) t.pml_high 1 w tree.top
            ∙ sym (mmu_entry-view t m.ram w) in
          mmu_entry-view (record t { pages = pages }) r₂ w
          ∙ sym (mmu_entry-view t r₂ w)
          ∙ views w
          ∙ rw (same, old) refl,
      here,
    )
