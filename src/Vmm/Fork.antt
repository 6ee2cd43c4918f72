-- ===== src/Vmm/Fork.antt =====
-- `vmm_fork_page_table`: the pages of the parent become copies on writes.
use pastoral.Base.{
  ℕ, Option, none, some, [], ◌∷◌, ◌++◌, length, get_elem?, set, if◌then◌else◌, ◌>>=◌, bit_and,
  bit_or, complement,
}
use pastoral.Hash.{Table}
use pastoral.Mmap.{Tree, leaf, node}
use pastoral.Vmm.{Ram, PageTable, map_page, has, store, flag_rw, flag_cow}
use pastoral.Vmm.Range.{Boot, vmm_default_table}
use pastoral.Vmm.Fault.{Page, Vm, push_page, increment}

unfoldable pub vmm_copy_region_tree : Tree → Tree
vmm_copy_region_tree leaf = leaf
vmm_copy_region_tree (node lo x hi) = node (vmm_copy_region_tree lo) x (vmm_copy_region_tree hi)

-- Without VMM_FLAGS_RW, with VMM_COW_FLAG.
abbrev pub protect : ℕ → ℕ
protect flags = bit_or (bit_and flags (complement 64 flag_rw)) flag_cow

-- The entry and the page, unless the entry has VMM_SHARE_FLAG. The pointer to the entry may be NULL.
unfoldable pub protect_page : Page → Ram → Option (Page × Ram)
protect_page page r = do
  a ← page.pml_entry
  if has (r.words a) 11
      then some (page, r)
      else some (record page { flags = protect page.flags }, store a (protect (r.words a)) r)

-- The body of the loop for page number `i`, with the table of the child.
unfoldable pub fork_page : ℕ → PageTable → Vm → Option (PageTable × Vm)
unfolding protect_page increment push_page map_page
fork_page i child m = do
  page₀ ← get_elem? m.page_heap i
  (page, r₁) ← protect_page page₀ m.ram
  count ← get_elem? m.counters page.reference
  (entry, r₂) ← map_page child page.vaddr page.paddr page.flags r₁
  pages ← push_page child.pages page.vaddr (length m.page_heap)
  some (
    record child { pages = pages },
    record {
      ram = r₂;
      page_heap = set m.page_heap i page ++ record page { pml_entry = entry } ∷ [];
      counters = set m.counters page.reference (increment count);
    },
  )

-- The loop over `pages->data`.
unfoldable pub fork_pages : Table ℕ → PageTable → Vm → Option (PageTable × Vm)
unfolding fork_page
fork_pages [] child m = some (child, m)
fork_pages (none ∷ slots) child m = fork_pages slots child m
fork_pages (some (k, i) ∷ slots) child m = fork_page i child m >>= λ s. fork_pages slots s.0 s.1

unfoldable pub vmm_fork_page_table : Boot → PageTable → Vm → Option (PageTable × Vm)
unfolding vmm_default_table fork_pages vmm_copy_region_tree
vmm_fork_page_table b t m = do
  (child₀, r) ← vmm_default_table b m.ram
  (child, m') ← fork_pages t.pages child₀ (record m { ram = r })
  some (record child { mmap_region_root = vmm_copy_region_tree t.mmap_region_root }, m')
