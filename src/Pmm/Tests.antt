-- ===== src/Pmm/Tests.antt =====
-- Runs of the page allocator, and its theorems at a small module.
use pastoral.Base.{ℕ, ◌≡◌, refl, [], ◌∷◌, none, some, true, arith, bit}
use pastoral.Bitmap.{get_bit}
use pastoral.Pmm.{
  PmmModule, MemmapEntry, pmm_module_alloc, pmm_module_free, pmm_free, clip, align_up, search_runs,
}
use pastoral.Pmm.Alloc.{IsModule, Allocated, pmm_module_alloc-Allocated}
use pastoral.Pmm.Release.{pmm_module_alloc-free, pmm_free-outside}

-- Sixteen pages from address 0x200000 on, of which 0, 1 and 2 are taken.
abbrev sixteen : PmmModule
sixteen = record { base = 0x200000; bitmap_entry_cnt = 16; last_free = 3; bits = 7 ∷ 0 ∷ [] }

abbrev higher : PmmModule
higher = record { base = 0x400000; bitmap_entry_cnt = 16; last_free = 1; bits = 1 ∷ 0 ∷ [] }

abbrev after : PmmModule
after = record sixteen { last_free = 5; bits = 55 ∷ 0 ∷ [] }

two_aligned :
    pmm_module_alloc sixteen 2 2
    ≡ some (some 0x204000, record sixteen { last_free = 6; bits = 55 ∷ 0 ∷ [] })
unfolding pmm_module_alloc align_up search_runs bit
two_aligned = refl

sixteen-IsModule : IsModule 4 sixteen
sixteen-IsModule = record {
  covered = omega arith;
  fits = omega arith;
  hint = omega arith;
  aligned = refl;
}

pmm_module_alloc-Allocated_example : Allocated 2 2 sixteen (pmm_module_alloc sixteen 2 2)
pmm_module_alloc-Allocated_example =
    pmm_module_alloc-Allocated 2 2 sixteen sixteen-IsModule (omega arith) (omega arith)

pmm_module_alloc-free_example :
    (m₂ : PmmModule) × (pmm_module_free
        (record sixteen { last_free = 6; bits = 55 ∷ 0 ∷ [] })
        0x4000
        2
      ≡ some m₂)
    × ((x : ℕ) → get_bit m₂.bits x ≡ get_bit (7 ∷ 0 ∷ []) x)
pmm_module_alloc-free_example =
    pmm_module_alloc-free 2 2 0x204000 sixteen
      (record sixteen { last_free = 6; bits = 55 ∷ 0 ∷ [] }) sixteen-IsModule (omega arith)
      (omega arith) (omega arith) two_aligned

-- Page 0 of the second module is page 0x200 of the first.
pmm_free-outside_example : pmm_free 0x400000 1 (sixteen ∷ higher ∷ []) ≡ none
pmm_free-outside_example =
    pmm_free-outside sixteen (higher ∷ []) 0x200 1 (omega arith) (omega arith) (omega arith)
      (omega arith) (omega arith)

-- 2 MiB from address 0x80000 on
abbrev low : MemmapEntry
low = record { base = 0x80000; entry_length = 0x200000; usable = true }

-- Half a MiB is cut off at the start, and the length stays.
clipped : clip low ≡ record { base = 0x100000; entry_length = 0x200000; usable = true }
unfolding clip
clipped = refl
