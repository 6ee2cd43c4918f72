-- ===== src/Mmap/Tests.antt =====
-- Runs of the mappings, and their theorem at a small space.
use pastoral.Base.{◌<◌, ◌⊎◌, ◌+◌, ◌≡◌, ◌≤◌, refl, some, inl, inr, arith, ◌>>=◌, ap}
use pastoral.Process.{ret}
use pastoral.Mmap.{
  Region, leaf, node, Space, mmap, mmap_search_region, find_base, validate_region, map_at, insert,
}
use pastoral.Mmap.Regions.{Mem, Paged}
use pastoral.Mmap.Fresh.{mmap-Fresh}

abbrev page : Region
page = record { base = 0x10000; limit = 0x1000; prot = 3; flags = 8; fd = 0; offset = 0 }

abbrev one_page : Space
one_page = record { mmap_region_root = node leaf page leaf; mmap_bump_base = 0x11000 }

-- The next base lies in the region, so that the loop goes round once.
abbrev in_the_way : Space
in_the_way = record one_page { mmap_bump_base = 0x10000 }

mmap-Fresh_example :
    (r : Region) × (s' : Space) × (mmap 2 5 3 8 0 0 in_the_way ≡ some (ret r.base, s'))
    × (0x10000 ≤ r.base)
    × (5 ≤ r.limit)
    × Mem r s'.mmap_region_root
    × ((x : Region)
        → Mem x (node leaf page leaf)
        → Mem x s'.mmap_region_root × ((r.base < x.base) ⊎ (x.base + x.limit ≤ r.base)))
    × (s'.mmap_bump_base ≡ r.base + r.limit)
mmap-Fresh_example =
    mmap-Fresh 2 5 3 8 0 0 in_the_way ((λ r m. absurd m), (λ r m. absurd m), tt, tt) paged
      (omega arith) (omega arith) refl (omega arith) (omega arith) (omega arith)
  where
    paged : Paged (node leaf page leaf)
    paged r (inl e) = (
      ground (arith, ap (λ y. y.base + y.limit) e),
      ground (arith, ap (λ y. y.base) e),
      ground (arith, ap (λ y. y.limit) e),
    )
    paged r (inr (inl m)) = absurd m
    paged r (inr (inr m)) = absurd m

-- Two pages are put at a base that no region holds, and overlap the region behind it.
overlapping :
    (mmap 2 0x2000 3 8 0 0 (record one_page { mmap_bump_base = 0xf000 }) >>= λ r. some r.0)
    ≡ some (ret 0xf000)
unfolding mmap find_base validate_region map_at insert
overlapping = refl

-- The region that a second call returns is not the one that is found at its own base: the end of the
-- first region counts as inside.
found_at_second_base :
    (mmap 1 5 3 8 0 0 one_page >>= λ r. mmap_search_region 0x11000 r.1.mmap_region_root) ≡ some page
unfolding mmap find_base validate_region map_at insert mmap_search_region
found_at_second_base = refl
