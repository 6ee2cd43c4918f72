-- ===== src/Mmap.antt =====
-- The regions of kernel/mm/mmap.c and the insertion of kernel/lib/bst.h.
pub mod Regions
pub mod Fresh
mod Tests
use pastoral.Base.{
  ℕ, zero, suc, ◌+◌, ◌-◌, ◌*◌, ◌/◌, ◌%◌, ◌^◌, Bool, true, false, not, ◌&&◌, ◌||◌, Option, none,
  some, ltb, leb, ◌==◌, if◌then◌else◌, bit_and, ◌>>=◌,
}
use pastoral.Bitmap.{div_roundup}
use pastoral.Process.{Reply, ret, fail, einval}

-- `struct mmap_region` without its pointers; `limit` is the length.
pub record Region : Type 0 where
  pub base : ℕ
  pub limit : ℕ
  pub prot : ℕ
  pub flags : ℕ
  pub fd : ℕ
  pub offset : ℕ

-- The tree behind `mmap_region_root`: left child, region, right child.
pub data Tree : Type 0 where
  leaf : Tree
  node : Tree → Region → Tree → Tree

-- `BST_GENERIC_INSERT` of a node without children
unfoldable pub insert : Region → Tree → Tree
insert r leaf = node leaf r leaf
insert r (node lo x hi) =
    if ltb r.base x.base then node (insert r lo) x hi else node lo x (insert r hi)

-- `root->base + root->limit` wraps at 64 bits.
abbrev pub end_of : Region → ℕ
end_of r = (r.base + r.limit) % 2 ^ 64

-- `validate_region`: what to add to the base, as a 64-bit word; -1 if no region holds it.
unfoldable pub validate_region : ℕ → ℕ → Tree → ℕ
validate_region base len leaf = 2 ^ 64 - 1
validate_region base len (node lo x hi) =
    let left = validate_region base len lo in
    let right = validate_region base len hi in
    if leb x.base base && ltb base (end_of x)
    then (x.base + x.limit + 2 ^ 64 - base + len) % 2 ^ 64
    else if ltb base x.base
    then left
    else right

-- `mmap_search_region`; the end of a region counts as inside.
unfoldable pub mmap_search_region : ℕ → Tree → Option Region
mmap_search_region base leaf = none
mmap_search_region base (node lo x hi) =
    let left = mmap_search_region base lo in
    let right = mmap_search_region base hi in
    if leb x.base base && leb base (end_of x)
    then some x
    else if ltb base x.base
    then left
    else right

-- The part of `struct page_table` that `mmap` keeps.
pub record Space : Type 0 where
  pub mmap_region_root : Tree
  pub mmap_bump_base : ℕ

-- The loop that looks for a base, on fuel.
unfoldable pub find_base : ℕ → ℕ → ℕ → Tree → Option ℕ
unfolding validate_region
find_base zero base len t = none
find_base (suc n) base len t =
    let conflict_offset = validate_region base len t in
    let rest = find_base n ((base + conflict_offset) % 2 ^ 64) len t in
    if conflict_offset == 2 ^ 64 - 1 then some base else rest

abbrev pub page_size : ℕ
page_size = 0x1000

-- `ALIGN_UP(length, PAGE_SIZE)`
abbrev pub align_up : ℕ → ℕ
align_up len = (len + (page_size - 1)) % 2 ^ 64 / page_size * page_size

-- The end of an anonymous `mmap`: the checks and the new region.
unfoldable pub map_at : ℕ → ℕ → ℕ → ℕ → ℕ → ℕ → Space → Reply × Space
unfolding insert
map_at base len prot flags fd offset s =
    if len == 0 || base == 0
    then (fail einval, s)
    else if not (base % page_size == 0) || not (len % page_size == 0)
    then (fail einval, s)
    else (
      ret base,
      record s {
        mmap_region_root =
            insert
              (record {
                base = base;
                limit = len;
                prot = prot;
                flags = flags;
                fd = fd;
                offset = offset;
              })
              s.mmap_region_root;
      },
    )

-- `mmap` without MMAP_MAP_FIXED, for MMAP_MAP_ANONYMOUS.
unfoldable pub mmap : ℕ → ℕ → ℕ → ℕ → ℕ → ℕ → Space → Option (Reply × Space)
unfolding find_base map_at
mmap fuel bytes prot flags fd offset s =
    let len = align_up bytes in
    do
      base ← find_base fuel s.mmap_bump_base len s.mmap_region_root
      some (
          map_at base len prot flags fd offset
            (record s { mmap_bump_base = (base + len) % 2 ^ 64 }))
