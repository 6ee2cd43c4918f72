-- ===== src/Mmap/Fresh.antt =====
-- Where `mmap` without an address puts a region.
use pastoral.Base.{
  ℕ, zero, suc, ◌∙◌, leb, ◌&&◌, ◌+◌, ◌-◌, ◌%◌, ◌^◌, ◌<◌, ◌≤◌, ◌≡◌, refl, ◌⊎◌, inl, inr, false, some,
  ltb, ◌==◌, arith, Bool-cases, ap,
}
use pastoral.Process.{ret}
use pastoral.Mmap.{
  Region, Tree, leaf, node, insert, validate_region, find_base, map_at, mmap, Space, align_up,
  page_size,
}
use pastoral.Mmap.Regions.{
  Mem, insert-Mem_new, insert-Mem_old, Ordered, Paged, Outside, ahead, ahead-lt,
}

-- `validate_region` finds that no region holds `b`, or how far behind `b` one that does ends.
abbrev Validated : ℕ → ℕ → Tree → Type 0
Validated b len t =
    ((validate_region b len t ≡ 2 ^ 64 - 1) × Outside b t)
    ⊎ ((x : Region) × Mem x t
        × (x.base ≤ b)
        × (b < x.base + x.limit)
        × (validate_region b len t ≡ x.base + x.limit - b + len))

validate_region-Validated :
    (b len : ℕ) (t : Tree) → len ≤ 2 ^ 62 → Ordered t → Paged t → Validated b len t
unfolding validate_region
validate_region-Validated b len leaf small o p = inl (refl, λ r m. absurd m)
validate_region-Validated b len (node lo x hi) small (below, above, left, right) p =
    let (bounded, whole, whole') = p x (inl refl) in
    let wrap : (x.base + x.limit) % 2 ^ 64 ≡ x.base + x.limit = omega arith in
    elim (Bool-cases (leb x.base b && ltb b (x.base + x.limit))) [
      | inl inside ↦
          let from : x.base ≤ b = ground arith in
          let to : b < x.base + x.limit = ground arith in
          let offset : (x.base + x.limit + 2 ^ 64 - b + len) % 2 ^ 64 ≡ x.base + x.limit - b + len =
            omega arith in
          inr (x, inl refl, from, to, rw (validate_region, wrap, inside) offset)
      | inr outside ↦ elim (Bool-cases (ltb b x.base)) [
        | inl lower ↦
            let lt : b < x.base = ground arith in
            elim (validate_region-Validated b len lo small left (λ r m. p r (inr (inl m)))) [
              | inl (e, free) ↦ inl (
                rw (validate_region, wrap, outside, lower) e,
                λ r m. elim m [
                  | inl z ↦ inl (omega (arith, ap (λ y. y.base) z))
                  | inr (inl l) ↦ free r l
                  | inr (inr h) ↦ inl (omega (arith, above r h))
                ],
              )
              | inr (y, m, from, to, e) ↦
                  inr (y, inr (inl m), from, to, rw (validate_region, wrap, outside, lower) e)
            ]
        | inr upper ↦
            let le : x.base + x.limit ≤ b = ground arith in
            elim (validate_region-Validated b len hi small right (λ r m. p r (inr (inr m)))) [
              | inl (e, free) ↦ inl (
                rw (validate_region, wrap, outside, upper) e,
                λ r m. elim m [
                  | inl z ↦ inr (omega (arith, ap (λ y. y.base + y.limit) z))
                  | inr (inl l) ↦ inr (omega (arith, below r l))
                  | inr (inr h) ↦ free r h
                ],
              )
              | inr (y, m, from, to, e) ↦
                  inr (y, inr (inr m), from, to, rw (validate_region, wrap, outside, upper) e)
            ]
      ]
    ]

find_base-step :
    (n b c len offset : ℕ) (t : Tree)
    → validate_region b len t ≡ offset
    → (offset == 2 ^ 64 - 1) ≡ false
    → (b + offset) % 2 ^ 64 ≡ c
    → find_base (suc n) b len t ≡ find_base n c len t
unfolding find_base
find_base-step n b c len offset t e other next = rw (find_base, e, other, next) refl

-- With more rounds than regions that end above the base, the loop finds one that no region holds.
find_base-Outside :
    (n b len : ℕ) (t : Tree)
    → Ordered t
    → Paged t
    → len ≤ 2 ^ 62
    → len % page_size ≡ 0
    → b % page_size ≡ 0
    → b ≤ 2 ^ 62 + len
    → ahead b t < n
    → (c : ℕ) × (find_base n b len t ≡ some c)
      × (b ≤ c)
      × (c ≤ 2 ^ 62 + len)
      × (c % page_size ≡ 0)
      × Outside c t
unfolding find_base
find_base-Outside zero b len t o p small whole aligned room enough = absurd (omega arith)
find_base-Outside (suc n) b len t o p small whole aligned room enough =
    elim (validate_region-Validated b len t small o p) [
      | inl (e, free) ↦ (b, rw (find_base, e) refl, omega arith, room, aligned, free)
      | inr (x, m, from, to, e) ↦
          let (bounded, whole_base, whole_limit) = p x m in
          let next : (b + (x.base + x.limit - b + len)) % 2 ^ 64 ≡ x.base + x.limit + len =
            omega arith in
          let other : (x.base + x.limit - b + len == 2 ^ 64 - 1) ≡ false = ground arith in
          let less : ahead (x.base + x.limit + len) t < ahead b t =
            ahead-lt b (x.base + x.limit + len) x t m (omega arith) to (omega arith) in
          let (c, found, le, hi, even, free) =
            find_base-Outside n (x.base + x.limit + len) len t o p small whole (omega arith)
              (omega arith) (omega arith) in
          (
            c,
            find_base-step n b (x.base + x.limit + len) len (x.base + x.limit - b + len) t e other
                  next
                ∙ found,
            omega arith,
            hi,
            even,
            free,
          )
    ]

-- The end of `mmap` at the base that the loop has found.
mmap_at :
    (n bytes prot flags fd offset b : ℕ) (s : Space)
    → find_base n s.mmap_bump_base (align_up bytes) s.mmap_region_root ≡ some b
    → 1 ≤ b
    → b ≤ 2 ^ 63
    → b % page_size ≡ 0
    → 1 ≤ bytes
    → bytes ≤ 2 ^ 61
    → mmap n bytes prot flags fd offset s
      ≡ some (
        ret b,
        record {
          mmap_region_root =
              insert
                (record {
                  base = b;
                  limit = align_up bytes;
                  prot = prot;
                  flags = flags;
                  fd = fd;
                  offset = offset;
                })
                s.mmap_region_root;
          mmap_bump_base = b + align_up bytes;
        },
      )
unfolding mmap
mmap_at n bytes prot flags fd offset b s found pos low aligned some_bytes small =
    let sum : (b + align_up bytes) % 2 ^ 64 ≡ b + align_up bytes = omega arith in
    let nonzero : (align_up bytes == 0) ≡ false = ground arith in
    let based : (b == 0) ≡ false = ground arith in
    let whole : align_up bytes % page_size ≡ 0 = omega arith in
    rw (mmap, found, map_at, sum, nonzero, based, aligned, whole) refl

-- In a space of ordered regions of whole pages below 2 ^ 62, with a next base that is one of pages there
-- too, an anonymous `mmap` of at most 2 ^ 61 bytes without an address ends, within more rounds than
-- regions end above the next base: the new region is one of the tree, holds at least the bytes asked
-- for, and starts at the next base or above, in no earlier region; the earlier regions stay, and the
-- next call starts at its end.
pub mmap-Fresh :
    (n bytes prot flags fd offset : ℕ) (s : Space)
    → Ordered s.mmap_region_root
    → Paged s.mmap_region_root
    → 1 ≤ s.mmap_bump_base
    → s.mmap_bump_base ≤ 2 ^ 62
    → s.mmap_bump_base % page_size ≡ 0
    → 1 ≤ bytes
    → bytes ≤ 2 ^ 61
    → ahead s.mmap_bump_base s.mmap_region_root < n
    → (r : Region) × (s' : Space) × (mmap n bytes prot flags fd offset s ≡ some (ret r.base, s'))
      × (s.mmap_bump_base ≤ r.base)
      × (bytes ≤ r.limit)
      × Mem r s'.mmap_region_root
      × ((x : Region)
          → Mem x s.mmap_region_root
          → Mem x s'.mmap_region_root × ((r.base < x.base) ⊎ (x.base + x.limit ≤ r.base)))
      × (s'.mmap_bump_base ≡ r.base + r.limit)
mmap-Fresh n bytes prot flags fd offset s o p pos low aligned some_bytes small enough =
    let len : ℕ = align_up bytes in
    let (b, found, le, hi, whole, free) =
      find_base-Outside n s.mmap_bump_base len s.mmap_region_root o p (omega arith) (omega arith)
        aligned (omega arith) enough in
    let r : Region = record {
      base = b;
      limit = len;
      prot = prot;
      flags = flags;
      fd = fd;
      offset = offset;
    } in
    let s' : Space = record {
      mmap_region_root = insert r s.mmap_region_root;
      mmap_bump_base = b + len;
    } in
    (
      r,
      s',
      mmap_at n bytes prot flags fd offset b s found (omega arith) (omega arith) whole some_bytes
          small,
      le,
      omega arith,
      insert-Mem_new r s.mmap_region_root,
      λ x m. (insert-Mem_old r x s.mmap_region_root m, free x m),
      refl,
    )
