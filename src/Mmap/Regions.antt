-- ===== src/Mmap/Regions.antt =====
-- The regions of a tree, and how they lie.
use pastoral.Base.{
  ℕ, if◌then◌else◌, ◌+◌, ◌%◌, ◌^◌, ◌<◌, ◌≤◌, ◌≡◌, refl, ◌⊎◌, inl, inr, ltb, arith, Bool-cases, ap,
}
use pastoral.Mmap.{Region, Tree, leaf, node, insert, page_size}

-- `r` is a region of the tree.
abbrev pub Mem : Region → Tree → Type 0
Mem r leaf = ⊥
Mem r (node lo x hi) = (x ≡ r) ⊎ (Mem r lo ⊎ Mem r hi)

pub insert-Mem_new : (r : Region) (t : Tree) → Mem r (insert r t)
unfolding insert
insert-Mem_new r leaf = inl refl
insert-Mem_new r (node lo x hi) = elim (Bool-cases (ltb r.base x.base)) [
  | inl below ↦ rw below (inr (inl (insert-Mem_new r lo)))
  | inr above ↦ rw above (inr (inr (insert-Mem_new r hi)))
]

pub insert-Mem_old : (r x : Region) (t : Tree) → Mem x t → Mem x (insert r t)
unfolding insert
insert-Mem_old r x leaf m = elim m [ ]
insert-Mem_old r x (node lo y hi) m = elim (Bool-cases (ltb r.base y.base)) [
  | inl below ↦ rw below (elim m [
    | inl e ↦ inl e
    | inr (inl l) ↦ inr (inl (insert-Mem_old r x lo l))
    | inr (inr h) ↦ inr (inr h)
  ])
  | inr above ↦ rw above (elim m [
    | inl e ↦ inl e
    | inr (inl l) ↦ inr (inl l)
    | inr (inr h) ↦ inr (inr (insert-Mem_old r x hi h))
  ])
]

-- The regions lie in the order of the tree and do not overlap.
abbrev pub Ordered : Tree → Type 0
Ordered leaf = Unit {0}
Ordered (node lo x hi) =
    ((r : Region) → Mem r lo → r.base + r.limit ≤ x.base)
    × ((r : Region) → Mem r hi → x.base + x.limit ≤ r.base)
    × Ordered lo
    × Ordered hi

-- The regions consist of whole pages below 2 ^ 62.
abbrev pub Paged : Tree → Type 0
Paged t =
    (r : Region)
    → Mem r t
    → (r.base + r.limit ≤ 2 ^ 62) × (r.base % page_size ≡ 0) × (r.limit % page_size ≡ 0)

-- No region of the tree holds `b`.
abbrev pub Outside : ℕ → Tree → Type 0
Outside b t = (r : Region) → Mem r t → (b < r.base) ⊎ (r.base + r.limit ≤ b)

-- How many regions end above `b`.
abbrev pub ahead : ℕ → Tree → ℕ
ahead b leaf = 0
ahead b (node lo x hi) = (if ltb b (x.base + x.limit) then 1 else 0) + ahead b lo + ahead b hi

pub ahead-le : (b c : ℕ) (t : Tree) → b ≤ c → ahead c t ≤ ahead b t
ahead-le b c leaf h = omega arith
ahead-le b c (node lo x hi) h = ground (arith, ahead-le b c lo h, ahead-le b c hi h)

pub ahead-lt :
    (b c : ℕ) (x : Region) (t : Tree)
    → Mem x t
    → b ≤ c
    → b < x.base + x.limit
    → x.base + x.limit ≤ c
    → ahead c t < ahead b t
ahead-lt b c x leaf m h lt le = elim m [ ]
ahead-lt b c x (node lo y hi) (inl e) h lt le =
    let same : y.base + y.limit ≡ x.base + x.limit = ap (λ z. z.base + z.limit) e in
    ground (arith, same, ahead-le b c lo h, ahead-le b c hi h)
ahead-lt b c x (node lo y hi) (inr (inl m)) h lt le =
    ground (arith, ahead-lt b c x lo m h lt le, ahead-le b c hi h)
ahead-lt b c x (node lo y hi) (inr (inr m)) h lt le =
    ground (arith, ahead-le b c lo h, ahead-lt b c x hi m h lt le)
