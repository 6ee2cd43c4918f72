-- ===== src/Slab/Tests.antt =====
-- Runs of the slab allocator, and its theorems at a small slab.
use pastoral.Base.{ℕ, ◌+◌, ◌*◌, ◌≤◌, ◌<◌, ◌≡◌, ◌⊎◌, refl, none, some, [], ◌∷◌, arith, bit, ◌^◌}
use pastoral.Bitmap.{get_bit, scan}
use pastoral.Slab.{Slab, slab_alloc, class_of}
use pastoral.Slab.Objects.{IsSlab, Given, slab_alloc-Given, slab_alloc-slab_alloc, Disjoint}
use pastoral.Slab.Classes.{class_of-pow}

-- Eight objects of 32 bytes, of which the first is taken.
abbrev eight : Slab
eight = record { available_objects = 7; total_objects = 8; bits = 1 ∷ []; buffer = 0x1000 }

abbrev with_two : Slab
with_two = record eight { available_objects = 6; bits = 3 ∷ [] }

abbrev with_three : Slab
with_three = record eight { available_objects = 5; bits = 7 ∷ [] }

eight-IsSlab : IsSlab 32 eight
eight-IsSlab = record {
  covered = omega arith;
  sized = omega arith;
  fits = omega arith;
  counted = omega arith;
}

slab_alloc-Given_example :
    ((k : ℕ) × (obj : ℕ) × (s' : Slab) × (slab_alloc 32 eight ≡ some (some obj, s'))
      × Given 32 eight k obj s')
    ⊎ ((slab_alloc 32 eight ≡ some (none, eight)) × ((j : ℕ) → j < 8 → get_bit (1 ∷ []) j ≡ 1))
slab_alloc-Given_example = slab_alloc-Given 32 eight eight-IsSlab

slab_alloc-slab_alloc_example :
    Disjoint 32 0x1020 0x1040
    × ((j : ℕ)
        → get_bit (1 ∷ []) j ≡ 1
        → Disjoint 32 (0x1000 + j * 32) 0x1020 × Disjoint 32 (0x1000 + j * 32) 0x1040)
unfolding slab_alloc scan bit
slab_alloc-slab_alloc_example =
    slab_alloc-slab_alloc 32 0x1020 0x1040 eight with_two with_three eight-IsSlab refl refl

class_of-pow_example :
    (k : ℕ) × (class_of 100 ≡ 2 ^ k)
    × (100 < class_of 100)
    × (class_of 100 ≤ 2 ^ 32)
    × ((class_of 100 ≡ 32) ⊎ (class_of 100 ≤ 2 * 100))
class_of-pow_example = class_of-pow 100 (omega arith)

class_of_hundred : class_of 100 ≡ 128
unfolding class_of
class_of_hundred = refl
