-- ===== src/Slab.antt =====
-- kernel/mm/slab.c: objects of the same size in slabs of 256. Addresses are those without HIGH_VMA.
pub mod Objects
pub mod Classes
mod Tests
use pastoral.Base.{
  ℕ, zero, suc, ◌+◌, ◌-◌, ◌*◌, ◌/◌, ◌%◌, ◌^◌, Bool, true, false, not, ◌&&◌, ◌||◌, Option, none,
  some, List, [], ◌∷◌, ◌++◌, length, replicate, ltb, leb, ◌==◌, if◌then◌else◌, ◌>>=◌, bit_or,
}
use pastoral.Bitmap.{div_roundup, scan, bit_clear}
use pastoral.Pmm.{PmmModule, pmm_alloc, page_size}

-- `struct slab`. The lists of a cache are lists of slabs, so that `next`, `last` and `cache` are left
-- out; `bits` is the bitmap.
pub record Slab : Type 0 where
  pub available_objects : ℕ
  pub total_objects : ℕ
  pub bits : List ℕ
  pub buffer : ℕ

pub record Cache : Type 0 where
  pub object_size : ℕ
  pub pages_per_slab : ℕ
  pub slab_empty : List Slab
  pub slab_partial : List Slab
  pub slab_full : List Slab

abbrev pub objects_per_slab : ℕ
objects_per_slab = 256

-- The sizes of `struct slab` and `struct cache` in bytes.
abbrev pub slab_bytes : ℕ
slab_bytes = 56

abbrev pub cache_bytes : ℕ
cache_bytes = 72

-- `cache_alloc_slab`; `none` where `pmm_alloc` returns -1. The bitmap lies behind the slab, and the
-- objects behind it.
unfoldable pub cache_alloc_slab : Cache → List PmmModule → Option (Slab × List PmmModule)
unfolding pmm_alloc
cache_alloc_slab c modules = do
  (found, ms) ← pmm_alloc c.pages_per_slab 1 modules
  elim found [
    | none ↦ none
    | some p ↦ some (
      record {
        available_objects = objects_per_slab;
        total_objects = objects_per_slab;
        bits = replicate (objects_per_slab / 8) 0;
        buffer = div_roundup (p + slab_bytes + objects_per_slab / 8) 16 * 16;
      },
      ms,
    )
  ]

-- `slab_alloc`: the object, or NULL; and the slab.
unfoldable pub slab_alloc : ℕ → Slab → Option (Option ℕ × Slab)
unfolding scan
slab_alloc object_size s = do
  (found, bits) ← scan s.total_objects 0 s.bits
  elim found [
    | none ↦ some (none, s)
    | some i ↦ some (
      some (s.buffer + i * object_size),
      record s { bits = bits; available_objects = (s.available_objects + 2 ^ 64 - 1) % 2 ^ 64 },
    )
  ]

-- The moves at the end of `cache_alloc_obj` for the slab at the head of `slab_partial`.
unfoldable pub settle_partial : Slab → List Slab → Cache → Option Cache
settle_partial s rest c =
    if s.available_objects == 0
    then some (record c { slab_full = s ∷ c.slab_full; slab_partial = rest })
    else if s.available_objects == s.total_objects - 1
    then (elim c.slab_empty [ [] ↦ some (record c { slab_partial = s ∷ rest }) | e ∷ empty ↦ none ])
    else some (record c { slab_partial = s ∷ rest })

-- Those for the slab at the head of `slab_empty`, where `slab_partial` is empty.
unfoldable pub settle_empty : Slab → List Slab → Cache → Cache
settle_empty s rest c =
    if s.available_objects == 0
    then record c { slab_empty = s ∷ rest }
    else if s.available_objects == s.total_objects - 1
    then record c { slab_partial = s ∷ []; slab_empty = rest }
    else record c { slab_empty = s ∷ rest }

-- `cache_alloc_obj`. `cache_move_slab` does nothing if its source list is empty, and makes a cycle of
-- the head of `slab_partial` if it takes that for a slab of `slab_empty`; the cycle is `none`.
unfoldable pub cache_alloc_obj : Cache → List PmmModule → Option (Option ℕ × Cache × List PmmModule)
unfolding cache_alloc_slab slab_alloc settle_partial settle_empty
cache_alloc_obj c modules = elim c.slab_partial [
  | s ∷ rest ↦ (do
    (object, s') ← slab_alloc c.object_size s
    c' ← settle_partial s' rest c
    some (object, c', modules))
  | [] ↦ elim c.slab_empty [
    | s ∷ rest ↦ (do
      (object, s') ← slab_alloc c.object_size s
      some (object, settle_empty s' rest c, modules))
    | [] ↦ (do
      (s, ms) ← cache_alloc_slab c modules
      (object, s') ← slab_alloc c.object_size s
      some (object, settle_empty s' [] c, ms))
  ]
]

-- The test that finds the slab of an object.
unfoldable pub owns_object : ℕ → ℕ → Slab → Bool
owns_object object_size obj s =
    leb s.buffer obj && ltb obj (s.buffer + object_size * s.total_objects)

-- `slab_get_object_size`
unfoldable pub slab_get_object_size : ℕ → ℕ → List Slab → ℕ
unfolding owns_object
slab_get_object_size object_size obj [] = 0
slab_get_object_size object_size obj (s ∷ slabs) =
    let rest = slab_get_object_size object_size obj slabs in
    if owns_object object_size obj s then object_size else rest

unfoldable pub cache_get_object_size : ℕ → Cache → ℕ
unfolding slab_get_object_size
cache_get_object_size obj c =
    let partial = slab_get_object_size c.object_size obj c.slab_partial in
    if not (partial == 0) then partial else slab_get_object_size c.object_size obj c.slab_full

-- `slab_free_object`: the list afterwards, or `none` inside if no slab has the object.
unfoldable pub slab_free_object : ℕ → ℕ → List Slab → Option (Option (List Slab))
unfolding owns_object bit_clear
slab_free_object object_size obj [] = some none
slab_free_object object_size obj (s ∷ slabs) =
    let later = slab_free_object object_size obj slabs in
    if owns_object object_size obj s
    then (do
      bits ← bit_clear s.bits ((obj - s.buffer) / object_size)
      some (
          some (
            record s { bits = bits; available_objects = (s.available_objects + 1) % 2 ^ 64 }
            ∷ slabs)))
    else (do found ← later; some (elim found [ none ↦ none | some freed ↦ some (s ∷ freed) ]))

-- `cache_free_object`: whether the object was in the cache, and the cache.
unfoldable pub cache_free_object : ℕ → Cache → Option (Bool × Cache)
unfolding slab_free_object
cache_free_object obj c = do
  partial ← slab_free_object c.object_size obj c.slab_partial
  elim partial [
    | some slabs ↦ some (true, record c { slab_partial = slabs })
    | none ↦ (do
      full ← slab_free_object c.object_size obj c.slab_full
      elim full [
        | some slabs ↦ some (true, record c { slab_full = slabs })
        | none ↦ some (false, c)
      ])
  ]

-- `slab_cache_create`. The cache itself lies at the head of the buffer of its first slab; what is
-- taken off the objects for it is the size of an object divided by that of the cache.
unfoldable pub slab_cache_create :
    ℕ → List Cache → List PmmModule → Option (List Cache × List PmmModule)
unfolding cache_alloc_slab
slab_cache_create object_size caches modules =
    let c : Cache = record {
      object_size = object_size;
      pages_per_slab =
          div_roundup (object_size * objects_per_slab + slab_bytes + objects_per_slab / 8)
            page_size;
      slab_empty = [];
      slab_partial = [];
      slab_full = [];
    } in
    do
      (s, ms) ← cache_alloc_slab c modules
      let left = (s.available_objects + 2 ^ 64 - div_roundup object_size cache_bytes) % 2 ^ 64
      some (
        record c {
          slab_empty =
              record s {
                buffer = s.buffer + cache_bytes;
                available_objects = left;
                total_objects = left;
              }
              ∷ [];
        }
            ∷ caches,
        ms,
      )

-- `pow2_roundup` of kernel/lib/string.h; it fills 32 digits.
unfoldable pub pow2_roundup : ℕ → ℕ
pow2_roundup a =
    let a₀ = (a + 2 ^ 64 - 1) % 2 ^ 64 in
    let a₁ = bit_or a₀ (a₀ / 2) in
    let a₂ = bit_or a₁ (a₁ / 2 ^ 2) in
    let a₃ = bit_or a₂ (a₂ / 2 ^ 4) in
    let a₄ = bit_or a₃ (a₃ / 2 ^ 8) in let a₅ = bit_or a₄ (a₄ / 2 ^ 16) in (a₅ + 1) % 2 ^ 64

-- The size of the objects that `alloc` looks for.
unfoldable pub class_of : ℕ → ℕ
unfolding pow2_roundup
class_of size =
    let round_size = pow2_roundup ((size + 1) % 2 ^ 64) in
    if leb round_size 16 then 32 else round_size

-- The caches, in the order of their `next` pointers, and the memory that they get slabs from.
pub record Heap : Type 0 where
  pub caches : List Cache
  pub modules : List PmmModule

-- The loop of `alloc` over the caches.
unfoldable pub alloc_in :
    ℕ → List Cache → List PmmModule → Option (Option ℕ × List Cache × List PmmModule)
unfolding cache_alloc_obj
alloc_in round_size [] modules = some (none, [], modules)
alloc_in round_size (c ∷ caches) modules =
    let later = alloc_in round_size caches modules in
    if c.object_size == round_size
    then (do (object, c', ms) ← cache_alloc_obj c modules; some (object, c' ∷ caches, ms))
    else (do (object, cs, ms) ← later; some (object, c ∷ cs, ms))

-- `alloc`; NULL is `none`.
unfoldable pub alloc : ℕ → Heap → Option (Option ℕ × Heap)
unfolding alloc_in class_of
alloc size h = if size == 0 then some (none, h) else (do
  (object, cs, ms) ← alloc_in (class_of size) h.caches h.modules
  some (object, record { caches = cs; modules = ms }))

-- The loop of `free` over the caches.
unfoldable pub free_in : ℕ → List Cache → Option (List Cache)
unfolding cache_free_object
free_in obj [] = some []
free_in obj (c ∷ caches) =
    let later = free_in obj caches in
    do
      (done, c') ← cache_free_object obj c
      if done then some (c' ∷ caches) else (do cs ← later; some (c' ∷ cs))

-- `free`; NULL is `none`.
unfoldable pub free : Option ℕ → Heap → Option Heap
unfolding free_in
free none h = some h
free (some obj) h = do cs ← free_in obj h.caches; some (record h { caches = cs })

-- The loop of `realloc` over the caches.
unfoldable pub object_size_in : ℕ → List Cache → ℕ
unfolding cache_get_object_size
object_size_in obj [] = 0
object_size_in obj (c ∷ caches) =
    let size = cache_get_object_size obj c in
    let later = object_size_in obj caches in if not (size == 0) then size else later

-- `realloc`: the object afterwards, and the number of bytes that are copied to it.
unfoldable pub realloc : Option ℕ → ℕ → Heap → Option (Option ℕ × ℕ × Heap)
unfolding alloc free object_size_in
realloc none size h = do (object, h') ← alloc size h; some (object, 0, h')
realloc (some obj) size h =
    let object_size = object_size_in obj h.caches in
    if leb size object_size
    then some (some obj, 0, h)
    else (do (object, h₁) ← alloc size h; h₂ ← free (some obj) h₁; some (object, object_size, h₂))
