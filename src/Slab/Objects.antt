-- ===== src/Slab/Objects.antt =====
-- Objects of a slab: where they lie, and what their release gives back.
use pastoral.Base.{
  ℕ, suc, ◌+◌, ◌-◌, ◌*◌, ◌%◌, ◌^◌, ◌≤◌, ◌<◌, ◌≡◌, ◌⊎◌, refl, ap, none, some, length, ltb, subst,
  ◌==◌, if◌then◌else◌, arith, Bool-cases, inl, inr,
}
use native.Mathlib.Nat.{mul-le-mul_right, suc-mul}
use pastoral.Bitmap.{get_bit, put_bit}
use pastoral.Bitmap.Bytes.{get_bit-put_bit, length-put_bit}
use pastoral.Bitmap.Scan.{scan-Scanned}
use pastoral.Slab.{Slab, slab_alloc}

-- A slab whose bitmap covers its objects, which lie in the address space.
pub record IsSlab (object_size : ℕ) (s : Slab) : Type 0 where
  pub covered : s.total_objects ≤ 8 * length s.bits
  pub sized : 1 ≤ object_size
  pub fits : s.buffer + s.total_objects * object_size < 2 ^ 64
  pub counted : s.available_objects < 2 ^ 64

-- The ranges of two objects do not overlap.
abbrev pub Disjoint : ℕ → ℕ → ℕ → Type 0
Disjoint object_size a b = (a + object_size ≤ b) ⊎ (b + object_size ≤ a)

-- Object `k` of the slab, which was free.
pub record Given (object_size : ℕ) (s : Slab) (k obj : ℕ) (s' : Slab) : Type 0 where
  pub index : k < s.total_objects
  pub at : obj ≡ s.buffer + k * object_size
  pub was_free : get_bit s.bits k ≡ 0
  pub now : (j : ℕ) → get_bit s'.bits j ≡ (if j == k then 1 else get_bit s.bits j)
  pub fewer : s'.available_objects ≡ (s.available_objects + 2 ^ 64 - 1) % 2 ^ 64
  pub long : length s'.bits ≡ length s.bits
  pub same_total : s'.total_objects ≡ s.total_objects
  pub same_buffer : s'.buffer ≡ s.buffer

-- `slab_alloc` either returns an object of the slab that was free, and marks it, and no other; or it
-- returns NULL, with every object taken and the slab unchanged.
pub slab_alloc-Given :
    (object_size : ℕ) (s : Slab)
    → IsSlab object_size s
    → ((k : ℕ) × (obj : ℕ) × (s' : Slab) × (slab_alloc object_size s ≡ some (some obj, s'))
        × Given object_size s k obj s')
      ⊎ ((slab_alloc object_size s ≡ some (none, s))
          × ((j : ℕ) → j < s.total_objects → get_bit s.bits j ≡ 1))
unfolding slab_alloc
slab_alloc-Given object_size s v =
    elim (scan-Scanned s.total_objects 0 s.bits (omega (arith, v.covered))) [
      | inl (k, e, lo, hi, free, used) ↦ inl (
        k,
        s.buffer + k * object_size,
        record s {
          bits = put_bit s.bits k;
          available_objects = (s.available_objects + 2 ^ 64 - 1) % 2 ^ 64;
        },
        rw e refl,
        record {
          index = omega arith;
          at = refl;
          was_free = free;
          now = λ j. get_bit-put_bit s.bits k j (omega (arith, v.covered));
          fewer = refl;
          long = length-put_bit s.bits k;
          same_total = refl;
          same_buffer = refl;
        },
      )
      | inr (e, used) ↦ inr (rw e refl, λ j lt. used j (omega arith) (omega arith))
    ]

module _ (object_size : ℕ) (s s' : Slab) (k obj : ℕ) (v : IsSlab object_size s)
    (g : Given object_size s k obj s') where
  -- The object overlaps none of the objects of the slab that are taken.
  Given-apart :
      (j : ℕ)
      → get_bit s.bits j ≡ 1
      → (s.buffer + j * object_size + object_size ≤ obj)
        ⊎ (obj + object_size ≤ s.buffer + j * object_size)
  Given-apart j taken = elim (Bool-cases (ltb j k)) [
    | inl below ↦
        let lt : suc j ≤ k = ground arith in
        inl (omega (arith, g.at, mul-le-mul_right object_size lt, suc-mul j object_size))
    | inr above ↦ elim (Bool-cases (j == k)) [
      | inl same ↦
          let e : j ≡ k = ground arith in
          absurd (omega (arith, g.was_free, taken, ap (get_bit s.bits) e))
      | inr other ↦
          let lt : suc k ≤ j = ground arith in
          inr (omega (arith, g.at, mul-le-mul_right object_size lt, suc-mul k object_size))
    ]
  ]

-- `slab_alloc` says which object it hands out.
slab_alloc-is_Given :
    (object_size obj : ℕ) (s s' : Slab)
    → IsSlab object_size s
    → slab_alloc object_size s ≡ some (some obj, s')
    → (k : ℕ) × Given object_size s k obj s'
slab_alloc-is_Given object_size obj s s' v e = elim (slab_alloc-Given object_size s v) [
  | inr (e', full) ↦ absurd (ground (arith, e, e'))
  | inl (k, obj₁, s₁, e₁, g) ↦
      let same : obj₁ ≡ obj = ground (arith, e, e₁) in
      let after : s₁ ≡ s' = ground (arith, e, e₁) in
      (
        k,
        subst (λ x. Given object_size s k obj x) after
            (subst (λ (x : ℕ). Given object_size s k x s₁) same g),
      )
]

slab_alloc-IsSlab :
    (object_size k obj : ℕ) (s s' : Slab)
    → IsSlab object_size s
    → Given object_size s k obj s'
    → IsSlab object_size s'
slab_alloc-IsSlab object_size k obj s s' v g =
    let covered : s.total_objects ≤ 8 * length s.bits = v.covered in
    let fits : s.buffer + s.total_objects * object_size < 2 ^ 64 = v.fits in
    record {
      covered = omega (arith, g.long, g.same_total);
      sized = v.sized;
      fits = rw (g.same_total, g.same_buffer) fits;
      counted = omega (arith, g.fewer);
    }

-- Of two objects that `slab_alloc` hands out of a slab one after the other, neither overlaps the other,
-- and neither overlaps an object of the slab that was taken before.
pub slab_alloc-slab_alloc :
    (object_size obj obj' : ℕ) (s s' s'' : Slab)
    → IsSlab object_size s
    → slab_alloc object_size s ≡ some (some obj, s')
    → slab_alloc object_size s' ≡ some (some obj', s'')
    → Disjoint object_size obj obj'
      × ((j : ℕ)
          → get_bit s.bits j ≡ 1
          → Disjoint object_size (s.buffer + j * object_size) obj
            × Disjoint object_size (s.buffer + j * object_size) obj')
slab_alloc-slab_alloc object_size obj obj' s s' s'' v e e' =
    let (k, g) = slab_alloc-is_Given object_size obj s s' v e in
    let v' : IsSlab object_size s' = slab_alloc-IsSlab object_size k obj s s' v g in
    let (k', g') = slab_alloc-is_Given object_size obj' s' s'' v' e' in
    let taken : get_bit s'.bits k ≡ 1 = ground (arith, g.now k) in
    let first : Disjoint object_size (s'.buffer + k * object_size) obj' =
      Given-apart object_size s' s'' k' obj' v' g' k taken in
    (
      rw (g.at, ← g.same_buffer) first,
      λ j was.
          let still : get_bit s'.bits j ≡ 1 = ground (arith, g.now j) in
          let second : Disjoint object_size (s'.buffer + j * object_size) obj' =
            Given-apart object_size s' s'' k' obj' v' g' j still in
          (Given-apart object_size s s' k obj v g j was, rw (← g.same_buffer) second),
    )
