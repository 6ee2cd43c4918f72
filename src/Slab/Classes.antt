-- ===== src/Slab/Classes.antt =====
-- The size of the objects that `alloc` hands out for a size.
use pastoral.Base.{
  ℕ, zero, suc, ◌*◌, ◌+◌, ◌⊎◌, inl, inr, leb, refl, sym, ap, Bool-cases, bit, bit-bit_or,
  bit-lt_two, bit-ge, bit-shift, bit-top, bit-ones, top_of, ext_bits, pow-lt-pow, ◌-◌, ◌/◌, ◌%◌,
  ◌^◌, ◌≤◌, ◌<◌, ◌≡◌, ◌∙◌, bit_or, bit_or-shift, bit_or-zero, le-bit_or, arith,
}
use native.Mathlib.Nat.{pow-suc, pow-zero, one-le-pow}
use native.Mathlib.Decide.{dec_lt}
use pastoral.Slab.{pow2_roundup, class_of}

-- A word of 32 digits stays one under `a |= a >> k`, and loses none.
fill : (a b : ℕ) → a < 2 ^ 32 → b ≤ a → (a ≤ bit_or a b) × (bit_or a b < 2 ^ 32)
fill a b h le =
    let high : bit_or a b / 2 ^ 32 ≡ bit_or (a / 2 ^ 32) (b / 2 ^ 32) = bit_or-shift 32 a b in
    let no_a : a / 2 ^ 32 ≡ 0 = omega arith in
    let no_b : b / 2 ^ 32 ≡ 0 = omega arith in
    let none_high : bit_or a b / 2 ^ 32 ≡ 0 = high ∙ rw (no_a, no_b) (bit_or-zero 0) in
    (le-bit_or a b, omega arith)

pow2_roundup-ge : (a : ℕ) → 1 ≤ a → a ≤ 2 ^ 32 → (a ≤ pow2_roundup a) × (pow2_roundup a ≤ 2 ^ 32)
unfolding pow2_roundup
pow2_roundup-ge a pos h =
    let start : (a + 2 ^ 64 - 1) % 2 ^ 64 ≡ a - 1 = omega arith in
    let a₀ : ℕ = a - 1 in
    let (le₁, lt₁) = fill a₀ (a₀ / 2) (omega arith) (omega arith) in
    let a₁ : ℕ = bit_or a₀ (a₀ / 2) in
    let (le₂, lt₂) = fill a₁ (a₁ / 2 ^ 2) lt₁ (omega arith) in
    let a₂ : ℕ = bit_or a₁ (a₁ / 2 ^ 2) in
    let (le₃, lt₃) = fill a₂ (a₂ / 2 ^ 4) lt₂ (omega arith) in
    let a₃ : ℕ = bit_or a₂ (a₂ / 2 ^ 4) in
    let (le₄, lt₄) = fill a₃ (a₃ / 2 ^ 8) lt₃ (omega arith) in
    let a₄ : ℕ = bit_or a₃ (a₃ / 2 ^ 8) in
    let (le₅, lt₅) = fill a₄ (a₄ / 2 ^ 16) lt₄ (omega arith) in rw start (omega arith, omega arith)

-- For a size that fits into 32 bits with one more, `alloc` looks for objects of more bytes than the size,
-- and of at most 2 ^ 32.
pub class_of-gt : (size : ℕ) → size + 1 ≤ 2 ^ 32 → (size < class_of size) × (class_of size ≤ 2 ^ 32)
unfolding class_of
class_of-gt size h =
    let whole : (size + 1) % 2 ^ 64 ≡ size + 1 = omega arith in
    let (ge, le) = pow2_roundup-ge (size + 1) (omega arith) h in
    rw whole (ground arith, ground arith)

-- From digit `p` down, `w` digits are 1, and the digits above are 0.
record Filled (p w a : ℕ) : Type 0 where
  ones : (j : ℕ) → j < w → j ≤ p → bit a (p - j) ≡ 1
  zeros : (i : ℕ) → p < i → bit a i ≡ 0

fill-Filled : (p w a : ℕ) → Filled p w a → Filled p (w + w) (bit_or a (a / 2 ^ w))
fill-Filled p w a f = record {
  ones = λ j lt le. elim (dec_lt j w) [
    | yes low ↦ omega (
      arith,
      bit-bit_or (p - j) a (a / 2 ^ w),
      f.ones j low le,
      bit-shift w a (p - j),
      bit-lt_two (p - j + w) a,
    )
    | no high ↦
        let same : p - j + w ≡ p - (j - w) = omega arith in
        let one : bit a (p - j + w) ≡ 1 = rw same (f.ones (j - w) (omega arith) (omega arith)) in
        omega (
          arith,
          bit-bit_or (p - j) a (a / 2 ^ w),
          one,
          bit-shift w a (p - j),
          bit-lt_two (p - j) a,
        )
  ];
  zeros = λ i above. omega (
    arith,
    bit-bit_or i a (a / 2 ^ w),
    f.zeros i above,
    bit-shift w a i,
    f.zeros (i + w) (omega arith),
  );
}

-- With as many digits as there are, all of them are 1.
Filled-all : (p w a : ℕ) → p < w → Filled p w a → a ≡ 2 ^ suc p - 1
Filled-all p w a enough f = ext_bits a (2 ^ suc p - 1) (λ i. elim (dec_lt i (suc p)) [
  | yes low ↦
      let same : p - (p - i) ≡ i = omega arith in
      let one : bit a i ≡ 1 = ap (bit a) (sym same) ∙ f.ones (p - i) (omega arith) (omega arith) in
      omega (arith, one, bit-ones (suc p) i low)
  | no high ↦ omega (
    arith,
    f.zeros i (omega arith),
    bit-ge (suc p) i (2 ^ suc p - 1) (omega (arith, one-le-pow (suc p) 2)) (omega arith),
  )
])

pow2_roundup-top :
    (p a : ℕ)
    → p < 32
    → 1 ≤ a
    → a ≤ 2 ^ 32
    → 2 ^ p ≤ a - 1
    → a - 1 < 2 ^ suc p
    → pow2_roundup a ≡ 2 ^ suc p
unfolding pow2_roundup
pow2_roundup-top p a few pos h lo hi =
    let start : (a + 2 ^ 64 - 1) % 2 ^ 64 ≡ a - 1 = omega arith in
    let a₀ : ℕ = a - 1 in
    let f₀ : Filled p 1 a₀ = record {
      ones = λ j lt le. let same : p - j ≡ p = omega arith in rw same (bit-top p a₀ lo hi);
      zeros = λ i above. bit-ge (suc p) i a₀ hi (omega arith);
    } in
    let a₁ : ℕ = bit_or a₀ (a₀ / 2) in
    let f₁ : Filled p 2 a₁ = fill-Filled p 1 a₀ f₀ in
    let a₂ : ℕ = bit_or a₁ (a₁ / 2 ^ 2) in
    let f₂ : Filled p 4 a₂ = fill-Filled p 2 a₁ f₁ in
    let a₃ : ℕ = bit_or a₂ (a₂ / 2 ^ 4) in
    let f₃ : Filled p 8 a₃ = fill-Filled p 4 a₂ f₂ in
    let a₄ : ℕ = bit_or a₃ (a₃ / 2 ^ 8) in
    let f₄ : Filled p 16 a₄ = fill-Filled p 8 a₃ f₃ in
    let a₅ : ℕ = bit_or a₄ (a₄ / 2 ^ 16) in
    let f₅ : Filled p 32 a₅ = fill-Filled p 16 a₄ f₄ in
    let all : a₅ ≡ 2 ^ suc p - 1 = Filled-all p 32 a₅ few f₅ in
    let bound : 2 ^ suc p < 2 ^ 64 = pow-lt-pow (suc p) 64 (omega arith) in
    rw start (omega (arith, all, bound, one-le-pow (suc p) 2))

-- The power of two that `pow2_roundup` returns is the least that is not below its argument.
pow2_roundup-pow :
    (a : ℕ)
    → 1 ≤ a
    → a ≤ 2 ^ 32
    → (k : ℕ) × (pow2_roundup a ≡ 2 ^ k) × (a ≤ 2 ^ k) × (2 ^ k < 2 * a)
pow2_roundup-pow a pos h = elim (dec_lt a 2) [
  | yes least ↦
      let one : a ≡ 1 = omega arith in
      rw one (0, unfold pow2_roundup in refl, omega arith, omega arith)
  | no more ↦
      let (p, few, lo, hi) = top_of 32 (a - 1) (omega arith) (omega arith) in
      (suc p, pow2_roundup-top p a few pos h lo hi, omega arith, omega (arith, pow-suc 2 p))
]

even : (k n : ℕ) → 16 < 2 ^ k → 2 ^ k < 2 * (n + 1) → 2 ^ k ≤ 2 * n
even zero n large h = absurd (omega (arith, pow-zero 2))
even (suc k) n large h = omega (arith, pow-suc 2 k)

class_of-from :
    (size k : ℕ)
    → size + 1 ≤ 2 ^ 32
    → pow2_roundup (size + 1) ≡ 2 ^ k
    → 2 ^ k < 2 * (size + 1)
    → (n : ℕ) × (class_of size ≡ 2 ^ n) × ((class_of size ≡ 32) ⊎ (class_of size ≤ 2 * size))
unfolding class_of
class_of-from size k h e hi =
    let whole : (size + 1) % 2 ^ 64 ≡ size + 1 = omega arith in
    elim (Bool-cases (leb (2 ^ k) 16)) [
      | inl small ↦
          let c : class_of size ≡ 32 = rw (class_of, whole, e, small) refl in (5, c, inl c)
      | inr large ↦
          let c : class_of size ≡ 2 ^ k = rw (class_of, whole, e, large) refl in
          (k, c, inr (omega (arith, c, even k size (ground arith) hi)))
    ]

-- For a size that fits into 32 bits with one more, `alloc` looks for objects of a power of two of bytes,
-- which is more than the size and at most 2 ^ 32; it is 32, or at most twice the size.
pub class_of-pow :
    (size : ℕ)
    → size + 1 ≤ 2 ^ 32
    → (k : ℕ) × (class_of size ≡ 2 ^ k)
      × (size < class_of size)
      × (class_of size ≤ 2 ^ 32)
      × ((class_of size ≡ 32) ⊎ (class_of size ≤ 2 * size))
class_of-pow size h =
    let (gt, le) = class_of-gt size h in
    let (k, e, lo, hi) = pow2_roundup-pow (size + 1) (omega arith) h in
    let (n, c, fits) = class_of-from size k h e hi in (n, c, gt, le, fits)
