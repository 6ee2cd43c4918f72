-- ===== src/Base/Words.antt =====
-- Shifts of a word distribute over `|` and `&`, and fields of a word that `|` puts together.
use Prim.Native.Nat.{ℕ, zero, suc, ◌+◌, ◌-◌, ◌/◌, ◌%◌, ◌^◌, ◌≤◌, ◌<◌, max, bit_and, bit_or}
use mathlib.Core.Path.{◌≡◌, refl, ap, ◌∙◌, sym}
use native.Mathlib.Nat.{pow-suc, pow-zero, div-div-eq-div-mul, div-one}
use native.Mathlib.Omega.{arith}
use native.Mathlib.Decide.{dec_lt}
use pastoral.Base.Bits.{
  bit, bit-zero, bit-bit_or, bit-bit_and, eq_of_bits, complement, bit-complement,
}

lt-two_pow : (n : ℕ) → n < 2 ^ n
lt-two_pow zero = omega (arith, pow-zero 2)
lt-two_pow (suc n) = omega (arith, lt-two_pow n, pow-suc 2 n)

-- Two numbers with the same digits are equal.
pub ext_bits : (x y : ℕ) → ((i : ℕ) → bit x i ≡ bit y i) → x ≡ y
ext_bits x y same =
    eq_of_bits (max x y) x y (omega (arith, lt-two_pow (max x y)))
      (omega (arith, lt-two_pow (max x y))) same

bit-half : (x i : ℕ) → bit (x / 2) i ≡ bit x (suc i)
unfolding bit
bit-half x i = refl

pub bit_or-half : (x y : ℕ) → bit_or x y / 2 ≡ bit_or (x / 2) (y / 2)
bit_or-half x y = ext_bits (bit_or x y / 2) (bit_or (x / 2) (y / 2)) (λ i. omega (
  arith,
  bit-half (bit_or x y) i,
  bit-half x i,
  bit-half y i,
  bit-bit_or (suc i) x y,
  bit-bit_or i (x / 2) (y / 2),
))

pub bit_and-half : (x y : ℕ) → bit_and x y / 2 ≡ bit_and (x / 2) (y / 2)
bit_and-half x y = ext_bits (bit_and x y / 2) (bit_and (x / 2) (y / 2)) (λ i. omega (
  arith,
  bit-half (bit_and x y) i,
  bit-half x i,
  bit-half y i,
  bit-bit_and (suc i) x y,
  bit-bit_and i (x / 2) (y / 2),
))

div-pow-suc : (k x : ℕ) → x / 2 ^ suc k ≡ x / 2 / 2 ^ k
div-pow-suc k x =
    ap (λ (t : ℕ). x / t) (omega (arith, pow-suc 2 k)) ∙ sym (div-div-eq-div-mul x 2 (2 ^ k))

pub bit_or-shift : (k x y : ℕ) → bit_or x y / 2 ^ k ≡ bit_or (x / 2 ^ k) (y / 2 ^ k)
bit_or-shift zero x y = rw (pow-zero 2, div-one x, div-one y, div-one (bit_or x y)) refl
bit_or-shift (suc k) x y =
    rw (div-pow-suc k (bit_or x y), div-pow-suc k x, div-pow-suc k y, bit_or-half x y)
      (bit_or-shift k (x / 2) (y / 2))

pub bit_and-shift : (k x y : ℕ) → bit_and x y / 2 ^ k ≡ bit_and (x / 2 ^ k) (y / 2 ^ k)
bit_and-shift zero x y = rw (pow-zero 2, div-one x, div-one y, div-one (bit_and x y)) refl
bit_and-shift (suc k) x y =
    rw (div-pow-suc k (bit_and x y), div-pow-suc k x, div-pow-suc k y, bit_and-half x y)
      (bit_and-shift k (x / 2) (y / 2))

-- The digits of a shifted word.
pub bit-shift : (k x i : ℕ) → bit (x / 2 ^ k) i ≡ bit x (i + k)
bit-shift zero x i = let same : i + 0 ≡ i = omega arith in rw (pow-zero 2, div-one x, same) refl
bit-shift (suc k) x i =
    let same : i + suc k ≡ suc (i + k) = omega arith in
    rw (div-pow-suc k x, same) (bit-shift k (x / 2) i ∙ bit-half x (i + k))

-- The highest digit of a number that is not 0.
pub bit-top : (p x : ℕ) → 2 ^ p ≤ x → x < 2 ^ suc p → bit x p ≡ 1
unfolding bit
bit-top zero x lo hi = omega (arith, pow-suc 2 0, pow-zero 2)
bit-top (suc p) x lo hi =
    bit-top p (x / 2) (omega (arith, pow-suc 2 p)) (omega (arith, pow-suc 2 (suc p)))

pub top_of : (n x : ℕ) → 1 ≤ x → x < 2 ^ n → (p : ℕ) × (p < n) × (2 ^ p ≤ x) × (x < 2 ^ suc p)
top_of zero x pos h = absurd (omega (arith, pow-zero 2))
top_of (suc n) x pos h = elim (dec_lt x (2 ^ n)) [
  | yes small ↦ let (p, lt, lo, hi) = top_of n x pos small in (p, omega arith, lo, hi)
  | no large ↦ (n, omega arith, omega arith, h)
]

-- The digits of `2 ^ w - 1`.
pub bit-ones : (w i : ℕ) → i < w → bit (2 ^ w - 1) i ≡ 1
bit-ones w i lt =
    let same : 2 ^ w - 1 ≡ complement w 0 = omega arith in
    rw same (omega (arith, bit-complement i w 0 lt (omega (arith, lt-two_pow w)), bit-zero i))

pub bit_or-zero : (x : ℕ) → bit_or x 0 ≡ x
bit_or-zero x = ext_bits (bit_or x 0) x (λ i. omega (arith, bit-bit_or i x 0, bit-zero i))

bit_or-parity : (x y : ℕ) → bit_or x y % 2 ≡ max (x % 2) (y % 2)
unfolding bit
bit_or-parity x y = bit-bit_or 0 x y

-- `x | y` keeps every digit of `x`.
le_bit_or_below : (n x y : ℕ) → x < 2 ^ n → x ≤ bit_or x y
le_bit_or_below zero x y h = omega (arith, pow-zero 2)
le_bit_or_below (suc n) x y h = omega (
  arith,
  pow-suc 2 n,
  le_bit_or_below n (x / 2) (y / 2) (omega (arith, pow-suc 2 n)),
  bit_or-half x y,
  bit_or-parity x y,
)

pub le-bit_or : (x y : ℕ) → x ≤ bit_or x y
le-bit_or x y = le_bit_or_below x x y (lt-two_pow x)
