-- ===== src/Base/Bits.antt =====
-- Binary digits of a machine word: what `|`, `&` and `~` do to each of them.
use Prim.Native.Nat.{
  ℕ, zero, suc, ◌+◌, ◌-◌, ◌*◌, ◌/◌, ◌%◌, ◌^◌, ◌≤◌, ◌<◌, min, max, digits, bit_and, bit_or,
  bit_and-bitwise, bit_or-bitwise,
}
use mathlib.Core.Path.{◌≡◌, refl, ap, ◌∙◌}
use mathlib.Core.Logic.{◌≢◌}
use native.Mathlib.Nat.{pow-suc, pow-zero, one-le-pow}
use native.Mathlib.Omega.{arith}
use mathlib.Core.Logic.{inl, inr}
use pastoral.Base.Tests.{◌==◌, if◌then◌else◌, Bool-cases}

-- `(x >> i) & 1`
unfoldable pub bit : ℕ → ℕ → ℕ
bit x zero = x % 2
bit x (suc i) = bit (x / 2) i

-- `~x` on a word of `w` bits
abbrev pub complement : ℕ → ℕ → ℕ
complement w x = 2 ^ w - 1 - x

pub bit-lt_two : (i a : ℕ) → bit a i < 2
unfolding bit
bit-lt_two zero a = omega arith
bit-lt_two (suc i) a = bit-lt_two i (a / 2)

pub bit-zero : (i : ℕ) → bit 0 i ≡ 0
unfolding bit
bit-zero zero = refl
bit-zero (suc i) = bit-zero i

-- A native operation is a recursion on the digits of its first argument, with the fuel `n`; it acts
-- on each digit by `f`, if `z` does so behind the last digit.
module _ (z : ℕ → ℕ) (f : ℕ → ℕ → ℕ) (small : (x y : ℕ) → f (x % 2) (y % 2) < 2)
    (rest : (y i : ℕ) → bit (z y) i ≡ f (bit 0 i) (bit y i)) where
  bit-digits : (i n x y : ℕ) → x ≤ n → bit (digits z f n x y) i ≡ f (bit x i) (bit y i)
  unfolding bit
  bit-digits i zero zero y h = rest y i
  bit-digits i (suc n) zero y h = rest y i
  bit-digits i zero (suc x) y h = absurd (omega arith)
  bit-digits zero (suc n) (suc x) y h = omega (arith, small (suc x) y)
  bit-digits (suc i) (suc n) (suc x) y h =
      let tail : ℕ = digits z f n (suc x / 2) (y / 2) in
      let shift : (tail * 2 + f (suc x % 2) (y % 2)) / 2 ≡ tail = omega (arith, small (suc x) y) in
      rw shift (bit-digits i n (suc x / 2) (y / 2) (omega arith))

pub bit-bit_or : (i x y : ℕ) → bit (bit_or x y) i ≡ max (bit x i) (bit y i)
bit-bit_or i x y = rw (bit_or-bitwise x y) (
    bit-digits (λ t. t) max (λ u v. omega arith) (λ v k. omega (arith, bit-zero k)) i x x y
      (omega arith))

pub bit-bit_and : (i x y : ℕ) → bit (bit_and x y) i ≡ min (bit x i) (bit y i)
bit-bit_and i x y = rw (bit_and-bitwise x y) (
    bit-digits (λ t. 0) min (λ u v. omega arith) (λ v k. omega (arith, bit-zero k)) i x x y
      (omega arith))

complement_half : (w x : ℕ) → x < 2 ^ suc w → complement (suc w) x / 2 ≡ complement w (x / 2)
complement_half w x h = omega (arith, pow-suc 2 w, one-le-pow w 2)

pub bit-complement : (i w x : ℕ) → i < w → x < 2 ^ w → bit (complement w x) i ≡ 1 - bit x i
unfolding bit
bit-complement i zero x p h = absurd (omega arith)
bit-complement zero (suc w) x p h = omega (arith, pow-suc 2 w, one-le-pow w 2)
bit-complement (suc i) (suc w) x p h =
    rw (complement_half w x h)
      (bit-complement i w (x / 2) (omega arith) (omega (arith, pow-suc 2 w)))

pub bit-pow : (i k : ℕ) → bit (2 ^ k) i ≡ (if i == k then 1 else 0)
unfolding bit
bit-pow zero zero = refl
bit-pow zero (suc k) = ground (arith, pow-suc 2 k)
bit-pow (suc i) zero = ground (arith, bit-zero i)
bit-pow (suc i) (suc k) =
    let half : 2 ^ suc k / 2 ≡ 2 ^ k = omega (arith, pow-suc 2 k) in
    rw half (ground (arith, bit-pow i k))

-- The cast to `uint8_t` keeps the low digits.
pub bit-mod_byte : (i x : ℕ) → i < 8 → bit (x % 2 ^ 8) i ≡ bit x i
unfolding bit
bit-mod_byte zero x h = omega arith
bit-mod_byte (suc zero) x h = omega arith
bit-mod_byte (suc (suc zero)) x h = omega arith
bit-mod_byte (suc (suc (suc zero))) x h = omega arith
bit-mod_byte (suc (suc (suc (suc zero)))) x h = omega arith
bit-mod_byte (suc (suc (suc (suc (suc zero))))) x h = omega arith
bit-mod_byte (suc (suc (suc (suc (suc (suc zero)))))) x h = omega arith
bit-mod_byte (suc (suc (suc (suc (suc (suc (suc zero))))))) x h = omega arith
bit-mod_byte (suc (suc (suc (suc (suc (suc (suc (suc i)))))))) x h = absurd (omega arith)

pub pow-lt-pow : (i w : ℕ) → i < w → 2 ^ i < 2 ^ w
pow-lt-pow i zero h = absurd (omega arith)
pow-lt-pow zero (suc w) h = omega (arith, pow-suc 2 w, one-le-pow w 2)
pow-lt-pow (suc i) (suc w) h = omega (arith, pow-suc 2 w, pow-suc 2 i, pow-lt-pow i w (omega arith))

-- `x & y` keeps no digit that `x` has not.
digits-le : (n x y : ℕ) → x ≤ n → digits (λ t. 0) min n x y ≤ x
digits-le zero zero y h = omega arith
digits-le (suc n) zero y h = omega arith
digits-le zero (suc x) y h = absurd (omega arith)
digits-le (suc n) (suc x) y h = omega (arith, digits-le n (suc x / 2) (y / 2) (omega arith))

pub bit_and-le : (x y : ℕ) → bit_and x y ≤ x
bit_and-le x y = rw (bit_and-bitwise x y) (digits-le x x y (omega arith))

-- A word is 0 if all its digits are.
pub eq_zero_of_bits : (n x : ℕ) → x < 2 ^ n → ((i : ℕ) → i < n → bit x i ≡ 0) → x ≡ 0
eq_zero_of_bits zero x h z = omega (arith, pow-zero 2)
eq_zero_of_bits (suc n) x h z = omega (
  arith,
  lowest (z 0 (omega arith)),
  eq_zero_of_bits n (x / 2) (omega (arith, pow-suc 2 n))
      (λ i p. shifted i (z (suc i) (omega arith))),
)
  where
    lowest : bit x 0 ≡ 0 → x % 2 ≡ 0
    lowest e = unfold bit in e

    shifted : (i : ℕ) → bit x (suc i) ≡ 0 → bit (x / 2) i ≡ 0
    shifted i e = unfold bit in e

pub ne_zero_of_bit : (x i : ℕ) → bit x i ≡ 1 → x ≢ 0
ne_zero_of_bit x i e z = omega (arith, bit-zero i, ap (λ (t : ℕ). bit t i) z)

-- The digits behind the width of a word are 0.
pub bit-ge : (k j x : ℕ) → x < 2 ^ k → k ≤ j → bit x j ≡ 0
bit-ge zero j x h p = let z : x ≡ 0 = omega (arith, pow-zero 2) in rw z (bit-zero j)
bit-ge (suc k) zero x h p = absurd (omega arith)
bit-ge (suc k) (suc j) x h p =
    shifted (bit-ge k j (x / 2) (omega (arith, pow-suc 2 k)) (omega arith))
  where
    shifted : bit (x / 2) j ≡ 0 → bit x (suc j) ≡ 0
    shifted e = unfold bit in e

-- `x & y` tested against 0.
pub bit_and-zero :
    (x y : ℕ) → x < 2 ^ 64 → ((i : ℕ) → i < 64 → min (bit x i) (bit y i) ≡ 0) → bit_and x y ≡ 0
bit_and-zero x y h z =
    eq_zero_of_bits 64 (bit_and x y) (omega (arith, bit_and-le x y))
      (λ i p. bit-bit_and i x y ∙ z i p)

pub bit_and-ne_zero : (x y i : ℕ) → bit x i ≡ 1 → bit y i ≡ 1 → bit_and x y ≢ 0
bit_and-ne_zero x y i p q = ne_zero_of_bit (bit_and x y) i (omega (arith, bit-bit_and i x y))

-- Two words with the same digits are equal.
pub eq_of_bits : (n x y : ℕ) → x < 2 ^ n → y < 2 ^ n → ((i : ℕ) → bit x i ≡ bit y i) → x ≡ y
eq_of_bits zero x y h k same = omega (arith, pow-zero 2)
eq_of_bits (suc n) x y h k same = omega (
  arith,
  lowest (same 0),
  eq_of_bits n (x / 2) (y / 2) (omega (arith, pow-suc 2 n)) (omega (arith, pow-suc 2 n))
      (λ i. shifted i (same (suc i))),
)
  where
    lowest : bit x 0 ≡ bit y 0 → x % 2 ≡ y % 2
    lowest e = unfold bit in e

    shifted : (i : ℕ) → bit x (suc i) ≡ bit y (suc i) → bit (x / 2) i ≡ bit (y / 2) i
    shifted i e = unfold bit in e

-- `x & (1 << k)` tested against 0.
pub bit_and-pow : (x k : ℕ) → x < 2 ^ 64 → (bit_and x (2 ^ k) == 0) ≡ (bit x k == 0)
bit_and-pow x k h = elim (Bool-cases (bit x k == 0)) [
  | inl e ↦
      let z : bit_and x (2 ^ k) ≡ 0 =
        bit_and-zero x (2 ^ k) h (λ i p. ground (arith, bit-pow i k)) in
      ground (arith, z)
  | inr e ↦
      let one : bit x k ≡ 1 = ground (arith, bit-lt_two k x) in
      let nz : bit_and x (2 ^ k) ≢ 0 =
        bit_and-ne_zero x (2 ^ k) k one (ground (arith, bit-pow k k)) in
      ground (arith, nz)
]
