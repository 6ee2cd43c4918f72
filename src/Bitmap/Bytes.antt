-- ===== src/Bitmap/Bytes.antt =====
-- What the bit macros do to each bit of an array of bytes.
use pastoral.Base.{
  ℕ, ◌/◌, ◌%◌, ◌^◌, ◌<◌, ◌≡◌, inl, inr, List, length, get_or, ◌==◌, if◌then◌else◌, arith,
  Bool-cases, get_or-set_self, get_or-set_ne, bit-bit_or, bit-bit_and, bit-pow, bit-mod_byte,
  bit-lt_two, bit-complement, pow-lt-pow, length-set, bit_or, bit_and, complement,
}
use pastoral.Bitmap.{get_bit, put_bit, drop_bit}

pub get_bit-lt_two : (a : List ℕ) (j : ℕ) → get_bit a j < 2
unfolding get_bit
get_bit-lt_two a j = bit-lt_two (j % 8) (get_or a (j / 8) 0)

pub length-put_bit : (a : List ℕ) (b : ℕ) → length (put_bit a b) ≡ length a
unfolding put_bit
length-put_bit a b = length-set a (b / 8) _

pub length-drop_bit : (a : List ℕ) (b : ℕ) → length (drop_bit a b) ≡ length a
unfolding drop_bit
length-drop_bit a b = length-set a (b / 8) _

-- `BIT_SET` sets its bit and keeps the others.
pub get_bit-put_bit :
    (a : List ℕ) (b j : ℕ)
    → b / 8 < length a
    → get_bit (put_bit a b) j ≡ (if j == b then 1 else get_bit a j)
unfolding get_bit put_bit
get_bit-put_bit a b j h =
    let x : ℕ = get_or a (b / 8) 0 in
    let y : ℕ = bit_or x (2 ^ (b % 8)) in
    elim (Bool-cases (j / 8 == b / 8)) [
      | inl e ↦
          let e' : j / 8 ≡ b / 8 = ground arith in
          rw (e', get_or-set_self a (b / 8) (y % 2 ^ 8) 0 h)
            (ground (
              arith,
              bit-mod_byte (j % 8) y,
              bit-bit_or (j % 8) x (2 ^ (b % 8)),
              bit-pow (j % 8) (b % 8),
              bit-lt_two (j % 8) x,
            ))
      | inr e ↦ ground (arith, get_or-set_ne a (b / 8) (j / 8) (y % 2 ^ 8) 0)
    ]

-- `BIT_CLEAR` clears its bit and keeps the others.
pub get_bit-drop_bit :
    (a : List ℕ) (b j : ℕ)
    → b / 8 < length a
    → get_bit (drop_bit a b) j ≡ (if j == b then 0 else get_bit a j)
unfolding get_bit drop_bit
get_bit-drop_bit a b j h =
    let x : ℕ = get_or a (b / 8) 0 in
    let m : ℕ = complement 32 (2 ^ (b % 8)) in
    let y : ℕ = bit_and x m in
    elim (Bool-cases (j / 8 == b / 8)) [
      | inl e ↦
          let e' : j / 8 ≡ b / 8 = ground arith in
          rw (e', get_or-set_self a (b / 8) (y % 2 ^ 8) 0 h)
            (ground (
              arith,
              bit-mod_byte (j % 8) y,
              bit-bit_and (j % 8) x m,
              bit-complement (j % 8) 32 (2 ^ (b % 8)) (omega arith)
                  (pow-lt-pow (b % 8) 32 (omega arith)),
              bit-pow (j % 8) (b % 8),
              bit-lt_two (j % 8) x,
            ))
      | inr e ↦ ground (arith, get_or-set_ne a (b / 8) (j / 8) (y % 2 ^ 8) 0)
    ]
