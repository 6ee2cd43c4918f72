-- ===== src/Text/Number.antt =====
-- `sprint_print_number` prints the digits of a number, if its array has room for them.
use pastoral.Base.{
  ℕ, zero, suc, ◌+◌, ◌-◌, ◌*◌, ◌/◌, ◌%◌, ◌^◌, ◌<◌, ◌≤◌, ◌≡◌, ◌≢◌, refl, ap, List, [], ◌∷◌, ◌++◌,
  arith, none, some, Option, leb, ◌&&◌, >>=-eq-some, ◌∙◌, if◌then◌else◌, ◌>>=◌,
}
use native.Mathlib.Nat.{
  pow-suc, pow-zero, one-le-pow, div-add-mod, mod-lt, div-lt_iff_lt-mul, mul_comm,
}
use native.Mathlib.Decide.{dec_lt, ℕ_discrete}
use pastoral.Text.{digits_from, character, put_digits, sprint_print_number}

-- The value of a digit character: '0' to '9' and 'A' to 'F'.
abbrev pub digit_value : ℕ → Option ℕ
digit_value c =
    if leb b'0' c && leb c b'9'
    then some (c - b'0')
    else if leb b'A' c && leb c b'F'
    then some (c - b'A' + 10)
    else none

-- What a printed number reads as in base `base`, from the left; `none` if a character is no digit.
unfoldable pub read : ℕ → ℕ → List ℕ → Option ℕ
read base acc [] = some acc
read base acc (c ∷ cs) = do d ← digit_value c; read base (acc * base + d) cs

digit_value-character : (d : ℕ) → d < 16 → digit_value (character d) ≡ some d
unfolding character
digit_value-character d h = ground arith

-- The number that digits stand for, lowest first.
value : ℕ → List ℕ → ℕ
value base [] = 0
value base (d ∷ ds) = d + base * value base ds

read-append :
    (base acc n : ℕ) (xs ys : List ℕ)
    → read base acc xs ≡ some n
    → read base acc (xs ++ ys) ≡ read base n ys
unfolding read
read-append base acc n [] ys e = ground (arith, e)
read-append base acc n (x ∷ xs) ys e =
    let (d, got, rest) = >>=-eq-some (digit_value x) _ e in
    rw got (read-append base (acc * base + d) n xs ys rest)

abbrev Digits : List ℕ → Type 0
Digits [] = Unit
Digits (d ∷ ds) = (d < 16) × Digits ds

read-put_digits :
    (base : ℕ) (ds : List ℕ) → Digits ds → read base 0 (put_digits ds) ≡ some (value base ds)
unfolding put_digits value
read-put_digits base [] h = unfold read in refl
read-put_digits base (d ∷ ds) h =
    read-append base 0 (value base ds) (put_digits ds) (character d ∷ [])
      (read-put_digits base ds h.1)
    ∙ (unfold read in rw (digit_value-character d h.0) (ap some (omega arith)))

record Printed (room number base : ℕ) (ds : List ℕ) : Type 0 where
  result : digits_from room number base ≡ some ds
  worth : value base ds ≡ number
  small : Digits ds

quotient_small : (n b p : ℕ) → 0 < b → n < b * p → n / b < p
quotient_small n b p pos h = (div-lt_iff_lt-mul pos).1 (rw (mul_comm p b) h)

quotient_large : (n b p : ℕ) → 0 < b → b * p ≤ n → p ≤ n / b
quotient_large n b p pos h = elim (dec_lt (n / b) p) [
  | yes q ↦
      absurd (omega (arith, (div-lt_iff_lt-mul {k = b} {x = n} {y = p} pos).0 q, mul_comm p b))
  | no q ↦ omega arith
]

digits_from-last :
    (room number base : ℕ)
    → number / base ≡ 0
    → digits_from (suc room) number base ≡ some (number % base ∷ [])
unfolding digits_from
digits_from-last room number base e = rw e

digits_from-more :
    (room number base : ℕ)
    → number / base ≢ 0
    → digits_from (suc room) number base
      ≡ (digits_from room (number / base) base >>= λ ds. some (number % base ∷ ds))
unfolding digits_from
digits_from-more room number base ne = ground arith

Printed-one :
    (room number base : ℕ)
    → 2 ≤ base
    → base ≤ 16
    → number / base ≡ 0
    → Printed (suc room) number base (number % base ∷ [])
unfolding value
Printed-one room number base lo hi e = record {
  result = digits_from-last room number base e;
  worth = grind (arith, div-add-mod number base, ap (λ (t : ℕ). base * t) e);
  small = ground (arith, mod-lt number {m = base});
}

Printed-more :
    (room number base : ℕ) (ds : List ℕ)
    → 2 ≤ base
    → base ≤ 16
    → number / base ≢ 0
    → Printed room (number / base) base ds
    → Printed (suc room) number base (number % base ∷ ds)
unfolding value
Printed-more room number base ds lo hi ne p = record {
  result = digits_from-more room number base ne ∙ rw p.result;
  worth = omega (arith, div-add-mod number base, ap (λ (t : ℕ). base * t) p.worth);
  small = (ground (arith, mod-lt number {m = base}), p.small);
}

-- The array suffices for every number below `base ^ room`.
digits_from-Printed :
    (room number base : ℕ)
    → 2 ≤ base
    → base ≤ 16
    → number < base ^ suc room
    → (ds : List ℕ) × Printed (suc room) number base ds
digits_from-Printed zero number base lo hi h =
    let small : number / base < 1 =
      quotient_small number base 1 (omega arith)
        (omega (arith, pow-suc base 0, ap (λ (t : ℕ). t * base) (pow-zero base))) in
    (number % base ∷ [], Printed-one zero number base lo hi (omega arith))
digits_from-Printed (suc room) number base lo hi h = elim (ℕ_discrete (number / base) 0) [
  | yes e ↦ (number % base ∷ [], Printed-one (suc room) number base lo hi e)
  | no ne ↦
      let small : number / base < base ^ suc room =
        quotient_small number base (base ^ suc room) (omega arith)
          (omega (arith, pow-suc base (suc room))) in
      let (ds, p) = digits_from-Printed room (number / base) base lo hi small in
      (number % base ∷ ds, Printed-more (suc room) number base ds lo hi ne p)
]

digits_from-overflow :
    (room number base : ℕ) → 2 ≤ base → base ^ room ≤ number → digits_from room number base ≡ none
digits_from-overflow zero number base lo h = unfold digits_from in refl
digits_from-overflow (suc room) number base lo h =
    let large : base ^ room ≤ number / base =
      quotient_large number base (base ^ room) (omega arith) (omega (arith, pow-suc base room)) in
    digits_from-more room number base (omega (arith, one-le-pow room base))
    ∙ rw (digits_from-overflow room (number / base) base lo large)

-- A number below `base ^ 50`, printed in a base from 2 to 16, is appended to the string as digits
-- '0' to '9' and 'A' to 'F' that read as that number in that base.
pub read-sprint_print_number :
    (str : List ℕ) (number base : ℕ)
    → 2 ≤ base
    → base ≤ 16
    → number < base ^ 50
    → (cs : List ℕ) × (sprint_print_number str number base ≡ some (str ++ cs))
      × (read base 0 cs ≡ some number)
unfolding sprint_print_number
read-sprint_print_number str number base lo hi h =
    let (ds, p) = digits_from-Printed 49 number base lo hi h in
    (put_digits ds, rw p.result, read-put_digits base ds p.small ∙ ap some p.worth)

-- A number of `base ^ 50` or more makes `sprint_print_number` write behind its array of 50 digits.
-- In base 2 that happens for 64-bit numbers.
pub sprint_print_number-overflow :
    (str : List ℕ) (number base : ℕ)
    → 2 ≤ base
    → base ^ 50 ≤ number
    → sprint_print_number str number base ≡ none
unfolding sprint_print_number
sprint_print_number-overflow str number base lo h = rw (digits_from-overflow 50 number base lo h)
