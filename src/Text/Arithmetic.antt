-- ===== src/Text/Arithmetic.antt =====
-- `pow` and `octal_to_decimal` of kernel/lib/string.h.
use pastoral.Base.{
  ℕ, zero, suc, ◌+◌, ◌-◌, ◌*◌, ◌/◌, ◌%◌, ◌^◌, ◌<◌, ◌≤◌, ◌≡◌, ◌≢◌, refl, sym, ap, subst, List, [],
  ◌∷◌, ◌==◌, arith, some, ◌∙◌, Bool-cases, inl, inr, false,
}
use native.Mathlib.Nat.{
  pow-suc, pow-zero, mod-add-div, add-mul-mod_self_left, add-mul, mul_assoc, mul_comm, mul-one,
  one-mul,
}
use pastoral.Text.{pow_from, pow, octal_from, octal_to_decimal}

mod_mul : (m x y : ℕ) → (x % m * y) % m ≡ (x * y) % m
mod_mul m x y =
    let split : x * y ≡ x % m * y + m * (x / m * y) =
      ap (λ (t : ℕ). t * y) (sym (mod-add-div x m))
      ∙ add-mul (x % m) (m * (x / m)) y
      ∙ ap (λ (t : ℕ). x % m * y + t) (mul_assoc m (x / m) y) in
    rw split (sym (add-mul-mod_self_left (x % m * y) m (x / m * y)))

mul_mod : (m x y : ℕ) → (x * (y % m)) % m ≡ (x * y) % m
mul_mod m x y = rw (mul_comm x (y % m), mul_comm x y) (mod_mul m y x)

mod_pow : (m x k r : ℕ) → (r * (x % m) ^ k) % m ≡ (r * x ^ k) % m
mod_pow m x zero r = rw (pow-zero (x % m), pow-zero x) refl
mod_pow m x (suc k) r =
    rw
      (
        pow-suc (x % m) k,
        pow-suc x k,
        sym (mul_assoc r ((x % m) ^ k) (x % m)),
        sym (mul_assoc r (x ^ k) x),
      )
      (mul_mod m (r * (x % m) ^ k) x
        ∙ sym (mod_mul m (r * (x % m) ^ k) x)
        ∙ ap (λ (t : ℕ). (t * x) % m) (mod_pow m x k r)
        ∙ mod_mul m (r * x ^ k) x)

pow_square : (x k : ℕ) → x ^ (k + k) ≡ (x * x) ^ k
pow_square x zero = rw (pow-zero (x * x)) (pow-zero x)
pow_square x (suc k) =
    let twice : suc k + suc k ≡ suc (suc (k + k)) = omega arith in
    rw (twice, pow-suc x (suc (k + k)), pow-suc x (k + k), pow-suc (x * x) k, pow_square x k)
      (mul_assoc ((x * x) ^ k) x x)

-- What is left of the result once the base has been squared and the exponent halved.
halve : (m r b k : ℕ) → (r * ((b * b) % m) ^ k) % m ≡ (r * b ^ (k + k)) % m
halve m r b k = mod_pow m (b * b) k r ∙ ap (λ (t : ℕ). (r * t) % m) (sym (pow_square b k))

odd_step : (m r b k : ℕ) → ((r * b) % m * b ^ (k + k)) % m ≡ (r * b ^ suc (k + k)) % m
odd_step m r b k =
    mod_mul m (r * b) (b ^ (k + k))
    ∙ ap (λ (t : ℕ). t % m)
        (mul_assoc r b (b ^ (k + k))
          ∙ ap (λ (t : ℕ). r * t) (mul_comm b (b ^ (k + k)) ∙ sym (pow-suc b (k + k))))

pow_from-stop :
    (n r b e : ℕ) → e / 2 ≡ 0 → r < 2 ^ 64 → pow_from (suc n) r b e ≡ some ((r * b ^ e) % 2 ^ 64)
unfolding pow_from
pow_from-stop n r b e z small = elim (Bool-cases (e % 2 == 1)) [
  | inl odd ↦
      let one : e ≡ 1 = ground arith in
      rw (z, odd)
        (rw one (
          ap (λ (t : ℕ). some ((r * t) % 2 ^ 64))
            (sym (pow-suc b 0 ∙ ap (λ (t : ℕ). t * b) (pow-zero b) ∙ one-mul b))))
  | inr even ↦
      let none_left : e ≡ 0 = ground arith in
      rw (z, even)
        (rw none_left (
          ap some (sym (ap (λ (t : ℕ). (r * t) % 2 ^ 64) (pow-zero b) ∙ omega (arith, mul-one r)))))
]

pow_from-odd :
    (n r b k : ℕ)
    → k ≢ 0
    → pow_from (suc n) r b (suc (k + k)) ≡ pow_from n ((r * b) % 2 ^ 64) ((b * b) % 2 ^ 64) k
unfolding pow_from
pow_from-odd n r b k nz =
    let odd : suc (k + k) % 2 ≡ 1 = omega arith in
    let half : suc (k + k) / 2 ≡ k = omega arith in
    let more : (k == 0) ≡ false = ground arith in rw (odd, half, more) refl

pow_from-even :
    (n r b k : ℕ) → k ≢ 0 → pow_from (suc n) r b (k + k) ≡ pow_from n r ((b * b) % 2 ^ 64) k
unfolding pow_from
pow_from-even n r b k nz =
    let even : (k + k) % 2 ≡ 0 = omega arith in
    let half : (k + k) / 2 ≡ k = omega arith in
    let more : (k == 0) ≡ false = ground arith in rw (even, half, more) refl

pow_from-eq :
    (n r b e : ℕ)
    → e < 2 ^ suc n
    → r < 2 ^ 64
    → pow_from (suc n) r b e ≡ some ((r * b ^ e) % 2 ^ 64)
pow_from-eq zero r b e h small =
    pow_from-stop 0 r b e (omega (arith, pow-suc 2 0, pow-zero 2)) small
pow_from-eq (suc n) r b e h small = elim (Bool-cases (e / 2 == 0)) [
  | inl z ↦ pow_from-stop (suc n) r b e (ground arith) small
  | inr more ↦
      let k : ℕ = e / 2 in
      let nz : k ≢ 0 = ground arith in
      let bound : k < 2 ^ suc n = omega (arith, pow-suc 2 (suc n)) in
      elim (Bool-cases (e % 2 == 1)) [
        | inl odd ↦
            let shape : e ≡ suc (k + k) = ground arith in
            subst (λ (x : ℕ). pow_from (suc (suc n)) r b x ≡ some ((r * b ^ x) % 2 ^ 64))
              (sym shape)
              (pow_from-odd (suc n) r b k nz
                ∙ pow_from-eq n ((r * b) % 2 ^ 64) ((b * b) % 2 ^ 64) k bound (omega arith)
                ∙ ap some (halve (2 ^ 64) ((r * b) % 2 ^ 64) b k ∙ odd_step (2 ^ 64) r b k))
        | inr even ↦
            let shape : e ≡ k + k = ground arith in
            subst (λ (x : ℕ). pow_from (suc (suc n)) r b x ≡ some ((r * b ^ x) % 2 ^ 64))
              (sym shape)
              (pow_from-even (suc n) r b k nz
                ∙ pow_from-eq n r ((b * b) % 2 ^ 64) k bound small
                ∙ ap some (halve (2 ^ 64) r b k))
      ]
]

-- `pow` with an exponent that is not negative ends and returns the power, cut to 64 bits.
pub pow-eq : (base exp : ℕ) → exp < 2 ^ 63 → pow base exp ≡ some (base ^ exp % 2 ^ 64)
unfolding pow
pow-eq base exp h =
    pow_from-eq 63 1 base exp (omega arith) (omega arith)
    ∙ ap (λ (t : ℕ). some (t % 2 ^ 64)) (one-mul (base ^ exp))

-- The characters from `0` to `7`.
abbrev pub Octal : List ℕ → Type 0
Octal [] = Unit
Octal (c ∷ str) = (b'0' ≤ c) × (c ≤ b'7') × Octal str

-- What octal digits read as, from the left.
unfoldable pub octal_value : ℕ → List ℕ → ℕ
octal_value acc [] = acc
octal_value acc (c ∷ cs) = octal_value (acc * 8 + (c - b'0')) cs

octal_from-read :
    (str : List ℕ) (x acc : ℕ)
    → Octal str
    → x ≡ acc % 2 ^ 64
    → octal_from x str ≡ octal_value acc str % 2 ^ 64
unfolding octal_from octal_value
octal_from-read [] x acc o e = e
octal_from-read (c ∷ str) x acc o e =
    let nonzero : (c == 0) ≡ false = ground (arith, o.0) in
    rw nonzero (
      octal_from-read str (((x * 8) % 2 ^ 64 + (c + 2 ^ 64 - 0x30)) % 2 ^ 64) (acc * 8 + (c - b'0'))
        o.2 (ground (arith, o.0, o.1)))

-- `octal_to_decimal` of octal digits is the number that they read as in base 8, cut to 64 bits.
pub octal_to_decimal-read :
    (str : List ℕ) → Octal str → octal_to_decimal str ≡ octal_value 0 str % 2 ^ 64
unfolding octal_to_decimal
octal_to_decimal-read str o = octal_from-read str 0 0 o refl
