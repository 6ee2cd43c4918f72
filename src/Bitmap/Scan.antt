-- ===== src/Bitmap/Scan.antt =====
-- The loop of `bitmap_alloc` finds the lowest clear bit of the range that it walks.
use pastoral.Base.{
  ℕ, zero, suc, ◌+◌, ◌*◌, ◌/◌, ◌<◌, ◌≤◌, ◌≡◌, refl, inl, inr, ◌⊎◌, List, length, ◌==◌, none, some,
  arith, Bool-cases, lt→ltb,
}
use pastoral.Bitmap.{get_bit, put_bit, scan}
use pastoral.Bitmap.Bytes.{get_bit-lt_two}

-- Every bit of `[lo, hi)` is set.
abbrev pub Used : List ℕ → ℕ → ℕ → Type 0
Used a lo hi = (j : ℕ) → lo ≤ j → j < hi → get_bit a j ≡ 1

-- How the loop can end: at the lowest clear bit, which it sets, or behind a range of set bits.
abbrev pub Scanned : ℕ → ℕ → List ℕ → Type 0
Scanned n i a =
    ((k : ℕ) × (scan n i a ≡ some (some k, put_bit a k))
      × (i ≤ k)
      × (k < i + n)
      × (get_bit a k ≡ 0)
      × Used a i k)
    ⊎ ((scan n i a ≡ some (none, a)) × Used a i (i + n))

scan-hit :
    (n i : ℕ) (a : List ℕ)
    → i / 8 < length a
    → get_bit a i ≡ 0
    → scan (suc n) i a ≡ some (some i, put_bit a i)
unfolding scan
scan-hit n i a h e = rw (lt→ltb _ _ h, e)

pub scan-miss :
    (n i : ℕ) (a : List ℕ)
    → i / 8 < length a
    → get_bit a i ≡ 1
    → scan (suc n) i a ≡ scan n (i + 1) a
unfolding scan
scan-miss n i a h e = rw (lt→ltb _ _ h, e)

Used-step : (a : List ℕ) (i k : ℕ) → get_bit a i ≡ 1 → Used a (i + 1) k → Used a i k
Used-step a i k e u j lo hi = elim (Bool-cases (j == i)) [
  | inl p ↦ let q : j ≡ i = ground arith in rw q e
  | inr p ↦ u j (ground arith) hi
]

Used-empty : (a : List ℕ) (i k : ℕ) → k ≤ i → Used a i k
Used-empty a i k h j lo hi = absurd (omega arith)

pub scan-Scanned : (n i : ℕ) (a : List ℕ) → i + n ≤ 8 * length a → Scanned n i a
scan-Scanned zero i a h = inr (scan_zero, Used-empty a i (i + 0) (omega arith))
  where
    scan_zero : scan 0 i a ≡ some (none, a)
    scan_zero = unfold scan in refl
scan-Scanned (suc n) i a h = elim (Bool-cases (get_bit a i == 0)) [
  | inl e ↦ inl (
    i,
    scan-hit n i a (omega arith) (ground arith),
    omega arith,
    omega arith,
    ground arith,
    Used-empty a i i (omega arith),
  )
  | inr e ↦
      let one : get_bit a i ≡ 1 = ground (arith, get_bit-lt_two a i) in
      let step : scan (suc n) i a ≡ scan n (i + 1) a = scan-miss n i a (omega arith) one in
      elim (scan-Scanned n (i + 1) a (omega arith)) [
        | inl (k, r, lo, hi, clear, u) ↦
            inl (k, rw step r, omega arith, omega arith, clear, Used-step a i k one u)
        | inr (r, u) ↦
            inr (rw step r, λ j lo hi. Used-step a i (i + 1 + n) one u j lo (omega arith))
      ]
]
