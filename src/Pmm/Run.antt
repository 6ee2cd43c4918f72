-- ===== src/Pmm/Run.antt =====
-- The loops over a run of pages: the test, the marking, the next free page, the release.
use pastoral.Base.{
  ℕ, zero, suc, ◌+◌, ◌-◌, ◌*◌, ◌/◌, ◌≤◌, ◌<◌, ◌≡◌, ◌≢◌, refl, ◌⊎◌, inl, inr, Bool, ◌&&◌, Option,
  some, List, length, ltb, leb, ◌==◌, if◌then◌else◌, arith, lt→ltb, Bool-cases, ◌∙◌, ap, subst,
}
use pastoral.Bitmap.{get_bit, put_bit, drop_bit, bit_test, bit_set, bit_clear}
use pastoral.Bitmap.Bytes.{
  get_bit-lt_two, get_bit-put_bit, get_bit-drop_bit, length-put_bit, length-drop_bit,
}
use pastoral.Pmm.{Found, busy, whole, try_run, set_run, next_free, clear_run}

-- The pages of `[i, i + n)` are free.
abbrev pub Free : List ℕ → ℕ → ℕ → Type 0
Free bits i n = (x : ℕ) → i ≤ x → x < i + n → get_bit bits x ≡ 0

-- `x` is one of the `n` pages from `i` on.
abbrev pub inside : ℕ → ℕ → ℕ → Bool
inside i n x = leb i x && ltb x (i + n)

try_run-busy :
    (n j count cnt : ℕ) (bits : List ℕ)
    → j / 8 < length bits
    → get_bit bits j ≡ 1
    → try_run (suc n) j count cnt bits ≡ some busy
unfolding try_run bit_test
try_run-busy n j count cnt bits h e = rw (lt→ltb _ _ h, e) refl

try_run-last :
    (n j count : ℕ) (bits : List ℕ)
    → j / 8 < length bits
    → get_bit bits j ≡ 0
    → try_run (suc n) j count (count + 1) bits ≡ some (whole j)
unfolding try_run bit_test
try_run-last n j count bits h e = ground (arith, e)

try_run-next :
    (n j count cnt : ℕ) (bits : List ℕ)
    → j / 8 < length bits
    → get_bit bits j ≡ 0
    → count + 1 ≢ cnt
    → try_run (suc n) j count cnt bits ≡ try_run n (j + 1) (count + 1) cnt bits
unfolding try_run bit_test
try_run-next n j count cnt bits h e ne = ground (arith, e)

-- The test of a run of `n` pages inside the bitmap finds it free, or meets a page in use.
try_run-Free :
    (n j count : ℕ) (bits : List ℕ)
    → 1 ≤ n
    → j + n ≤ 8 * length bits
    → ((try_run n j count (count + n) bits ≡ some (whole (j + n - 1))) × Free bits j n)
      ⊎ ((try_run n j count (count + n) bits ≡ some busy)
          × ((x : ℕ) × (j ≤ x) × (x < j + n) × (get_bit bits x ≡ 1)))
try_run-Free zero j count bits h room = absurd (omega arith)
try_run-Free (suc n) j count bits h room = elim (Bool-cases (get_bit bits j == 0)) [
  | inr e ↦
      let one : get_bit bits j ≡ 1 = ground (arith, get_bit-lt_two bits j) in
      inr (
        try_run-busy n j count (count + suc n) bits (omega arith) one,
        (j, omega arith, omega arith, one),
      )
  | inl e ↦
      let clear : get_bit bits j ≡ 0 = ground arith in
      elim (Bool-cases (n == 0)) [
        | inl z ↦
            let q : n ≡ 0 = ground arith in
            inl (
              rw q (
                  try_run-last 0 j count bits (omega arith) clear
                  ∙ ap (λ t. some (whole t)) (omega arith)),
              λ x lo hi. (let same : x ≡ j = omega arith in rw same clear),
            )
        | inr z ↦
            let step : try_run (suc n) j count (count + suc n) bits
                ≡ try_run n (j + 1) (count + 1) (count + suc n) bits =
              try_run-next n j count (count + suc n) bits (omega arith) clear (ground arith) in
            elim (try_run-Free n (j + 1) (count + 1) bits (ground arith) (omega arith)) [
              | inl (r, f) ↦ inl (
                step ∙ recount (λ t. t ≡ some (whole (j + suc n - 1))) (rw last r),
                λ x lo hi. first x clear f lo hi,
              )
              | inr (r, (x, lo, hi, u)) ↦
                  inr (step ∙ recount (λ t. t ≡ some busy) r, (x, omega arith, omega arith, u))
            ]
      ]
]
  where
    last : j + suc n - 1 ≡ j + 1 + n - 1
    last = omega arith

    recount :
        (P : Option Found → Type 0)
        → P (try_run n (j + 1) (count + 1) (count + 1 + n) bits)
        → P (try_run n (j + 1) (count + 1) (count + suc n) bits)
    recount P p =
        let shift : count + 1 + n ≡ count + suc n = omega arith in
        subst (λ (c : ℕ). P (try_run n (j + 1) (count + 1) c bits)) shift p

    first :
        (x : ℕ)
        → get_bit bits j ≡ 0
        → Free bits (j + 1) n
        → j ≤ x
        → x < j + suc n
        → get_bit bits x ≡ 0
    first x clear f lo hi = elim (Bool-cases (x == j)) [
      | inl p ↦ let same : x ≡ j = ground arith in rw same clear
      | inr p ↦ f x (ground arith) (omega arith)
    ]

-- The same from a count of 0.
pub try_run-start :
    (n j : ℕ) (bits : List ℕ)
    → 1 ≤ n
    → j + n ≤ 8 * length bits
    → ((try_run n j 0 n bits ≡ some (whole (j + n - 1))) × Free bits j n)
      ⊎ (try_run n j 0 n bits ≡ some busy)
try_run-start n j bits h room =
    let none_yet : 0 + n ≡ n = omega arith in
    elim (try_run-Free n j 0 bits h room) [
      | inl (r, f) ↦
          inl (subst (λ (c : ℕ). try_run n j 0 c bits ≡ some (whole (j + n - 1))) none_yet r, f)
      | inr (r, u) ↦ inr (subst (λ (c : ℕ). try_run n j 0 c bits ≡ some busy) none_yet r)
    ]

bit_set-eq : (bits : List ℕ) (i : ℕ) → i / 8 < length bits → bit_set bits i ≡ some (put_bit bits i)
unfolding bit_set
bit_set-eq bits i h = rw (lt→ltb _ _ h) refl

bit_clear-eq :
    (bits : List ℕ) (i : ℕ) → i / 8 < length bits → bit_clear bits i ≡ some (drop_bit bits i)
unfolding bit_clear
bit_clear-eq bits i h = rw (lt→ltb _ _ h) refl

-- Marking a run sets its bits and keeps the others.
pub set_run-bits :
    (n i : ℕ) (bits : List ℕ)
    → i + n ≤ 8 * length bits
    → (b : List ℕ) × (set_run n i bits ≡ some b)
      × (length b ≡ length bits)
      × ((x : ℕ) → get_bit b x ≡ (if inside i n x then 1 else get_bit bits x))
unfolding set_run
set_run-bits zero i bits h = (bits, refl, refl, λ x. ground arith)
set_run-bits (suc n) i bits h =
    let len : length (put_bit bits i) ≡ length bits = length-put_bit bits i in
    let (b, r, l, f) = set_run-bits n (i + 1) (put_bit bits i) (omega (arith, len)) in
    (
      b,
      rw (bit_set-eq bits i (omega arith)) r,
      l ∙ len,
      λ x. f x ∙ ground (arith, get_bit-put_bit bits i x (omega arith)),
    )

-- Releasing a run clears its bits and keeps the others.
pub clear_run-bits :
    (n i : ℕ) (bits : List ℕ)
    → i + n ≤ 8 * length bits
    → (b : List ℕ) × (clear_run n i bits ≡ some b)
      × (length b ≡ length bits)
      × ((x : ℕ) → get_bit b x ≡ (if inside i n x then 0 else get_bit bits x))
unfolding clear_run
clear_run-bits zero i bits h = (bits, refl, refl, λ x. ground arith)
clear_run-bits (suc n) i bits h =
    let len : length (drop_bit bits i) ≡ length bits = length-drop_bit bits i in
    let (b, r, l, f) = clear_run-bits n (i + 1) (drop_bit bits i) (omega (arith, len)) in
    (
      b,
      rw (bit_clear-eq bits i (omega arith)) r,
      l ∙ len,
      λ x. f x ∙ ground (arith, get_bit-drop_bit bits i x (omega arith)),
    )

next_free-hit :
    (n z : ℕ) (bits : List ℕ)
    → z / 8 < length bits
    → get_bit bits z ≡ 0
    → next_free (suc n) z bits ≡ some z
unfolding next_free bit_test
next_free-hit n z bits h e = rw (lt→ltb _ _ h, e) refl

next_free-miss :
    (n z : ℕ) (bits : List ℕ)
    → z / 8 < length bits
    → get_bit bits z ≡ 1
    → next_free (suc n) z bits ≡ next_free n (z + 1) bits
unfolding next_free bit_test
next_free-miss n z bits h e = rw (lt→ltb _ _ h, e) refl

-- The page that is remembered lies before the end of the range.
pub next_free-lt :
    (n z : ℕ) (bits : List ℕ)
    → z + n ≤ 8 * length bits
    → (k : ℕ) × (next_free n z bits ≡ some k) × (k ≤ z + n)
next_free-lt zero z bits h = (0, unfold next_free in refl, omega arith)
next_free-lt (suc n) z bits h = elim (Bool-cases (get_bit bits z == 0)) [
  | inl e ↦ (z, next_free-hit n z bits (omega arith) (ground arith), omega arith)
  | inr e ↦
      let one : get_bit bits z ≡ 1 = ground (arith, get_bit-lt_two bits z) in
      let (k, r, le) = next_free-lt n (z + 1) bits (omega arith) in
      (k, next_free-miss n z bits (omega arith) one ∙ r, omega arith)
]
