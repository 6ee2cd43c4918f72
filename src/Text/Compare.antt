-- ===== src/Text/Compare.antt =====
-- The comparisons of kernel/lib/string.c decide equality.
use pastoral.Base.{
  ℕ, zero, suc, ◌+◌, ◌<◌, ◌≤◌, ◌≡◌, ◌≢◌, ◌↔◌, inl, inr, refl, List, [], ◌∷◌, ◌==◌, arith, pos,
  get_or, Bool-cases, take, subst,
}
use pastoral.Text.{char_diff, strcmp, strncmp, memcmp, memcmp_from}

-- Bytes of a string that has no terminator inside.
abbrev pub IsText : List ℕ → Type 0
IsText [] = Unit
IsText (c ∷ s) = (0 < c) × (c < 256) × IsText s

char_diff-eq-zero : (a b : ℕ) → a < 256 → b < 256 → char_diff a b ≡ pos 0 → a ≡ b
unfolding char_diff
char_diff-eq-zero a b ha hb h = ground arith

char_diff-nul : (a : ℕ) → 0 < a → a < 256 → char_diff 0 a ≢ pos 0
char_diff-nul a lo hi e = omega (arith, char_diff-eq-zero 0 a (omega arith) hi e)

char_diff-nul_right : (a : ℕ) → 0 < a → a < 256 → char_diff a 0 ≢ pos 0
char_diff-nul_right a lo hi e = omega (arith, char_diff-eq-zero a 0 hi (omega arith) e)

eq_of_strcmp : (s t : List ℕ) → IsText s → IsText t → strcmp s t ≡ pos 0 → s ≡ t
unfolding strcmp
eq_of_strcmp [] [] hs ht h = refl
eq_of_strcmp [] (d ∷ t) hs ht h = absurd (ground (arith, char_diff-nul d))
eq_of_strcmp (c ∷ s) [] hs ht h = absurd (ground (arith, char_diff-nul_right c))
eq_of_strcmp (c ∷ s) (d ∷ t) hs ht h =
    ground (arith, char_diff-eq-zero c d, eq_of_strcmp s t hs.2 ht.2)

strcmp_self : (s : List ℕ) → strcmp s s ≡ pos 0
unfolding strcmp
strcmp_self [] = refl
strcmp_self (c ∷ s) = ground (arith, strcmp_self s)

-- `strcmp` of two strings is 0 exactly when they are the same string.
pub strcmp-eq-zero : (s t : List ℕ) → IsText s → IsText t → (strcmp s t ≡ pos 0) ↔ (s ≡ t)
strcmp-eq-zero s t hs ht =
    (eq_of_strcmp s t hs ht, λ e. subst (λ x. strcmp s x ≡ pos 0) e (strcmp_self s))

eq_of_strncmp :
    (s t : List ℕ) (n : ℕ) → IsText s → IsText t → strncmp s t n ≡ pos 0 → take n s ≡ take n t
unfolding strncmp
eq_of_strncmp s t zero hs ht h = refl
eq_of_strncmp [] [] (suc n) hs ht h = refl
eq_of_strncmp [] (d ∷ t) (suc n) hs ht h = absurd (ground (arith, char_diff-nul d))
eq_of_strncmp (c ∷ s) [] (suc n) hs ht h = absurd (ground (arith, char_diff-nul_right c))
eq_of_strncmp (c ∷ s) (d ∷ t) (suc n) hs ht h =
    ground (arith, char_diff-eq-zero c d, eq_of_strncmp s t n hs.2 ht.2)

strncmp_of_eq : (s t : List ℕ) (n : ℕ) → take n s ≡ take n t → strncmp s t n ≡ pos 0
unfolding strncmp
strncmp_of_eq s t zero e = refl
strncmp_of_eq [] [] (suc n) e = refl
strncmp_of_eq [] (d ∷ t) (suc n) e = absurd (cc)
strncmp_of_eq (c ∷ s) [] (suc n) e = absurd (cc)
strncmp_of_eq (c ∷ s) (d ∷ t) (suc n) e = ground (arith, strncmp_of_eq s t n)

-- `strncmp` of two strings is 0 exactly when they agree in their first `n` bytes, a shorter string
-- counting as whole.
pub strncmp-eq-zero :
    (s t : List ℕ) (n : ℕ) → IsText s → IsText t → (strncmp s t n ≡ pos 0) ↔ (take n s ≡ take n t)
strncmp-eq-zero s t n hs ht = (eq_of_strncmp s t n hs ht, strncmp_of_eq s t n)

abbrev pub IsBytes : List ℕ → Type 0
IsBytes [] = Unit
IsBytes (c ∷ s) = (c < 256) × IsBytes s

get_or-lt_byte : (s : List ℕ) (i : ℕ) → IsBytes s → get_or s i 0 < 256
get_or-lt_byte [] i h = omega arith
get_or-lt_byte (c ∷ s) zero h = h.0
get_or-lt_byte (c ∷ s) (suc i) h = get_or-lt_byte s i h.1

memcmp_from-eq :
    (n i : ℕ) (s t : List ℕ)
    → IsBytes s
    → IsBytes t
    → memcmp_from n i s t ≡ pos 0
    → (j : ℕ) → i ≤ j
    → j < i + n
    → get_or s j 0 ≡ get_or t j 0
unfolding memcmp_from
memcmp_from-eq zero i s t hs ht h j lo hi = absurd (omega arith)
memcmp_from-eq (suc n) i s t hs ht h j lo hi = elim (Bool-cases (get_or s i 0 == get_or t i 0)) [
  | inl e ↦ elim (Bool-cases (j == i)) [
    | inl p ↦ ground arith
    | inr p ↦ memcmp_from-eq n (i + 1) s t hs ht (rw e at h) j (ground arith) (omega arith)
  ]
  | inr ne ↦ absurd (
      ground (
        arith,
        char_diff-eq-zero (get_or s i 0) (get_or t i 0),
        get_or-lt_byte s i hs,
        get_or-lt_byte t i ht,
      ))
]

memcmp_from_of_eq :
    (n i : ℕ) (s t : List ℕ)
    → ((j : ℕ) → i ≤ j → j < i + n → get_or s j 0 ≡ get_or t j 0)
    → memcmp_from n i s t ≡ pos 0
unfolding memcmp_from
memcmp_from_of_eq zero i s t h = refl
memcmp_from_of_eq (suc n) i s t h =
    ground
      (arith, h i, memcmp_from_of_eq n (i + 1) s t (λ j lo hi. h j (omega arith) (omega arith)))

-- `memcmp` is 0 exactly when the first `n` bytes agree one by one.
pub memcmp-eq-zero :
    (s t : List ℕ) (n : ℕ)
    → IsBytes s
    → IsBytes t
    → (memcmp s t n ≡ pos 0) ↔ ((j : ℕ) → j < n → get_or s j 0 ≡ get_or t j 0)
unfolding memcmp
memcmp-eq-zero s t n hs ht = (
  λ h j hi. memcmp_from-eq n 0 s t hs ht h j (omega arith) (omega arith),
  λ h. memcmp_from_of_eq n 0 s t (λ j lo hi. h j (omega arith)),
)
