-- ===== src/Hash/Probe.antt =====
-- The probing loop finds the first slot that passes its test; keys are compared byte by byte.
use pastoral.Base.{
  ℕ, zero, suc, ◌+◌, ◌<◌, ◌≤◌, ◌≡◌, ◌↔◌, refl, ap, ap₂, inl, inr, List, [], ◌∷◌, true, false, Bool,
  ◌==◌, arith, none, some, Bool-cases, Option-cases, length, get_elem?, ℤ, pos, get_or,
  lt_of_get_elem?, le_of_get_elem?-none, subst, ◌∙◌,
}
use pastoral.Text.{memcmp}
use pastoral.Text.Compare.{IsBytes, memcmp-eq-zero}
use pastoral.Hash.{Slot, Table, probe, same_key, is_zero}

-- The keys of one table: `size` bytes each.
pub record IsKey (size : ℕ) (k : List ℕ) : Type 0 where
  pub bytes : IsBytes k
  pub long : length k ≡ size

eq_of_get_or :
    (s t : List ℕ)
    → length s ≡ length t
    → ((j : ℕ) → j < length t → get_or s j 0 ≡ get_or t j 0)
    → s ≡ t
eq_of_get_or [] [] e h = refl
eq_of_get_or [] (d ∷ t) e h = absurd (omega arith)
eq_of_get_or (c ∷ s) [] e h = absurd (omega arith)
eq_of_get_or (c ∷ s) (d ∷ t) e h =
    ap₂ ◌∷◌ (h 0 (omega arith)) (eq_of_get_or s t (omega arith) (λ j p. h (suc j) (omega arith)))

is_zero_iff : (z : ℤ) → (is_zero z ≡ true) ↔ (z ≡ pos 0)
unfolding is_zero
is_zero_iff z = ground arith

-- Two keys of one size compare as equal exactly when they are equal.
pub same_key_iff :
    (size : ℕ) (k key : List ℕ)
    → IsKey size k
    → IsKey size key
    → (same_key k key ≡ true) ↔ (k ≡ key)
unfolding same_key
same_key_iff size k key hk hkey = (
  λ h.
      eq_of_get_or k key (omega (arith, hk.long, hkey.long))
        (law.0 ((is_zero_iff (memcmp k key (length key))).0 h)),
  λ e. (is_zero_iff (memcmp k key (length key))).1 (law.1 (λ j p. ap (λ x. get_or x j 0) e)),
)
  where
    law :
        (memcmp k key (length key) ≡ pos 0)
        ↔ ((j : ℕ) → j < length key → get_or k j 0 ≡ get_or key j 0)
    law = memcmp-eq-zero k key (length key) hk.bytes hkey.bytes

module _ {V : Type 0} where
  -- `k` is the first index from `i` on whose slot passes the test.
  pub record First (test : Slot V → Bool) (t : Table V) (i k : ℕ) : Type 0 where
    pub lo : i ≤ k
    pub slot : Slot V
    pub here : get_elem? t k ≡ some slot
    pub passes : test slot ≡ true
    pub before : (j : ℕ) (s : Slot V) → i ≤ j → j < k → get_elem? t j ≡ some s → test s ≡ false

  pub probe-hit :
      (test : Slot V → Bool) (n i : ℕ) (t : Table V) (s : Slot V)
      → get_elem? t i ≡ some s
      → test s ≡ true
      → probe test (suc n) i t ≡ some i
  unfolding probe
  probe-hit test n i t s e h = ground arith

  pub probe-miss :
      (test : Slot V → Bool) (n i : ℕ) (t : Table V) (s : Slot V)
      → get_elem? t i ≡ some s
      → test s ≡ false
      → probe test (suc n) i t ≡ probe test n (i + 1) t
  unfolding probe
  probe-miss test n i t s e h = ground arith

  pub probe-end :
      (test : Slot V → Bool) (n i : ℕ) (t : Table V)
      → get_elem? t i ≡ none
      → probe test (suc n) i t ≡ none
  unfolding probe
  probe-end test n i t e = ground arith

  pub probe_of_First :
      (test : Slot V → Bool) (n i k : ℕ) (t : Table V)
      → First test t i k
      → k < i + n
      → probe test n i t ≡ some k
  probe_of_First test zero i k t f h = absurd (omega (arith, f.lo))
  probe_of_First test (suc n) i k t f h = elim (Bool-cases (i == k)) [
    | inl e ↦ let e' : i ≡ k = ground arith in rw e' (probe-hit test n k t f.slot f.here f.passes)
    | inr ne ↦ elim (Option-cases (get_elem? t i)) [
      | inl gone ↦
          absurd (ground (arith, le_of_get_elem?-none t i gone, lt_of_get_elem? t k f.here, f.lo))
      | inr (s, e) ↦
          let first : First test t (i + 1) k = record {
            lo = ground (arith, f.lo);
            slot = f.slot;
            here = f.here;
            passes = f.passes;
            before = λ j s lo hi. f.before j s (omega arith) hi;
          } in
          rw (probe-miss test n i t s e (f.before i s (omega arith) (ground (arith, f.lo)) e))
            (probe_of_First test n (i + 1) k t first (omega arith))
    ]
  ]

  earlier :
      (test : Slot V → Bool) (i k : ℕ) (t : Table V) (s : Slot V)
      → get_elem? t i ≡ some s
      → test s ≡ false
      → ((j : ℕ) (s : Slot V) → i + 1 ≤ j → j < k → get_elem? t j ≡ some s → test s ≡ false)
      → (j : ℕ) (s : Slot V) → i ≤ j
      → j < k
      → get_elem? t j ≡ some s
      → test s ≡ false
  earlier test i k t s e fail rest j s' lo hi e' = elim (Bool-cases (j == i)) [
    | inl same ↦ ground arith
    | inr ne ↦ rest j s' (ground arith) hi e'
  ]

  pub probe-First :
      (test : Slot V → Bool) (n i k : ℕ) (t : Table V)
      → probe test n i t ≡ some k
      → First test t i k × (k < i + n)
  probe-First test zero i k t h = absurd (unfold probe in ground arith)
  probe-First test (suc n) i k t h = elim (Option-cases (get_elem? t i)) [
    | inl gone ↦ absurd (ground (arith, probe-end test n i t gone))
    | inr (s, e) ↦ elim (Bool-cases (test s)) [
      | inl pass ↦
          let e' : i ≡ k = ground (arith, probe-hit test n i t s e pass) in
          (
            subst (λ x. First test t i x) e'
                (record {
                  lo = omega arith;
                  slot = s;
                  here = e;
                  passes = pass;
                  before = λ j s' lo hi. absurd (omega arith);
                }),
            omega arith,
          )
      | inr fail ↦
          let (f, hi) = probe-First test n (i + 1) k t (rw (probe-miss test n i t s e fail) at h) in
          (
            record {
              lo = omega (arith, f.lo);
              slot = f.slot;
              here = f.here;
              passes = f.passes;
              before = earlier test i k t s e fail f.before;
            },
            omega arith,
          )
    ]
  ]

  -- Where no slot passes, the loop runs to its end.
  pub probe-none :
      (test : Slot V → Bool) (n i : ℕ) (t : Table V)
      → ((j : ℕ) (s : Slot V) → i ≤ j → get_elem? t j ≡ some s → test s ≡ false)
      → probe test n i t ≡ none
  probe-none test zero i t h = unfold probe in refl
  probe-none test (suc n) i t h = elim (Option-cases (get_elem? t i)) [
    | inl gone ↦ probe-end test n i t gone
    | inr (s, e) ↦
        probe-miss test n i t s e (h i s (omega arith) e)
        ∙ probe-none test n (i + 1) t (λ j s lo. h j s (omega arith))
  ]
