-- ===== src/Bitmap/Alloc.antt =====
-- `bitmap_alloc` and `bitmap_free` against the set of the indices in use.
use pastoral.Base.{
  ℕ, suc, ◌+◌, ◌-◌, ◌*◌, ◌/◌, ◌%◌, ◌<◌, ◌≤◌, ◌≡◌, ◌≢◌, refl, inl, inr, ◌⊎◌, List, length, ◌==◌,
  none, some, true, false, if◌then◌else◌, arith, lt→ltb, replicate, length-append, length-replicate,
  get_or-append_replicate, ap, get_or-ge, bit, bit-zero, subst, subst₂, ◌∙◌,
}
use pastoral.Bitmap.{
  Bitmap, get_bit, put_bit, drop_bit, scan, resize, grow, alloc, alloc_calls, free,
}
use pastoral.Bitmap.Bytes.{get_bit-put_bit, get_bit-drop_bit, length-put_bit, length-drop_bit}
use pastoral.Bitmap.Scan.{Used, Scanned, scan-Scanned}

-- `size` counts the bytes of `data`, as the loop and the growth of `bitmap_alloc` take it.
pub record IsValid (b : Bitmap) : Type 0 where
  pub bytes : length b.data_bytes ≡ b.size

abbrev pub used : Bitmap → ℕ → ℕ
used b i = get_bit b.data_bytes i

-- `i` was the lowest free index of `b`, and `b'` differs from `b` in that `i` is in use.
pub record Allocated (b : Bitmap) (i : ℕ) (b' : Bitmap) : Type 0 where
  pub was_free : used b i ≡ 0
  pub lowest : Used b.data_bytes 0 i
  pub now_used : (j : ℕ) → used b' j ≡ (if j == i then 1 else used b j)
  pub valid : IsValid b'
  pub in_range : i < b'.size * 8
  pub kind : b'.resizable ≡ b.resizable

pub get_bit-resize : (a : List ℕ) (n j : ℕ) → get_bit (resize a n) j ≡ get_bit a j
unfolding get_bit resize
get_bit-resize a n j = ap (λ x. bit x (j % 8)) (get_or-append_replicate a (n - length a) (j / 8) 0)

length-resize : (a : List ℕ) (n : ℕ) → length a ≤ n → length (resize a n) ≡ n
unfolding resize
length-resize a n h = omega (
  arith,
  length-append {0} a (replicate (n - length a) 0),
  length-replicate {0} {A = ℕ} (n - length a) 0,
)

pub get_bit-ge : (a : List ℕ) (j : ℕ) → 8 * length a ≤ j → get_bit a j ≡ 0
unfolding get_bit
get_bit-ge a j h = rw (get_or-ge a (j / 8) 0 (omega arith)) (bit-zero (j % 8))

put-Allocated :
    (b : Bitmap) (k : ℕ)
    → IsValid b
    → k < b.size * 8
    → used b k ≡ 0
    → Used b.data_bytes 0 k
    → Allocated b k (record b { data_bytes = put_bit b.data_bytes k })
put-Allocated b k v h free u = record {
  was_free = free;
  lowest = u;
  now_used = λ j. get_bit-put_bit b.data_bytes k j (omega (arith, v.bytes));
  valid = record { bytes = omega (arith, length-put_bit b.data_bytes k, v.bytes) };
  in_range = h;
  kind = refl;
}

grow-IsValid : (b : Bitmap) → IsValid b → IsValid (grow b)
unfolding grow
grow-IsValid b v = record {
  bytes = length-resize b.data_bytes (b.size + 0x200) (omega (arith, v.bytes));
}

used-grow : (b : Bitmap) (j : ℕ) → used (grow b) j ≡ used b j
unfolding grow
used-grow b j = get_bit-resize b.data_bytes (b.size + 0x200) j

Allocated-grow : (b : Bitmap) (i : ℕ) (b' : Bitmap) → Allocated (grow b) i b' → Allocated b i b'
Allocated-grow b i b' a = record {
  was_free = omega (arith, used-grow b i, a.was_free);
  lowest = λ j lo hi. omega (arith, used-grow b j, a.lowest j lo hi);
  now_used = λ j. ground (arith, used-grow b j, a.now_used j);
  valid = a.valid;
  in_range = a.in_range;
  kind = kind_grow;
}
  where
    kind_grow : b'.resizable ≡ b.resizable
    kind_grow = unfold grow in a.kind

alloc_calls-hit :
    (c : ℕ) (b : Bitmap) (k : ℕ) (a : List ℕ)
    → scan (b.size * 8) 0 b.data_bytes ≡ some (some k, a)
    → alloc_calls (suc c) b ≡ some (some k, record b { data_bytes = a })
unfolding alloc_calls
alloc_calls-hit c b k a e = rw e

alloc_calls-grow :
    (c : ℕ) (b : Bitmap)
    → scan (b.size * 8) 0 b.data_bytes ≡ some (none, b.data_bytes)
    → b.resizable ≡ true
    → alloc_calls (suc c) b ≡ alloc_calls c (grow b)
unfolding alloc_calls
alloc_calls-grow c b e r = simp (e, r)

alloc_calls-full :
    (c : ℕ) (b : Bitmap)
    → scan (b.size * 8) 0 b.data_bytes ≡ some (none, b.data_bytes)
    → b.resizable ≡ false
    → alloc_calls (suc c) b ≡ some (none, b)
unfolding alloc_calls
alloc_calls-full c b e r = ground (arith, e)

abbrev Taken : ℕ → Bitmap → Type 0
Taken c b = (i : ℕ) × (b' : Bitmap) × (alloc_calls (suc c) b ≡ some (some i, b')) × Allocated b i b'

scan_all : (b : Bitmap) → IsValid b → Scanned (b.size * 8) 0 b.data_bytes
scan_all b v = scan-Scanned (b.size * 8) 0 b.data_bytes (omega (arith, v.bytes))

alloc_calls-free :
    (c : ℕ) (b : Bitmap) (i : ℕ) → IsValid b → i < b.size * 8 → used b i ≡ 0 → Taken c b
alloc_calls-free c b i v h free = elim (scan_all b v) [
  | inl (k, r, lo, hi, clear, u) ↦ (
    k,
    record b { data_bytes = put_bit b.data_bytes k },
    alloc_calls-hit c b k (put_bit b.data_bytes k) r,
    put-Allocated b k v (omega arith) clear u,
  )
  | inr (r, u) ↦ absurd (omega (arith, u i (omega arith) (omega arith)))
]

-- On a valid map that may grow, `bitmap_alloc` returns the lowest index that is not in use, marks
-- that index and no other, and leaves a valid map; two calls of it are enough.
pub alloc-Allocated :
    (b : Bitmap)
    → IsValid b
    → b.resizable ≡ true
    → (i : ℕ) × (b' : Bitmap) × (alloc b ≡ some (some i, b')) × Allocated b i b'
unfolding alloc
alloc-Allocated b v res = elim (scan_all b v) [
  | inl (k, r, lo, hi, clear, u) ↦ (
    k,
    record b { data_bytes = put_bit b.data_bytes k },
    alloc_calls-hit 1 b k (put_bit b.data_bytes k) r,
    put-Allocated b k v (omega arith) clear u,
  )
  | inr (r, u) ↦
      let (i, b', e, a) = alloc_calls-free 0 (grow b) (b.size * 8) (grow-IsValid b v) grown_size (
        rw (used-grow b (b.size * 8))
          (get_bit-ge b.data_bytes (b.size * 8) (omega (arith, v.bytes)))) in
      (i, b', rw (alloc_calls-grow 1 b r res) e, Allocated-grow b i b' a)
]
  where
    grown_size : b.size * 8 < (grow b).size * 8
    grown_size = unfold grow in omega arith

-- On a valid map that may not grow, `bitmap_alloc` returns the lowest free index, or -1 with the map
-- unchanged, and -1 only if every index of the map is in use.
pub alloc-full :
    (b : Bitmap)
    → IsValid b
    → b.resizable ≡ false
    → ((i : ℕ) × (b' : Bitmap) × (alloc b ≡ some (some i, b')) × Allocated b i b')
      ⊎ ((alloc b ≡ some (none, b)) × Used b.data_bytes 0 (b.size * 8))
unfolding alloc
alloc-full b v fixed = elim (scan_all b v) [
  | inl (k, r, lo, hi, clear, u) ↦ inl (
    k,
    record b { data_bytes = put_bit b.data_bytes k },
    alloc_calls-hit 1 b k (put_bit b.data_bytes k) r,
    put-Allocated b k v (omega arith) clear u,
  )
  | inr (r, u) ↦ inr (alloc_calls-full 1 b r fixed, λ j lo hi. u j lo (omega arith))
]

-- `bitmap_free` of an index up to `size`.
pub free-drop :
    (b : Bitmap) (i : ℕ)
    → IsValid b
    → i ≤ b.size
    → i / 8 < b.size
    → free b i ≡ some (record b { data_bytes = drop_bit b.data_bytes i })
unfolding free
free-drop b i v le h = ground (arith, v.bytes)

pub drop-IsValid :
    (b : Bitmap) (i : ℕ) → IsValid b → IsValid (record b { data_bytes = drop_bit b.data_bytes i })
drop-IsValid b i v = record { bytes = omega (arith, length-drop_bit b.data_bytes i, v.bytes) }

-- An index that is at most `size`, with every lower index in use, is the one that `bitmap_alloc`
-- returns after `bitmap_free` of it: freed indices are used again.
pub free-alloc :
    (b : Bitmap) (i : ℕ)
    → IsValid b
    → b.resizable ≡ true
    → i ≤ b.size
    → i / 8 < b.size
    → Used b.data_bytes 0 i
    → (b₁ b₂ : Bitmap) × (free b i ≡ some b₁) × (alloc b₁ ≡ some (some i, b₂)) × IsValid b₂
free-alloc b i v res le h u =
    let b₁ : Bitmap = record b { data_bytes = drop_bit b.data_bytes i } in
    let (k, b₂, e, a) = alloc-Allocated b₁ (drop-IsValid b i v) res in
    let dropped : used b₁ k ≡ (if k == i then 0 else used b k) =
      get_bit-drop_bit b.data_bytes i k (omega (arith, v.bytes)) in
    let dropped_i : used b₁ i ≡ (if i == i then 0 else used b i) =
      get_bit-drop_bit b.data_bytes i i (omega (arith, v.bytes)) in
    let same : k ≡ i = ground (arith, a.was_free, a.lowest i, u k, dropped, dropped_i) in
    (b₁, b₂, free-drop b i v le h, subst (λ (t : ℕ). alloc b₁ ≡ some (some t, b₂)) same e, a.valid)

-- An index above `size` that `bitmap_alloc` has handed out stays in use for ever: `bitmap_free`
-- compares it with the number of bytes and ignores it, and no later `bitmap_alloc` returns it.
pub free-leaks :
    (b b₁ b₂ : Bitmap) (i j : ℕ)
    → IsValid b
    → b.resizable ≡ true
    → alloc b ≡ some (some i, b₁)
    → b₁.size < i
    → (free b₁ i ≡ some b₁) × (used b₁ i ≡ 1) × (alloc b₁ ≡ some (some j, b₂) → j ≢ i)
free-leaks b b₁ b₂ i j v res e above =
    let (k, c, e', a) = alloc-Allocated b v res in
    let same_k : k ≡ i = cc in
    let same_c : c ≡ b₁ = cc in
    let a' : Allocated b i b₁ = subst₂ (λ x y. Allocated b x y) same_k same_c a in
    let taken : used b₁ i ≡ 1 = ground (arith, a'.now_used i) in (ignored, taken, next a' taken)
  where
    ignored : free b₁ i ≡ some b₁
    ignored = unfold free in rw (lt→ltb _ _ above)

    next : Allocated b i b₁ → used b₁ i ≡ 1 → alloc b₁ ≡ some (some j, b₂) → j ≢ i
    next a' taken f same =
        let (k, c, e', x) = alloc-Allocated b₁ a'.valid (a'.kind ∙ res) in
        let k_is_j : k ≡ j = cc in
        omega (arith, x.was_free, ap (λ (t : ℕ). used b₁ t) (k_is_j ∙ same))
