-- ===== src/Pmm/Frames.antt =====
-- `pmm_alloc(1, 1)` over all modules: what the page tables rely on.
use pastoral.Base.{
  ℕ, ◌+◌, ◌*◌, ◌%◌, ◌^◌, ◌≤◌, ◌<◌, ◌≡◌, ◌≢◌, refl, sym, ◌∙◌, ◌⊎◌, inl, inr, none, some, List, [],
  ◌∷◌, arith, subst₂,
}
use pastoral.Bitmap.{get_bit}
use pastoral.Pmm.{PmmModule, page_size, pmm_alloc}
use pastoral.Pmm.Alloc.{IsModule, Taken, pmm_module_alloc-Allocated}

-- `x` is the address of a free page of `m`.
abbrev pub IsFree : PmmModule → ℕ → Type 0
IsFree m x =
    (k : ℕ) × (k < m.bitmap_entry_cnt) × (x ≡ m.base + k * page_size) × (get_bit m.bits k ≡ 0)

abbrev pub FreePage : List PmmModule → ℕ → Type 0
FreePage [] x = ⊥
FreePage (m ∷ ms) x = IsFree m x ⊎ FreePage ms x

-- `m` ends where each of the modules begins, or below.
abbrev pub Apart : PmmModule → List PmmModule → Type 0
Apart m [] = Unit {0}
Apart m (n ∷ ms) = (m.base + m.bitmap_entry_cnt * page_size ≤ n.base) × Apart m ms

-- Modules in order that do not overlap.
abbrev pub AreModules : List PmmModule → Type 0
AreModules [] = Unit {0}
AreModules (m ∷ ms) = IsModule 2 m × Apart m ms × AreModules ms

FreePage-ge :
    (m : PmmModule) (ms : List PmmModule) (x : ℕ)
    → Apart m ms
    → FreePage ms x
    → m.base + m.bitmap_entry_cnt * page_size ≤ x
FreePage-ge m [] x a f = absurd f
FreePage-ge m (n ∷ ms) x (le, a) (inl (k, lt, at, clear)) = omega arith
FreePage-ge m (n ∷ ms) x (le, a) (inr f) = FreePage-ge m ms x a f

-- How `pmm_alloc(1, 1)` can end: page `p` was free, and is the only one that no longer is.
pub record Handed (ms : List PmmModule) (p : ℕ) (ms' : List PmmModule) : Type 0 where
  pub was_free : FreePage ms p
  pub page : p % page_size ≡ 0
  pub word : p + page_size < 2 ^ 64
  pub shrinks : (x : ℕ) → FreePage ms' x → FreePage ms x × (x ≢ p)
  pub still : AreModules ms'
  pub placed : (n : PmmModule) → Apart n ms → Apart n ms'

-- One module: `Taken` of a single page.
Taken-Handed :
    (k : ℕ) (m m' : PmmModule) (ms : List PmmModule)
    → AreModules (m ∷ ms)
    → Taken k 1 m m'
    → Handed (m ∷ ms) (m.base + k * page_size) (m' ∷ ms)
Taken-Handed k m m' ms (v, a, vs) t = record {
  was_free = inl (k, omega (arith, t.in_range), refl, t.were_free k (omega arith) (omega arith));
  page = omega (arith, v.aligned);
  word = omega (arith, v.fits, t.in_range);
  shrinks = shrinks;
  still = (
    record {
      covered = t.covered;
      fits = omega (arith, v.fits, t.same_base, t.same_size);
      hint = t.hint;
      aligned = omega (arith, v.aligned, t.same_base);
    },
    apart ms a,
    vs,
  );
  placed = λ n (le, b). (omega (arith, t.same_base), b);
}
  where
    apart : (ns : List PmmModule) → Apart m ns → Apart m' ns
    apart [] b = tt
    apart (n ∷ ns) (le, b) = (omega (arith, t.same_base, t.same_size), apart ns b)

    shrinks : (x : ℕ) → FreePage (m' ∷ ms) x → FreePage (m ∷ ms) x × (x ≢ m.base + k * page_size)
    shrinks x (inr f) = (inr f, λ e. absurd (omega (arith, FreePage-ge m ms x a f, t.in_range)))
    shrinks x (inl (j, lt, at, clear)) = (
      inl (j, omega (arith, t.same_size), omega (arith, t.same_base), ground (arith, t.now j)),
      λ e. let same : j ≡ k = omega (arith, t.same_base) in ground (arith, t.now j, same),
    )

Handed-later :
    (m : PmmModule) (ms ms' : List PmmModule) (p : ℕ)
    → AreModules (m ∷ ms)
    → Handed ms p ms'
    → Handed (m ∷ ms) p (m ∷ ms')
Handed-later m ms ms' p (v, a, vs) h = record {
  was_free = inr h.was_free;
  page = h.page;
  word = h.word;
  shrinks = shrinks;
  still = (v, h.placed m a, h.still);
  placed = λ n (le, b). (le, h.placed n b);
}
  where
    shrinks : (x : ℕ) → FreePage (m ∷ ms') x → FreePage (m ∷ ms) x × (x ≢ p)
    shrinks x (inl (j, lt, at, clear)) =
        (inl (j, lt, at, clear), λ e. absurd (omega (arith, FreePage-ge m ms p a h.was_free)))
    shrinks x (inr f) = let (g, ne) = h.shrinks x f in (inr g, ne)

pub pmm_alloc-Handed :
    (ms : List PmmModule)
    → AreModules ms
    → ((p : ℕ) × (ms' : List PmmModule) × (pmm_alloc 1 1 ms ≡ some (some p, ms')) × Handed ms p ms')
      ⊎ (pmm_alloc 1 1 ms ≡ some (none, ms))
unfolding pmm_alloc
pmm_alloc-Handed [] v = inr refl
pmm_alloc-Handed (m ∷ ms) (v, a, vs) =
    elim (pmm_module_alloc-Allocated 1 1 m v (omega arith) (omega arith)) [
      | inl (k, q, m', e, mult, t) ↦
          inl (m.base + k * page_size, m' ∷ ms, rw e refl, Taken-Handed k m m' ms (v, a, vs) t)
      | inr e ↦ elim (pmm_alloc-Handed ms vs) [
        | inl (p, ms', later, h) ↦
            inl (p, m ∷ ms', rw (e, later) refl, Handed-later m ms ms' p (v, a, vs) h)
        | inr later ↦ inr (rw (e, later) refl)
      ]
    ]

pub pmm_alloc-some-Handed :
    (ms ms' : List PmmModule) (p : ℕ)
    → AreModules ms
    → pmm_alloc 1 1 ms ≡ some (some p, ms')
    → Handed ms p ms'
pmm_alloc-some-Handed ms ms' p v e = elim (pmm_alloc-Handed ms v) [
  | inr full ↦ absurd (ground (arith, sym full ∙ e))
  | inl (f, rest, got, h) ↦
      let page : f ≡ p = ground (arith, sym got ∙ e) in
      let same : rest ≡ ms' = ground (arith, sym got ∙ e) in
      subst₂ (λ (a : ℕ) b. Handed ms a b) page same h
]
