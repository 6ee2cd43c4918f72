-- ===== src/Pmm/Release.antt =====
-- `pmm_module_free` and `pmm_free`.
use pastoral.Base.{
  ℕ, zero, suc, ◌+◌, ◌-◌, ◌*◌, ◌/◌, ◌%◌, ◌^◌, ◌≤◌, ◌<◌, ◌≡◌, refl, inl, inr, true, none, some, List,
  ◌∷◌, length, if◌then◌else◌, arith, ◌∙◌, subst,
}
use pastoral.Bitmap.{get_bit, bit_clear}
use pastoral.Pmm.{
  PmmModule, page_size, add, clear_run, pmm_module_alloc, pmm_module_free, pmm_free, owns,
}
use pastoral.Pmm.Run.{inside, clear_run-bits}
use pastoral.Pmm.Alloc.{IsModule, Taken, pmm_module_alloc-Allocated}

pmm_module_free-bits :
    (m : PmmModule) (k cnt : ℕ)
    → k + cnt ≤ m.bitmap_entry_cnt
    → m.bitmap_entry_cnt ≤ 8 * length m.bits
    → (k + cnt) * page_size < 2 ^ 63
    → (m' : PmmModule) × (pmm_module_free m (k * page_size) cnt ≡ some m')
      × ((x : ℕ) → get_bit m'.bits x ≡ (if inside k cnt x then 0 else get_bit m.bits x))
      × (m'.base ≡ m.base)
      × (m'.bitmap_entry_cnt ≡ m.bitmap_entry_cnt)
unfolding pmm_module_free
pmm_module_free-bits m k cnt room covered small =
    let (b, r, l, f) = clear_run-bits cnt k m.bits (omega arith) in
    let first : (add (k * page_size) (page_size - 1)) / page_size ≡ k = omega arith in
    let rounds : add k cnt - k ≡ cnt = omega arith in
    (record m { bits = b }, rw (first, rounds, r) refl, f, refl, refl)

-- `pmm_module_free` of what `pmm_module_alloc` returned gives every page the state that it had
-- before.
pub pmm_module_alloc-free :
    (cnt align base : ℕ) (m m₁ : PmmModule)
    → IsModule (align + cnt) m
    → m.bitmap_entry_cnt * page_size < 2 ^ 63
    → 1 ≤ cnt
    → 1 ≤ align
    → pmm_module_alloc m cnt align ≡ some (some base, m₁)
    → (m₂ : PmmModule) × (pmm_module_free m₁ (base - m.base) cnt ≡ some m₂)
      × ((x : ℕ) → get_bit m₂.bits x ≡ get_bit m.bits x)
pmm_module_alloc-free cnt align base m m₁ v small h k e =
    elim (pmm_module_alloc-Allocated cnt align m v h k) [
      | inr r ↦ absurd (ground (arith, e, r))
      | inl (p, q, m', r, multiple, t) ↦
          let same_m : m' ≡ m₁ = ground (arith, e, r) in
          let same_base : m.base + p * page_size ≡ base = ground (arith, e, r) in
          let offset : p * page_size ≡ base - m.base = omega arith in
          let t' : Taken p cnt m m₁ = subst (λ x. Taken p cnt m x) same_m t in
          let (m₂, f, bits, _, _) =
            pmm_module_free-bits m₁ p cnt (omega (arith, t'.in_range, t'.same_size)) t'.covered
              (omega (arith, t'.in_range)) in
          (
            m₂,
            subst (λ (o : ℕ). pmm_module_free m₁ o cnt ≡ some m₂) offset f,
            λ x. bits x ∙ ground (arith, t'.now x, t'.were_free x),
          )
    ]

clear_run-outside :
    (n i : ℕ) (bits : List ℕ) → 1 ≤ n → 8 * length bits ≤ i → clear_run n i bits ≡ none
unfolding clear_run bit_clear
clear_run-outside zero i bits h out = absurd (omega arith)
clear_run-outside (suc n) i bits h out = ground arith

owns-all :
    (m : PmmModule) (base cnt : ℕ)
    → m.base ≤ base
    → cnt ≤ m.bitmap_entry_cnt
    → m.base + m.bitmap_entry_cnt * page_size < 2 ^ 64
    → owns m base cnt ≡ true
unfolding owns
owns-all m base cnt lo le fits =
    let small : (cnt * page_size) % 2 ^ 64 ≡ cnt * page_size = omega arith in
    let large : (m.bitmap_entry_cnt * page_size) % 2 ^ 64 ≡ m.bitmap_entry_cnt * page_size =
      omega arith in
    ground (arith, small, large)

-- `pmm_free` compares the start of the module and not the address with the end of the module: pages
-- that lie behind the first module, no more of them than it has, are released in its bitmap, which
-- writes outside of it.
pub pmm_free-outside :
    (m : PmmModule) (ms : List PmmModule) (k cnt : ℕ)
    → 1 ≤ cnt
    → cnt ≤ m.bitmap_entry_cnt
    → m.base + (k + cnt) * page_size < 2 ^ 64
    → m.bitmap_entry_cnt ≤ k
    → 8 * length m.bits ≤ k
    → pmm_free (m.base + k * page_size) cnt (m ∷ ms) ≡ none
unfolding pmm_free
pmm_free-outside m ms k cnt h le fits behind out =
    rw (owns-all m (m.base + k * page_size) cnt (omega arith) le (omega arith), faults) refl
  where
    faults : pmm_module_free m (m.base + k * page_size - m.base) cnt ≡ none
    faults =
        let back : m.base + k * page_size - m.base ≡ k * page_size = omega arith in
        let first : (add (k * page_size) (page_size - 1)) / page_size ≡ k = omega arith in
        let rounds : add k cnt - k ≡ cnt = omega arith in
        rw back
          (unfold pmm_module_free in rw (first, rounds, clear_run-outside cnt k m.bits h out) refl)
