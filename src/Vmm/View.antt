-- ===== src/Vmm/View.antt =====
-- What a walk through the tables finds: the entry that the processor uses for an address.
use pastoral.Base.{
  ℕ, zero, suc, ◌+◌, ◌*◌, ◌/◌, ◌%◌, ◌^◌, ◌<◌, ◌≡◌, refl, true, false, Option, none, some,
  if◌then◌else◌, arith, bit, Bool-cases, inl, inr, sym, ap, ◌∙◌, bit-zero,
}
use pastoral.Vmm.{Ram, has, address, pml4_lowest_level, pml5_lowest_level}

-- The index into the table of level `k`; level 0 is pml1.
abbrev pub index : ℕ → ℕ → ℕ
index k vaddr = vaddr / 2 ^ (12 + 9 * k) % 0x200

-- An entry that is not present is none for the processor.
abbrev pub present : ℕ → ℕ
present entry = if has entry 0 then entry else 0

-- The walk from table `p` of level `k`.
unfoldable pub walk : ℕ → (ℕ → ℕ) → ℕ → ℕ → Option ℕ
walk zero words p vaddr = some (p + 8 * index 0 vaddr)
walk (suc zero) words p vaddr =
    let entry = p + 8 * index 1 vaddr in
    let below = walk zero words (address (words entry)) vaddr in
    if has (words entry) 7 then some entry else if has (words entry) 0 then below else none
walk (suc (suc k)) words p vaddr =
    let entry = p + 8 * index (suc (suc k)) vaddr in
    let below = walk (suc k) words (address (words entry)) vaddr in
    if has (words entry) 0 then below else none

-- What the walk finds.
abbrev pub entry_at : (ℕ → ℕ) → Option ℕ → ℕ
entry_at words none = 0
entry_at words (some a) = present (words a)

unfoldable pub view : ℕ → (ℕ → ℕ) → ℕ → ℕ → ℕ
view k words p vaddr = entry_at words (walk k words p vaddr)

pub pml4_lowest_level-walk :
    (p vaddr : ℕ) (r : Ram) → pml4_lowest_level p vaddr r ≡ walk 3 r.words p vaddr
unfolding pml4_lowest_level walk
pml4_lowest_level-walk p vaddr r = ground arith

pub pml5_lowest_level-walk :
    (p vaddr : ℕ) (r : Ram) → pml5_lowest_level p vaddr r ≡ walk 4 r.words p vaddr
unfolding pml5_lowest_level walk
pml5_lowest_level-walk p vaddr r = ground arith

-- One level of the view.
pub view-zero :
    (words : ℕ → ℕ) (p vaddr : ℕ)
    → view zero words p vaddr ≡ present (words (p + 8 * index 0 vaddr))
unfolding view walk
view-zero words p vaddr = refl

-- The level below an entry, if the entry is present and no large page.
pub view-suc :
    (k : ℕ) (words : ℕ → ℕ) (p vaddr : ℕ)
    → has (words (p + 8 * index (suc k) vaddr)) 0 ≡ true
    → (k ≡ 0 → has (words (p + 8 * index (suc k) vaddr)) 7 ≡ false)
    → view (suc k) words p vaddr
      ≡ view k words (address (words (p + 8 * index (suc k) vaddr))) vaddr
unfolding view walk
view-suc zero words p vaddr e small = rw (e, small refl) refl
view-suc (suc k) words p vaddr e small = rw e refl

pub view-absent :
    (k : ℕ) (words : ℕ → ℕ) (p vaddr : ℕ)
    → has (words (p + 8 * index (suc k) vaddr)) 0 ≡ false
    → view (suc k) words p vaddr ≡ 0
unfolding view walk
view-absent zero words p vaddr e = elim (Bool-cases (has (words (p + 8 * index 1 vaddr)) 7)) [
  | inl large ↦ rw (large, e) refl
  | inr small ↦ rw (small, e) refl
]
view-absent (suc k) words p vaddr e = rw e refl

-- A large page.
pub view-large :
    (words : ℕ → ℕ) (p vaddr : ℕ)
    → has (words (p + 8 * index 1 vaddr)) 7 ≡ true
    → view 1 words p vaddr ≡ present (words (p + 8 * index 1 vaddr))
unfolding view walk
view-large words p vaddr e = rw e refl

-- Two memories give the same view from a table if they agree on its entry, and on the view from the
-- table behind it.
module _ (w w' : ℕ → ℕ) (p v : ℕ) where
  through :
      (k : ℕ)
      → w' (p + 8 * index (suc k) v) ≡ w (p + 8 * index (suc k) v)
      → (k ≡ 0 → has (w (p + 8 * index (suc k) v)) 7 ≡ false)
      → (has (w (p + 8 * index (suc k) v)) 0 ≡ true
          → view k w' (address (w (p + 8 * index (suc k) v))) v
            ≡ view k w (address (w (p + 8 * index (suc k) v))) v)
      → view (suc k) w' p v ≡ view (suc k) w p v
  through k same small below = elim (Bool-cases (has (w (p + 8 * index (suc k) v)) 0)) [
    | inl e ↦
        view-suc k w' p v (rw same e) (λ z. rw same (small z))
        ∙ ap (λ t. view k w' (address t) v) same
        ∙ below e
        ∙ sym (view-suc k w p v e small)
    | inr e ↦ view-absent k w' p v (rw same e) ∙ sym (view-absent k w p v e)
  ]

  pub view-cong :
      (k : ℕ)
      → w' (p + 8 * index (suc k) v) ≡ w (p + 8 * index (suc k) v)
      → (has (w (p + 8 * index (suc k) v)) 0 ≡ true
          → (k ≡ 0 → has (w (p + 8 * index (suc k) v)) 7 ≡ false)
          → view k w' (address (w (p + 8 * index (suc k) v))) v
            ≡ view k w (address (w (p + 8 * index (suc k) v))) v)
      → view (suc k) w' p v ≡ view (suc k) w p v
  view-cong zero same below = elim (Bool-cases (has (w (p + 8 * index 1 v)) 7)) [
    | inl large ↦ view-large w' p v (rw same large) ∙ ap present same ∙ sym (view-large w p v large)
    | inr small ↦ through zero same (λ z. small) (λ e. below e (λ z. small))
  ]
  view-cong (suc k) same below =
      through (suc k) same (λ z. absurd (omega arith)) (λ e. below e (λ z. absurd (omega arith)))

present_zero : present 0 ≡ 0
unfolding bit
present_zero = refl

-- A table of zeros.
pub view-empty :
    (k : ℕ) (words : ℕ → ℕ) (p v : ℕ)
    → ((i : ℕ) → i < 0x200 → words (p + 8 * i) ≡ 0)
    → view k words p v ≡ 0
view-empty zero words p v z =
    view-zero words p v ∙ ap present (z (index 0 v) (omega arith)) ∙ present_zero
view-empty (suc k) words p v z =
    view-absent k words p v (rw (z (index (suc k) v) (omega arith), bit-zero 0) refl)
