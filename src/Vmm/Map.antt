-- ===== src/Vmm/Map.antt =====
-- `map_page` changes the entry of one page.
use pastoral.Base.{
  ℕ, zero, suc, ◌+◌, ◌*◌, ◌/◌, ◌%◌, ◌^◌, ◌≤◌, ◌≡◌, ◌≢◌, refl, sym, ◌∙◌, ◌⊎◌, true, false, some,
  if◌then◌else◌, ◌==◌, arith, bit_or, Bool-cases, Option-cases, bit-zero, inl, inr, bit-bit_or,
  bit-lt_two, ==_iff,
}
use pastoral.Pmm.Frames.{AreModules}
use pastoral.Vmm.{
  Ram, has, store, pml4_map_page, pml5_map_page, map_at_pml2, PageTable, map_page, lowest_level,
  flag_rw,
}
use pastoral.Vmm.View.{
  index, present, view, walk, entry_at, pml4_lowest_level-walk, pml5_lowest_level-walk,
}
use pastoral.Vmm.Places.{Labels, IsPlaced, place, update-eq}
use pastoral.Vmm.Grow.{AreFlags}
use pastoral.Vmm.Descend.{Spare, Flat}
use pastoral.Vmm.Leaf.{store-IsPlaced}
use pastoral.Vmm.Levels.{descend, descend-Reaches, written-refines}

-- The number of the level at the top.
abbrev pub top_level : PageTable → ℕ
top_level t = if t.five_levels then 4 else 3

-- The number of a page in the address space: 36 digits of it, or 45.
abbrev pub page_number : PageTable → ℕ → ℕ
page_number t vaddr = vaddr / 0x1000 % (if t.five_levels then 2 ^ 45 else 2 ^ 36)

-- What the processor finds for an address: the entry, or 0 where none is present.
abbrev pub mmu_entry : PageTable → Ram → ℕ → ℕ
unfolding lowest_level
mmu_entry t r vaddr = entry_at r.words (lowest_level t vaddr r)

-- The tables are a tree of pages that the allocator counts as taken.
abbrev pub IsSpace : PageTable → Ram → Type 0
IsSpace t r = (labels : Labels) × IsPlaced labels (top_level t) t.pml_high r × AreModules r.modules

pml4_map_page-descend :
    (p v paddr flags : ℕ) (r r' : Ram) (u : ℕ)
    → has flags 7 ≡ false
    → descend 3 flag_rw flags p v r ≡ some (u, r')
    → pml4_map_page p v paddr flags r
      ≡ some (some (u + 8 * index 0 v), store (u + 8 * index 0 v) (bit_or paddr flags) r')
unfolding descend pml4_map_page map_at_pml2
pml4_map_page-descend p v paddr flags r r' u small e = ground arith

pml5_map_page-descend :
    (p v paddr flags : ℕ) (r r' : Ram) (u : ℕ)
    → has flags 7 ≡ false
    → descend 4 0 flags p v r ≡ some (u, r')
    → pml5_map_page p v paddr flags r
      ≡ some (some (u + 8 * index 0 v), store (u + 8 * index 0 v) (bit_or paddr flags) r')
unfolding descend pml5_map_page map_at_pml2
pml5_map_page-descend p v paddr flags r r' u small e = ground arith

pub place-three : (v : ℕ) → place 3 1 v ≡ 2 ^ 36 + v / 0x1000 % 2 ^ 36
place-three v = omega arith

place-four : (v : ℕ) → place 4 1 v ≡ 2 ^ 45 + v / 0x1000 % 2 ^ 45
place-four v = omega arith

pub indices-three :
    (v w : ℕ) → w / 0x1000 % 2 ^ 36 ≡ v / 0x1000 % 2 ^ 36 → (j : ℕ) → j ≤ 3 → index j w ≡ index j v
indices-three v w e zero le = omega arith
indices-three v w e (suc zero) le = omega arith
indices-three v w e (suc (suc zero)) le = omega arith
indices-three v w e (suc (suc (suc zero))) le = omega arith
indices-three v w e (suc (suc (suc (suc j)))) le = absurd (omega arith)

indices-four :
    (v w : ℕ) → w / 0x1000 % 2 ^ 45 ≡ v / 0x1000 % 2 ^ 45 → (j : ℕ) → j ≤ 4 → index j w ≡ index j v
indices-four v w e zero le = omega arith
indices-four v w e (suc zero) le = omega arith
indices-four v w e (suc (suc zero)) le = omega arith
indices-four v w e (suc (suc (suc zero))) le = omega arith
indices-four v w e (suc (suc (suc (suc zero)))) le = omega arith
indices-four v w e (suc (suc (suc (suc (suc j))))) le = absurd (omega arith)

present-mapped :
    (paddr flags : ℕ) → has flags 0 ≡ true → present (bit_or paddr flags) ≡ bit_or paddr flags
present-mapped paddr flags on = ground (arith, bit-bit_or 0 paddr flags, bit-lt_two 0 paddr)

pub mmu_entry-view :
    (t : PageTable) (r : Ram) (v : ℕ) → mmu_entry t r v ≡ view (top_level t) r.words t.pml_high v
unfolding lowest_level view
mmu_entry-view t r v = elim (Bool-cases t.five_levels) [
  | inl five ↦ rw (five, pml5_lowest_level-walk t.pml_high v r) refl
  | inr four ↦ rw (four, pml4_lowest_level-walk t.pml_high v r) refl
]

lowest_level-walk :
    (t : PageTable) (r : Ram) (v : ℕ) → lowest_level t v r ≡ walk (top_level t) r.words t.pml_high v
unfolding lowest_level
lowest_level-walk t r v = elim (Bool-cases t.five_levels) [
  | inl five ↦ rw (five, pml5_lowest_level-walk t.pml_high v r) refl
  | inr four ↦ rw (four, pml4_lowest_level-walk t.pml_high v r) refl
]

present-found : (x e : ℕ) → has e 0 ≡ true → present x ≡ e → x ≡ e
present-found x e on at = elim (Bool-cases (has x 0)) [
  | inl set ↦ ground (arith, rw set at at)
  | inr clear ↦
      let z : 0 ≡ e = rw clear at at in absurd (ground (arith, rw (← z) at on, bit-zero 0))
]

-- The place of an entry that the processor finds.
pub mmu_entry-found :
    (t : PageTable) (r : Ram) (v e : ℕ)
    → has e 0 ≡ true
    → mmu_entry t r v ≡ e
    → (a : ℕ) × (lowest_level t v r ≡ some a) × (r.words a ≡ e)
unfolding view
mmu_entry-found t r v e on at =
    let seen : entry_at r.words (walk (top_level t) r.words t.pml_high v) ≡ e =
      sym (mmu_entry-view t r v) ∙ at in
    elim (Option-cases (walk (top_level t) r.words t.pml_high v)) [
      | inl nothing ↦
          let z : 0 ≡ e = rw nothing at seen in absurd (ground (arith, rw (← z) at on, bit-zero 0))
      | inr (a, there) ↦
          (a, lowest_level-walk t r v ∙ there, present-found (r.words a) e on (rw there at seen))
    ]

-- The digits that one level of `map_page` adds to an entry.
abbrev extra_flags : PageTable → ℕ
extra_flags t = if t.five_levels then 0 else flag_rw

extra_flags-small : (t : PageTable) → (extra_flags t ≡ 0) ⊎ (extra_flags t ≡ 2)
extra_flags-small t = elim (Bool-cases t.five_levels) [
  | inl e ↦ inl (rw e refl)
  | inr e ↦ inr (rw e refl)
]

map_page-descend :
    (t : PageTable) (v paddr flags u : ℕ) (r r' : Ram)
    → has flags 7 ≡ false
    → descend (top_level t) (extra_flags t) flags t.pml_high v r ≡ some (u, r')
    → map_page t v paddr flags r
      ≡ some (some (u + 8 * index 0 v), store (u + 8 * index 0 v) (bit_or paddr flags) r')
unfolding map_page
map_page-descend t v paddr flags u r r' small e = elim (Bool-cases t.five_levels) [
  | inl five ↦ rw five (pml5_map_page-descend t.pml_high v paddr flags r r' u small (rw five at e))
  | inr four ↦ rw four (pml4_map_page-descend t.pml_high v paddr flags r r' u small (rw four at e))
]

same_page :
    (t : PageTable) (v w : ℕ)
    → page_number t w ≡ page_number t v
    → (j : ℕ) → j ≤ top_level t
    → index j w ≡ index j v
same_page t v w e = elim (Bool-cases t.five_levels) [
  | inl five ↦ rw five (indices-four v w (rw five at e))
  | inr four ↦ rw four (indices-three v w (rw four at e))
]

other_page :
    (t : PageTable) (v w : ℕ)
    → page_number t w ≢ page_number t v
    → place (top_level t) 1 w ≢ place (top_level t) 1 v
other_page t v w ne same = elim (Bool-cases t.five_levels) [
  | inl five ↦
      let at : place 4 1 w ≡ place 4 1 v = rw five at same in
      ne (rw five (omega (arith, place-four v, place-four w)))
  | inr four ↦
      let at : place 3 1 w ≡ place 3 1 v = rw four at same in
      ne (rw four (omega (arith, place-three v, place-three w)))
]

-- Mapping a page of 4 KiB, where its tables are there or the allocator has a page for each level, no
-- large page lies in its way, and the flags are flags with VMM_FLAGS_P: `map_page` returns a pointer
-- to an entry that holds the address and the flags, and for the processor the address space is the
-- old one with the entry of this one page replaced; its tables are again a tree of taken pages.
pub map_page-refines :
    (t : PageTable) (r : Ram) (vaddr paddr flags : ℕ)
    → IsSpace t r
    → Spare (top_level t) r.modules
    → Flat (top_level t) r.words t.pml_high vaddr
    → AreFlags flags
    → has flags 0 ≡ true
    → has flags 7 ≡ false
    → (a : ℕ) × (r' : Ram) × (map_page t vaddr paddr flags r ≡ some (some a, r'))
      × (r'.words a ≡ bit_or paddr flags)
      × IsSpace t r'
      × ((w : ℕ)
          → mmu_entry t r' w ≡ (
              if page_number t w == page_number t vaddr
              then bit_or paddr flags
              else mmu_entry t r w))
unfolding map_page
map_page-refines t r vaddr paddr flags (labels, tree, ms) s flat fl on small =
    let (u, qu, labels', r', e, x, last, same, re) =
      descend-Reaches (top_level t) t.pml_high (extra_flags t) flags (extra_flags-small t) fl on
        (top_level t) labels r t.pml_high 1 vaddr tree ms s tree.top flat in
    let entry : ℕ = bit_or paddr flags in
    let done : Ram = store (u + 8 * index 0 vaddr) entry r' in
    (
      u + 8 * index 0 vaddr,
      done,
      map_page-descend t vaddr paddr flags u r r' small e,
      update-eq (u + 8 * index 0 vaddr) entry r'.words,
      (labels', store-IsPlaced x.tree u qu (index 0 vaddr) last (omega arith) entry, x.allocator),
      λ w.
          let (eq, ne) =
            written-refines (top_level t) t.pml_high labels labels' r r' u qu vaddr entry tree x
              last same re w in
          elim (Bool-cases (page_number t w == page_number t vaddr)) [
            | inl here ↦
                mmu_entry-view t done w
                ∙ eq (same_page t vaddr w ((==_iff _ _).0 here))
                ∙ present-mapped paddr flags on
                ∙ rw here refl
            | inr there ↦
                mmu_entry-view t done w
                ∙ ne (other_page t vaddr w (λ e. ground (arith, e)))
                ∙ sym (mmu_entry-view t r w)
                ∙ rw there refl
          ],
    )
