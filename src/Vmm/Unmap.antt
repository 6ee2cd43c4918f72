-- ===== src/Vmm/Unmap.antt =====
-- `unmap_page` with four levels takes away the entry of one page.
use pastoral.Base.{
  ℕ, zero, suc, ◌+◌, ◌*◌, ◌/◌, ◌%◌, ◌^◌, ◌≤◌, ◌≡◌, ◌≢◌, refl, sym, ap, ◌∙◌, true, false, some,
  if◌then◌else◌, ◌==◌, arith, bit, Bool-cases, inl, inr, ==_iff, subst, subst₂, ap₂,
}
use pastoral.Pmm.Frames.{AreModules}
use pastoral.Vmm.{Ram, has, address, store, pml4_unmap_page, PageTable, unmap_page}
use pastoral.Vmm.View.{index, view, walk, view-suc, view-absent}
use pastoral.Vmm.Places.{Labels, IsPlaced, place, view-written_ne}
use pastoral.Vmm.Descend.{Reaches}
use pastoral.Vmm.Leaf.{store-IsPlaced, view-store_eq}
use pastoral.Vmm.Map.{
  IsSpace, top_level, mmu_entry, mmu_entry-view, page_number, indices-three, place-three,
}
use pastoral.Vmm.Levels.{Reaches-same}

walk-same :
    (k : ℕ) (words : ℕ → ℕ) (p v w : ℕ)
    → ((j : ℕ) → j ≤ k → index j w ≡ index j v)
    → walk k words p w ≡ walk k words p v
unfolding walk
walk-same zero words p v w eq = rw (eq 0 (omega arith)) refl
walk-same (suc zero) words p v w eq =
    rw
      (
        eq 1 (omega arith),
        walk-same zero words (address (words (p + 8 * index 1 v))) v w (λ j le. eq j (omega arith)),
      )
      refl
walk-same (suc (suc k)) words p v w eq =
    rw
      (
        eq (suc (suc k)) (omega arith),
        walk-same (suc k) words (address (words (p + 8 * index (suc (suc k)) v))) v w
            (λ j le. eq j (omega arith)),
      )
      refl

view-same :
    (k : ℕ) (words : ℕ → ℕ) (p v w : ℕ)
    → ((j : ℕ) → j ≤ k → index j w ≡ index j v)
    → view k words p w ≡ view k words p v
unfolding view
view-same k words p v w eq = rw (walk-same k words p v w eq) refl

-- What the theorem says of the memory afterwards.
abbrev Unmapped : ℕ → ℕ → Ram → ℕ × Ram → Type 0
Unmapped p v r result =
    result.0 ≢ 0x200000
    → (labels : Labels) → IsPlaced labels 3 p r
    → IsPlaced labels 3 p result.1
      × (result.1.modules ≡ r.modules)
      × ((w : ℕ)
          → view 3 result.1.words p w
            ≡ (if w / 0x1000 % 2 ^ 36 == v / 0x1000 % 2 ^ 36 then 0 else view 3 r.words p w))

module _ (p v : ℕ) (r : Ram) where
  Unmapped-absent : view 3 r.words p v ≡ 0 → Unmapped p v r (0, r)
  Unmapped-absent z ne labels t = (
    t,
    refl,
    λ w. elim (Bool-cases (w / 0x1000 % 2 ^ 36 == v / 0x1000 % 2 ^ 36)) [
      | inl here ↦
          view-same 3 r.words p v w (indices-three v w ((==_iff _ _).0 here)) ∙ z ∙ rw here refl
      | inr there ↦ rw there refl
    ],
  )

  Unmapped-leaf :
      (u : ℕ)
      → Reaches 3 r.words p v u
      → ((labels : Labels) → IsPlaced labels 3 p r → labels u ≡ some (0, place 3 1 v / 0x200))
      → Unmapped p v r (0x1000, store (u + 8 * index 0 v) (r.words (u + 8 * index 0 v) / 2 * 2) r)
  unfolding bit
  Unmapped-leaf u re at ne labels t =
      let e : ℕ = r.words (u + 8 * index 0 v) / 2 * 2 in
      let last : labels u ≡ some (0, place 3 1 v / 0x200) = at labels t in
      (
        store-IsPlaced t u (place 3 1 v / 0x200) (index 0 v) last (omega arith) e,
        refl,
        λ w. elim (Bool-cases (w / 0x1000 % 2 ^ 36 == v / 0x1000 % 2 ^ 36)) [
          | inl here ↦
              view-store_eq t u (place 3 1 v / 0x200) (index 0 v) last (omega arith) e 3 p 1 w t.top
                (Reaches-same 3 r.words p v w u (indices-three v w ((==_iff _ _).0 here)) re)
                (indices-three v w ((==_iff _ _).0 here) 0 (omega arith))
              ∙ ground arith
          | inr there ↦
              view-written_ne t v e u (place 3 1 v / 0x200) last 3 p 1 w t.top
                (λ same. ground (arith, place-three v, place-three w))
              ∙ rw there refl
        ],
      )

  abbrev a4 : ℕ
  a4 = p + 8 * index 3 v

  abbrev a3 : ℕ
  a3 = address (r.words a4) + 8 * index 2 v

  abbrev a2 : ℕ
  a2 = address (r.words a3) + 8 * index 1 v

  last_place :
      has (r.words a4) 0 ≡ true
      → has (r.words a3) 0 ≡ true
      → has (r.words a2) 7 ≡ false
      → has (r.words a2) 0 ≡ true
      → (labels : Labels) → IsPlaced labels 3 p r
      → labels (address (r.words a2)) ≡ some (0, place 3 1 v / 0x200)
  last_place on4 on3 small on2 labels t =
      let one : labels (address (r.words a4)) ≡ some (2, 1 * 0x200 + index 3 v) =
        t.child p 2 1 (index 3 v) t.top (omega arith) on4 (λ z. absurd (omega arith)) in
      let two : labels (address (r.words a3))
          ≡ some (1, (1 * 0x200 + index 3 v) * 0x200 + index 2 v) =
        t.child (address (r.words a4)) 1 (1 * 0x200 + index 3 v) (index 2 v) one (omega arith) on3
          (λ z. absurd (omega arith)) in
      t.child (address (r.words a3)) 0 ((1 * 0x200 + index 3 v) * 0x200 + index 2 v) (index 1 v) two
        (omega arith) on2 (λ z. small)
      ∙ ap (λ (q : ℕ). some (0, q)) (omega arith)

  with_result :
      (result : ℕ × Ram)
      → pml4_unmap_page p v r ≡ result
      → Unmapped p v r result
      → Unmapped p v r (pml4_unmap_page p v r)
  with_result result e done = subst (λ x. Unmapped p v r x) (sym e) done

  pml4_unmap_page-Unmapped : Unmapped p v r (pml4_unmap_page p v r)
  unfolding pml4_unmap_page
  pml4_unmap_page-Unmapped = elim (Bool-cases (has (r.words a4) 0)) [
    | inr off4 ↦
        with_result (0, r) (rw (pml4_unmap_page, off4) refl)
          (Unmapped-absent (view-absent 2 r.words p v off4))
    | inl on4 ↦
        let first : view 3 r.words p v ≡ view 2 r.words (address (r.words a4)) v =
          view-suc 2 r.words p v on4 (λ z. absurd (omega arith)) in
        elim (Bool-cases (has (r.words a3) 0)) [
          | inr off3 ↦
              with_result (0, r) (rw (pml4_unmap_page, on4, off3) refl)
                (Unmapped-absent (first ∙ view-absent 1 r.words (address (r.words a4)) v off3))
          | inl on3 ↦
              let second : view 2 r.words (address (r.words a4)) v
                  ≡ view 1 r.words (address (r.words a3)) v =
                view-suc 1 r.words (address (r.words a4)) v on3 (λ z. absurd (omega arith)) in
              elim (Bool-cases (has (r.words a2) 7)) [
                | inl large ↦
                    with_result (0x200000, store a2 (r.words a2 / 2 * 2) r)
                      (rw (pml4_unmap_page, on4, on3, large) refl) (λ ne. absurd (ne refl))
                | inr small ↦ elim (Bool-cases (has (r.words a2) 0)) [
                  | inr off2 ↦
                      with_result (0, r) (rw (pml4_unmap_page, on4, on3, small, off2) refl)
                        (Unmapped-absent
                          (first ∙ second ∙ view-absent 0 r.words (address (r.words a3)) v off2))
                  | inl on2 ↦
                      with_result
                        (
                          0x1000,
                          store (address (r.words a2) + 8 * index 0 v)
                              (r.words (address (r.words a2) + 8 * index 0 v) / 2 * 2) r,
                        )
                        (rw (pml4_unmap_page, on4, on3, small, on2) refl)
                        (Unmapped-leaf (address (r.words a2))
                          (
                            on4,
                            λ z. absurd (omega arith),
                            (on3, λ z. absurd (omega arith), (on2, λ z. small, refl)),
                          )
                          (last_place on4 on3 small on2))
                ]
              ]
        ]
  ]

four_entry :
    (t : PageTable) (r : Ram) (v w : ℕ)
    → t.five_levels ≡ false
    → (if w / 0x1000 % 2 ^ 36 == v / 0x1000 % 2 ^ 36 then 0 else view 3 r.words t.pml_high w)
      ≡ (if page_number t w == page_number t v then 0 else mmu_entry t r w)
four_entry t r v w four = rw (mmu_entry-view t r w, four) refl

-- With four levels, `unmap_page` of an address takes away the entry of its page, if there is one, and
-- no other; the tables stay a tree of taken pages. This holds unless it returns 0x200000, where the
-- address lay in a large page.
pub unmap_page-refines :
    (t : PageTable) (r : Ram) (vaddr : ℕ)
    → t.five_levels ≡ false
    → IsSpace t r
    → (unmap_page t vaddr r).0 ≢ 0x200000
    → IsSpace t (unmap_page t vaddr r).1
      × ((w : ℕ)
          → mmu_entry t (unmap_page t vaddr r).1 w
            ≡ (if page_number t w == page_number t vaddr then 0 else mmu_entry t r w))
unfolding unmap_page
unmap_page-refines t r vaddr four (labels, tree, ms) ne =
    let result : unmap_page t vaddr r ≡ pml4_unmap_page t.pml_high vaddr r = rw four refl in
    let levels : top_level t ≡ 3 = rw four refl in
    let (tree', same, views) =
      pml4_unmap_page-Unmapped t.pml_high vaddr r (λ e. ne (ap (λ x. x.0) result ∙ e)) labels
        (subst (λ (n : ℕ). IsPlaced labels n t.pml_high r) levels tree) in
    (
      (
        labels,
        subst₂ (λ (n : ℕ) x. IsPlaced labels n t.pml_high x.1) (sym levels) (sym result) tree',
        subst AreModules (sym same ∙ sym (ap (λ x. x.1.modules) result)) ms,
      ),
      λ w.
          mmu_entry-view t (unmap_page t vaddr r).1 w
          ∙ ap₂ (λ (n : ℕ) x. view n x.1.words t.pml_high w) levels result
          ∙ views w
          ∙ four_entry t r vaddr w four,
    )
