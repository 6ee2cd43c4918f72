-- ===== src/Vmm/Places.antt =====
-- The tables of an address space form a tree: each has a level and the number of its place in it.
use pastoral.Base.{
  ℕ, zero, suc, ◌+◌, ◌*◌, ◌%◌, ◌<◌, ◌≡◌, ◌≢◌, refl, sym, ap, ◌∙◌, true, false, Option, some, arith,
}
use pastoral.Pmm.Frames.{FreePage}
use pastoral.Vmm.{Ram, has, address, update}
use pastoral.Vmm.View.{index, view, view-zero, view-cong}

-- The level of a table and its place: 1 for the top, and `512 * q + i` behind entry `i` of place `q`.
abbrev pub Labels : Type 0
Labels = ℕ → Option (ℕ × ℕ)

pub record IsPlaced (labels : Labels) (n root : ℕ) (r : Ram) : Type 0 where
  pub top : labels root ≡ some (n, 1)
  pub aligned : (p k q : ℕ) → labels p ≡ some (k, q) → p % 0x1000 ≡ 0
  pub held : (p k q : ℕ) → labels p ≡ some (k, q) → FreePage r.modules p → ⊥
  pub child :
      (p k q i : ℕ)
      → labels p ≡ some (suc k, q)
      → i < 0x200
      → has (r.words (p + 8 * i)) 0 ≡ true
      → (k ≡ 0 → has (r.words (p + 8 * i)) 7 ≡ false)
      → labels (address (r.words (p + 8 * i))) ≡ some (k, q * 0x200 + i)

-- The place of the page of `vaddr`, seen from place `q` of level `k`.
abbrev pub place : ℕ → ℕ → ℕ → ℕ
place zero q vaddr = q * 0x200 + index 0 vaddr
place (suc k) q vaddr = place k (q * 0x200 + index (suc k) vaddr) vaddr

pub update-ne : (a v x : ℕ) (words : ℕ → ℕ) → x ≢ a → update a v words x ≡ words x
update-ne a v x words h = ground arith

pub update-eq : (a v : ℕ) (words : ℕ → ℕ) → update a v words a ≡ v
update-eq a v words = ground arith

both :
    (k q k' q' : ℕ) → ◌≡◌ {A = Option (ℕ × ℕ)} (some (k, q)) (some (k', q')) → (k ≡ k') × (q ≡ q')
both k q k' q' e = (ground arith, ground arith)

module _ {labels : Labels} {n root : ℕ} {r : Ram} (t : IsPlaced labels n root r) where
  -- An entry lies in one table only.
  pub slot_unique :
      (p p' k q k' q' i i' : ℕ)
      → labels p ≡ some (k, q)
      → labels p' ≡ some (k', q')
      → i < 0x200
      → i' < 0x200
      → p + 8 * i ≡ p' + 8 * i'
      → (k ≡ k') × (q ≡ q') × (i ≡ i')
  slot_unique p p' k q k' q' i i' e e' h h' same =
      let same_table : p ≡ p' = omega (arith, t.aligned p k q e, t.aligned p' k' q' e') in
      let (levels, places) = both k q k' q' (sym e ∙ ap labels same_table ∙ e') in
      (levels, places, omega arith)

  module _ (u entry pu qu : ℕ) (last : labels pu ≡ some (0, qu)) where
    abbrev written : ℕ → ℕ
    written = update (pu + 8 * index 0 u) entry r.words

    -- Storing an entry of a last table changes the view of no other page.
    pub view-written_ne :
        (k p q v : ℕ)
        → labels p ≡ some (k, q)
        → place k q v ≢ place 0 qu u
        → view k written p v ≡ view k r.words p v
    view-written_ne zero p q v e ne =
        let apart : p + 8 * index 0 v ≢ pu + 8 * index 0 u = λ same.
          let (_, qs, ix) =
            slot_unique p pu 0 q 0 qu (index 0 v) (index 0 u) e last (omega arith) (omega arith)
              same in
          ne (omega arith) in
        rw (view-zero written p v, view-zero r.words p v, update-ne _ entry _ r.words apart) refl
    view-written_ne (suc k) p q v e ne =
        let a : ℕ = p + 8 * index (suc k) v in
        let apart : a ≢ pu + 8 * index 0 u = λ same.
          let (levels, _, _) =
            slot_unique p pu (suc k) q 0 qu (index (suc k) v) (index 0 u) e last (omega arith)
              (omega arith) same in
          absurd (omega arith) in
        let kept : written a ≡ r.words a = update-ne _ entry _ r.words apart in
        view-cong r.words written p v k kept (λ on small.
          view-written_ne k (address (r.words a)) (q * 0x200 + index (suc k) v) v
            (t.child p k q (index (suc k) v) e (omega arith) on small) ne)
