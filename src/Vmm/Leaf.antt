-- ===== src/Vmm/Leaf.antt =====
-- Storing an entry of a last table.
use pastoral.Base.{ℕ, zero, suc, ◌+◌, ◌*◌, ◌<◌, ◌≡◌, sym, ap, ◌∙◌, some, arith, subst}
use pastoral.Vmm.{Ram, address, update, store}
use pastoral.Vmm.View.{index, present, view}
use pastoral.Vmm.Places.{Labels, IsPlaced, slot_unique, update-ne, update-eq}
use pastoral.Vmm.Descend.{Reaches, view-Reaches}

module _ {labels : Labels} {n root : ℕ} {r : Ram} (t : IsPlaced labels n root r) (pu qu i : ℕ)
    (last : labels pu ≡ some (0, qu)) (lt : i < 0x200) (entry : ℕ) where
  -- The entries of the tables above stay.
  pub upper-kept :
      (p k q j : ℕ)
      → labels p ≡ some (suc k, q)
      → j < 0x200
      → update (pu + 8 * i) entry r.words (p + 8 * j) ≡ r.words (p + 8 * j)
  upper-kept p k q j at b = update-ne (pu + 8 * i) entry (p + 8 * j) r.words (λ same.
      let (levels, _, _) = slot_unique t p pu (suc k) q 0 qu j i at last b lt same in
      absurd (omega arith))

  pub store-IsPlaced : IsPlaced labels n root (store (pu + 8 * i) entry r)
  store-IsPlaced = record {
    top = t.top;
    aligned = t.aligned;
    held = t.held;
    child = λ p k q j at b on small.
        let kept : update (pu + 8 * i) entry r.words (p + 8 * j) ≡ r.words (p + 8 * j) =
          upper-kept p k q j at b in
        ap (λ a. labels (address a)) kept
        ∙ t.child p k q j at b (rw (← kept) on) (λ z. rw (← kept) (small z));
  }

  pub Reaches-store :
      (k p q v u : ℕ)
      → labels p ≡ some (k, q)
      → Reaches k r.words p v u
      → Reaches k (update (pu + 8 * i) entry r.words) p v u
  Reaches-store zero p q v u at e = e
  Reaches-store (suc k) p q v u at (on, small, below) =
      let w : ℕ → ℕ = update (pu + 8 * i) entry r.words in
      let kept : w (p + 8 * index (suc k) v) ≡ r.words (p + 8 * index (suc k) v) =
        upper-kept p k q (index (suc k) v) at (omega arith) in
      (
        rw kept on,
        λ z. rw kept (small z),
        subst (λ (a : ℕ). Reaches k w (address a) v u) (sym kept)
            (Reaches-store k (address (r.words (p + 8 * index (suc k) v)))
              (q * 0x200 + index (suc k) v) v u
              (t.child p k q (index (suc k) v) at (omega arith) on small) below),
      )

  -- The page of the entry now has it.
  pub view-store_eq :
      (k p q v : ℕ)
      → labels p ≡ some (k, q)
      → Reaches k r.words p v pu
      → index 0 v ≡ i
      → view k (update (pu + 8 * i) entry r.words) p v ≡ present entry
  view-store_eq k p q v at re e =
      view-Reaches k (update (pu + 8 * i) entry r.words) p v pu (Reaches-store k p q v pu at re)
      ∙ ap present (
          ap (λ (j : ℕ). update (pu + 8 * i) entry r.words (pu + 8 * j)) e
          ∙ update-eq (pu + 8 * i) entry r.words)
