-- ===== src/Vmm/Grow.antt =====
-- A new table behind an entry that was not present.
use pastoral.Base.{
  ℕ, zero, suc, ◌+◌, ◌*◌, ◌/◌, ◌%◌, ◌^◌, ◌<◌, ◌≡◌, ◌≢◌, refl, sym, ap, ◌∙◌, ◌⊎◌, true, false, some,
  List, if◌then◌else◌, ◌==◌, ltb, arith, bit, bit_or, bit_and, bit-bit_or, bit-bit_and,
  bit_or-shift, bit_and-shift, bit_or-zero, Bool-cases, inl, inr, subst, bit-zero,
}
use native.Mathlib.Decide.{ℕ_discrete}
use pastoral.Pmm.{PmmModule}
use pastoral.Pmm.Frames.{FreePage, Handed}
use pastoral.Vmm.{Ram, has, address, update, clear_page, flags_mask}
use pastoral.Vmm.View.{
  index, present, view, view-zero, view-suc, view-absent, view-empty, view-cong,
}
use pastoral.Vmm.Places.{Labels, IsPlaced, slot_unique, update-ne, update-eq}

-- Flags: the lowest 12 digits of an entry and VMM_FLAGS_NX.
abbrev pub AreFlags : ℕ → Type 0
AreFlags flags = (flags < 2 ^ 64) × (flags % 2 ^ 63 < 0x1000)

-- The entry of a table.
abbrev pub table_entry : ℕ → ℕ → ℕ → ℕ
table_entry extra flags p = bit_or (bit_or p (bit_and flags flags_mask)) extra

module _ (extra flags p : ℕ) (aligned : p % 0x1000 ≡ 0) (small : (extra ≡ 0) ⊎ (extra ≡ 2)) where
  pub table_entry-present : has flags 0 ≡ true → has (table_entry extra flags p) 0 ≡ true
  unfolding bit
  table_entry-present h = ground (
    arith,
    bit-bit_or 0 (bit_or p (bit_and flags flags_mask)) extra,
    bit-bit_or 0 p (bit_and flags flags_mask),
    bit-bit_and 0 flags flags_mask,
  )

  pub table_entry-small : has (table_entry extra flags p) 7 ≡ false
  unfolding bit
  table_entry-small = ground (
    arith,
    bit-bit_or 7 (bit_or p (bit_and flags flags_mask)) extra,
    bit-bit_or 7 p (bit_and flags flags_mask),
    bit-bit_and 7 flags flags_mask,
    small,
  )

  pub address-table_entry : AreFlags flags → address (table_entry extra flags p) ≡ p
  address-table_entry (lt, low) =
      let high : (flags / 2 ^ 12 ≡ 0) ⊎ (flags / 2 ^ 12 ≡ 2 ^ 51) =
        elim (Bool-cases (ltb flags (2 ^ 63))) [
          | inl no_nx ↦ inl (ground arith)
          | inr nx ↦ inr (ground arith)
        ] in
      let masked : bit_and flags flags_mask / 2 ^ 12 ≡ 0 =
        bit_and-shift 12 flags flags_mask ∙ elim high [ inl z ↦ rw z refl | inr z ↦ rw z refl ] in
      let no_extra : extra / 2 ^ 12 ≡ 0 = omega arith in
      let whole : table_entry extra flags p / 2 ^ 12 ≡ p / 2 ^ 12 =
        bit_or-shift 12 (bit_or p (bit_and flags flags_mask)) extra
        ∙ rw
            (
              no_extra,
              bit_or-zero (bit_or p (bit_and flags flags_mask) / 2 ^ 12),
              bit_or-shift 12 p (bit_and flags flags_mask),
              masked,
              bit_or-zero (p / 2 ^ 12),
            )
            refl in
      omega arith

module _ {labels : Labels} {n root : ℕ} {r : Ram} (t : IsPlaced labels n root r) (p k q i : ℕ)
    (at : labels p ≡ some (suc k, q)) (lt : i < 0x200)
    (absent : has (r.words (p + 8 * i)) 0 ≡ false) (f : ℕ) (ms' : List PmmModule)
    (h : Handed r.modules f ms') (entry : ℕ) (on : has entry 0 ≡ true) (small : has entry 7 ≡ false)
    (leads : address entry ≡ f) where
  abbrev pub grown : Ram
  grown = record { words = update (p + 8 * i) entry (clear_page f r.words); modules = ms' }

  abbrev pub grown_labels : Labels
  grown_labels x = if x == f then some (k, q * 0x200 + i) else labels x

  unlabelled : (x l m : ℕ) → labels x ≡ some (l, m) → x ≢ f
  unlabelled x l m e same = t.held x l m e (subst (FreePage r.modules) (sym same) h.was_free)

  pub grown_labels-old : (x l m : ℕ) → labels x ≡ some (l, m) → grown_labels x ≡ some (l, m)
  grown_labels-old x l m e = let ne : x ≢ f = unlabelled x l m e in ground arith

  pub grown_labels-new : grown_labels f ≡ some (k, q * 0x200 + i)
  grown_labels-new = ground arith

  -- The other entries of the tables stay.
  pub words-kept :
      (x l m j : ℕ)
      → labels x ≡ some (l, m)
      → j < 0x200
      → x + 8 * j ≢ p + 8 * i
      → grown.words (x + 8 * j) ≡ r.words (x + 8 * j)
  words-kept x l m j e b ne =
      let other : x ≢ f = unlabelled x l m e in
      let low : x % 0x1000 ≡ 0 = t.aligned x l m e in
      update-ne (p + 8 * i) entry (x + 8 * j) (clear_page f r.words) ne ∙ ground (arith, h.page)

  pub words-slot : grown.words (p + 8 * i) ≡ entry
  words-slot = update-eq (p + 8 * i) entry (clear_page f r.words)

  pub words-fresh : (j : ℕ) → j < 0x200 → grown.words (f + 8 * j) ≡ 0
  words-fresh j b =
      let other : p ≢ f = unlabelled p (suc k) q at in
      let low : p % 0x1000 ≡ 0 = t.aligned p (suc k) q at in
      let ne : f + 8 * j ≢ p + 8 * i = λ e. absurd (omega (arith, h.page)) in
      update-ne (p + 8 * i) entry (f + 8 * j) (clear_page f r.words) ne ∙ ground arith

  -- No view changes.
  pub view-grown :
      (l x m v : ℕ) → labels x ≡ some (l, m) → view l grown.words x v ≡ view l r.words x v
  view-grown zero x m v e =
      let ne : x + 8 * index 0 v ≢ p + 8 * i = λ same.
        let (levels, _, _) =
          slot_unique t x p 0 m (suc k) q (index 0 v) i e at (omega arith) lt same in
        absurd (omega arith) in
      view-zero grown.words x v
      ∙ ap present (words-kept x 0 m (index 0 v) e (omega arith) ne)
      ∙ sym (view-zero r.words x v)
  view-grown (suc l) x m v e = elim (ℕ_discrete (x + 8 * index (suc l) v) (p + 8 * i)) [
    | yes same ↦
        let (levels, _, _) =
          slot_unique t x p (suc l) m (suc k) q (index (suc l) v) i e at (omega arith) lt same in
        let slot : grown.words (x + 8 * index (suc l) v) ≡ entry =
          ap grown.words same ∙ words-slot in
        let empty : view l grown.words f v ≡ 0 = view-empty l grown.words f v words-fresh in
        view-suc l grown.words x v (rw slot on) (λ z. rw slot small)
        ∙ ap (λ a. view l grown.words a v) (ap address slot ∙ leads)
        ∙ empty
        ∙ sym (view-absent l r.words x v (ap (λ (a : ℕ). has (r.words a) 0) same ∙ absent))
    | no ne ↦
        view-cong r.words grown.words x v l
          (words-kept x (suc l) m (index (suc l) v) e (omega arith) ne)
          (λ there flat.
            view-grown l (address (r.words (x + 8 * index (suc l) v))) (m * 0x200 + index (suc l) v)
              v (t.child x l m (index (suc l) v) e (omega arith) there flat))
  ]

  pub grown-IsPlaced : IsPlaced grown_labels n root grown
  grown-IsPlaced = record {
    top = grown_labels-old root n 1 t.top;
    aligned = λ x l m e. elim (ℕ_discrete x f) [
      | yes same ↦ rw same h.page
      | no ne ↦ t.aligned x l m (old x l m ne e)
    ];
    held = λ x l m e free. elim (ℕ_discrete x f) [
      | yes same ↦ (h.shrinks x free).1 same
      | no ne ↦ t.held x l m (old x l m ne e) (h.shrinks x free).0
    ];
    child = child;
  }
    where
      old : (x l m : ℕ) → x ≢ f → grown_labels x ≡ some (l, m) → labels x ≡ some (l, m)
      old x l m ne e = ground arith

      child :
          (x l m j : ℕ)
          → grown_labels x ≡ some (suc l, m)
          → j < 0x200
          → has (grown.words (x + 8 * j)) 0 ≡ true
          → (l ≡ 0 → has (grown.words (x + 8 * j)) 7 ≡ false)
          → grown_labels (address (grown.words (x + 8 * j))) ≡ some (l, m * 0x200 + j)
      child x l m j e b there flat = elim (ℕ_discrete x f) [
        | yes same ↦
            let zero_entry : grown.words (x + 8 * j) ≡ 0 =
              ap (λ (a : ℕ). grown.words (a + 8 * j)) same ∙ words-fresh j b in
            absurd (ground (arith, zero_entry, bit-zero 0))
        | no ne ↦ elim (ℕ_discrete (x + 8 * j) (p + 8 * i)) [
          | yes same ↦
              let (levels, places, ix) =
                slot_unique t x p (suc l) m (suc k) q j i (old x (suc l) m ne e) at b lt same in
              let slot : address (grown.words (x + 8 * j)) ≡ f =
                ap (λ (a : ℕ). address (grown.words a)) same ∙ ap address words-slot ∙ leads in
              ap grown_labels slot ∙ grown_labels-new ∙ ground arith
          | no other ↦
              let kept : grown.words (x + 8 * j) ≡ r.words (x + 8 * j) =
                words-kept x (suc l) m j (old x (suc l) m ne e) b other in
              ap (λ a. grown_labels (address a)) kept
              ∙ grown_labels-old (address (r.words (x + 8 * j))) l (m * 0x200 + j) (
                  t.child x l m j (old x (suc l) m ne e) b (rw (← kept) there)
                    (λ z. rw (← kept) (flat z)))
        ]
      ]
