-- ===== src/Vmm/Copy.antt =====
-- A write to a page that is copied on writes.
use pastoral.Base.{
  ℕ, ◌+◌, ◌-◌, ◌/◌, ◌%◌, ◌^◌, ◌<◌, ◌≡◌, ◌≢◌, refl, ap, ◌∙◌, true, false, some, [], ◌∷◌, ◌++◌,
  length, get_elem?, set, leb, ltb, ◌&&◌, arith, bit, bit_or, bit-bit_or, bit_or-shift, bit_or-zero,
  ℤ, pos, Bool-cases, inl, inr, length-set, get_elem?-append_left, get_elem?-append_length, subst,
  get_elem?-set_self, lt_of_get_elem?,
}
use pastoral.Pmm.{page_size}
use pastoral.Pmm.Frames.{AreModules, FreePage, Handed, pmm_alloc-some-Handed}
use pastoral.Vmm.{Ram, has, address, update, store, alloc_page, clear_page, flag_rw}
use pastoral.Vmm.Places.{update-ne, update-eq}
use pastoral.Vmm.Descend.{Spare}
use pastoral.Vmm.Fault.{Page, Vm, copy_on_write, own_frame, copy_page, at_most_one, decrement}

-- The frame of an entry, as the handler reads it.
abbrev pub frame_of : ℕ → ℕ
frame_of entry = address entry % 2 ^ 40

-- The entry that the handler writes.
abbrev own_entry : ℕ → ℕ → ℕ
own_entry frame entry = bit_or frame (bit_or (entry % 0x200) flag_rw)

module _ (frame entry : ℕ) (aligned : frame % 0x1000 ≡ 0) where
  own_entry-writable : has (own_entry frame entry) 1 ≡ true
  unfolding bit
  own_entry-writable = ground (
    arith,
    bit-bit_or 1 frame (bit_or (entry % 0x200) flag_rw),
    bit-bit_or 1 (entry % 0x200) flag_rw,
  )

  own_entry-no_cow : has (own_entry frame entry) 9 ≡ false
  unfolding bit
  own_entry-no_cow = ground (
    arith,
    bit-bit_or 9 frame (bit_or (entry % 0x200) flag_rw),
    bit-bit_or 9 (entry % 0x200) flag_rw,
  )

  address-own_entry : address (own_entry frame entry) ≡ frame
  address-own_entry =
      let none_left : entry % 0x200 / 2 ^ 12 ≡ 0 = omega arith in
      let low : bit_or (entry % 0x200) flag_rw / 2 ^ 12 ≡ 0 =
        bit_or-shift 12 (entry % 0x200) flag_rw ∙ rw none_left refl in
      let whole : own_entry frame entry / 2 ^ 12 ≡ frame / 2 ^ 12 =
        bit_or-shift 12 frame (bit_or (entry % 0x200) flag_rw)
        ∙ rw (low, bit_or-zero (frame / 2 ^ 12)) refl in
      omega arith

-- What `own_frame` returns: the frame itself for the last user, and a copy in a free page else.
record Owned (old : ℕ) (count : ℤ) (r : Ram) (frame : ℕ) (r' : Ram) : Type 0 where
  returns : own_frame old count r ≡ some (frame, r')
  aligned : frame % 0x1000 ≡ 0
  copied : (x : ℕ) → x < page_size → r'.words (frame + x) ≡ r.words (old + x)
  kept : (x : ℕ) → (FreePage r.modules (address x) → ⊥) → r'.words x ≡ r.words x
  fresh : at_most_one count ≡ false → FreePage r.modules frame
  last : at_most_one count ≡ true → frame ≡ old

own_frame-Owned :
    (old : ℕ) (count : ℤ) (r : Ram)
    → AreModules r.modules
    → Spare 1 r.modules
    → old % 0x1000 ≡ 0
    → (FreePage r.modules old → ⊥)
    → (frame : ℕ) × (r' : Ram) × Owned old count r frame r'
unfolding own_frame alloc_page
own_frame-Owned old count r ms (f, ms', got, more) aligned used =
    elim (Bool-cases (at_most_one count)) [
      | inl last ↦ (
        old,
        r,
        record {
          returns = rw last refl;
          aligned = aligned;
          copied = λ x lt. refl;
          kept = λ x free. refl;
          fresh = λ e. absurd (ground arith);
          last = λ e. refl;
        },
      )
      | inr shared ↦
          let h : Handed r.modules f ms' = pmm_alloc-some-Handed r.modules ms' f ms got in
          let apart : f ≢ old = λ e. used (subst (FreePage r.modules) e h.was_free) in
          (
            f,
            record { words = copy_page f old (clear_page f r.words); modules = ms' },
            record {
              returns = rw (shared, got) refl;
              aligned = h.page;
              copied = λ x lt. copied f old x r.words h.page aligned apart lt;
              kept = λ x free. elim (Bool-cases (leb f x && ltb x (f + page_size))) [
                | inl inside ↦
                    let at : f ≡ address x = ground (arith, h.page) in
                    absurd (free (subst (FreePage r.modules) at h.was_free))
                | inr outside ↦ rw outside refl
              ];
              fresh = λ e. h.was_free;
              last = λ e. absurd (ground arith);
            },
          )
    ]
  where
    copied :
        (f old x : ℕ) (words : ℕ → ℕ)
        → f % page_size ≡ 0
        → old % 0x1000 ≡ 0
        → f ≢ old
        → x < page_size
        → copy_page f old (clear_page f words) (f + x) ≡ words (old + x)
    copied f old x words p q ne lt =
        let inside : (leb f (f + x) && ltb (f + x) (f + page_size)) ≡ true = ground arith in
        let at : old + (f + x - f) ≡ old + x = omega arith in
        let outside : (leb f (old + x) && ltb (old + x) (f + page_size)) ≡ false = ground arith in
        rw (inside, at, outside) refl

-- The handler's part for VMM_COW_FLAG, where the allocator has a page and neither the frame of the
-- page nor the memory of its entry is free, nor is the entry in the frame: afterwards the entry is
-- writable, no longer copied on writes, and leads to a frame with the contents that the old one had,
-- which the old one keeps. Where others use the old frame, that is another frame, a free one till
-- then; else it is the old one. The counter has lost one, and the page has a counter of its own, 1.
pub copy_on_write-Own :
    (a i : ℕ) (m : Vm) (page : Page) (count : ℤ)
    → get_elem? m.page_heap i ≡ some page
    → get_elem? m.counters page.reference ≡ some count
    → AreModules m.ram.modules
    → Spare 1 m.ram.modules
    → (FreePage m.ram.modules (frame_of (m.ram.words a)) → ⊥)
    → (FreePage m.ram.modules (address a) → ⊥)
    → address a ≢ frame_of (m.ram.words a)
    → (frame : ℕ) × (m' : Vm) × (copy_on_write a i m ≡ some m')
      × (has (m'.ram.words a) 1 ≡ true)
      × (has (m'.ram.words a) 9 ≡ false)
      × (address (m'.ram.words a) ≡ frame)
      × ((x : ℕ)
          → x < page_size
          → (m'.ram.words (frame + x) ≡ m.ram.words (frame_of (m.ram.words a) + x))
            × (m'.ram.words (frame_of (m.ram.words a) + x)
                ≡ m.ram.words (frame_of (m.ram.words a) + x)))
      × (at_most_one count ≡ false → FreePage m.ram.modules frame)
      × (at_most_one count ≡ true → frame ≡ frame_of (m.ram.words a))
      × (get_elem? m'.page_heap i
          ≡ some (record page { paddr = frame; reference = length m.counters }))
      × (get_elem? m'.counters page.reference ≡ some (decrement count))
      × (get_elem? m'.counters (length m.counters) ≡ some (pos 1))
unfolding copy_on_write
copy_on_write-Own a i m page count at_page at_count ms spare used outside apart =
    let entry : ℕ = m.ram.words a in
    let old : ℕ = frame_of entry in
    let (frame, r, o) = own_frame-Owned old count m.ram ms spare (omega arith) used in
    let e : ℕ = own_entry frame entry in
    let slot : update a e r.words a ≡ e = update-eq a e r.words in
    let shorter : length (set m.counters page.reference (decrement count)) ≡ length m.counters =
      length-set m.counters page.reference (decrement count) in
    let valid : page.reference < length m.counters =
      lt_of_get_elem? m.counters page.reference at_count in
    let away : (x : ℕ) → x < page_size → frame + x ≢ a = λ x lt same.
      elim (Bool-cases (at_most_one count)) [
        | inl last ↦ apart (omega (arith, o.last last, o.aligned))
        | inr shared ↦
            outside (subst (FreePage m.ram.modules) (omega (arith, o.aligned)) (o.fresh shared))
      ] in
    let old_away : (x : ℕ) → x < page_size → old + x ≢ a = λ x lt same. apart (omega arith) in
    (
      frame,
      record {
        ram = store a e r;
        page_heap =
            set m.page_heap i (record page { paddr = frame; reference = length m.counters });
        counters = set m.counters page.reference (decrement count) ++ pos 1 ∷ [];
      },
      rw (at_page, at_count, o.returns) refl,
      rw slot (own_entry-writable frame entry o.aligned),
      rw slot (own_entry-no_cow frame entry o.aligned),
      ap address slot ∙ address-own_entry frame entry o.aligned,
      λ x lt. (
        update-ne a e (frame + x) r.words (away x lt) ∙ o.copied x lt,
        update-ne a e (old + x) r.words (old_away x lt)
            ∙ o.kept (old + x) (λ free.
              let base : address (old + x) ≡ old = omega arith in
              used (subst (FreePage m.ram.modules) base free)),
      ),
      o.fresh,
      o.last,
      get_elem?-set_self m.page_heap i
          (record page { paddr = frame; reference = length m.counters })
          (lt_of_get_elem? m.page_heap i at_page),
      get_elem?-append_left (set m.counters page.reference (decrement count)) (pos 1 ∷ [])
            page.reference (omega arith)
          ∙ get_elem?-set_self m.counters page.reference (decrement count) valid,
      get_elem?-append_length (set m.counters page.reference (decrement count)) (pos 1)
          (length m.counters) shorter,
    )
