-- ===== src/Vmm/Descend.antt =====
-- `map_page` goes down to the last table, which it makes where it is missing.
use pastoral.Base.{
  ℕ, zero, suc, ◌+◌, ◌*◌, ◌<◌, ◌≡◌, refl, ap, ◌∙◌, ◌⊎◌, true, false, some, List, arith, bit,
  Bool-cases, inl, inr, bit-zero,
}
use pastoral.Pmm.{PmmModule, pmm_alloc}
use pastoral.Pmm.Frames.{Handed, AreModules, pmm_alloc-some-Handed}
use pastoral.Vmm.{Ram, has, address, update, clear_page, alloc_page, table_at}
use pastoral.Vmm.View.{index, present, view, view-zero, view-suc}
use pastoral.Vmm.Places.{Labels, IsPlaced}
use pastoral.Vmm.Grow.{
  AreFlags, table_entry, table_entry-present, table_entry-small, address-table_entry, grown,
  grown_labels, grown_labels-old, grown_labels-new, words-kept, words-slot, words-fresh, view-grown,
  grown-IsPlaced,
}

-- The allocator can hand out `n` pages.
abbrev pub Spare : ℕ → List PmmModule → Type 0
Spare zero ms = Unit {0}
Spare (suc n) ms =
    (p : ℕ) × (ms' : List PmmModule) × (pmm_alloc 1 1 ms ≡ some (some p, ms')) × Spare n ms'

pub Spare-suc : (n : ℕ) (ms : List PmmModule) → Spare (suc n) ms → Spare n ms
Spare-suc zero ms s = tt
Spare-suc (suc n) ms (p, ms', e, s) = (p, ms', e, Spare-suc n ms' s)

-- No present entry on the way to the page of `v` is a large page.
abbrev pub Flat : ℕ → (ℕ → ℕ) → ℕ → ℕ → Type 0
Flat zero words p v = Unit {0}
Flat (suc k) words p v =
    has (words (p + 8 * index (suc k) v)) 0 ≡ true
    → (k ≡ 0 → has (words (p + 8 * index (suc k) v)) 7 ≡ false)
      × Flat k words (address (words (p + 8 * index (suc k) v))) v

-- The walk for `v` ends in the last table `u`.
abbrev pub Reaches : ℕ → (ℕ → ℕ) → ℕ → ℕ → ℕ → Type 0
Reaches zero words p v u = p ≡ u
Reaches (suc k) words p v u =
    (has (words (p + 8 * index (suc k) v)) 0 ≡ true)
    × (k ≡ 0 → has (words (p + 8 * index (suc k) v)) 7 ≡ false)
    × Reaches k words (address (words (p + 8 * index (suc k) v))) v u

pub view-Reaches :
    (k : ℕ) (words : ℕ → ℕ) (p v u : ℕ)
    → Reaches k words p v u
    → view k words p v ≡ present (words (u + 8 * index 0 v))
view-Reaches zero words p v u e =
    view-zero words p v ∙ ap (λ (x : ℕ). present (words (x + 8 * index 0 v))) e
view-Reaches (suc k) words p v u (on, small, below) =
    view-suc k words p v on small
    ∙ view-Reaches k words (address (words (p + 8 * index (suc k) v))) v u below

Flat-empty :
    (k : ℕ) (words : ℕ → ℕ) (p v : ℕ)
    → ((i : ℕ) → i < 0x200 → words (p + 8 * i) ≡ 0)
    → Flat k words p v
Flat-empty zero words p v z = tt
Flat-empty (suc k) words p v z =
    λ on. absurd (ground (arith, z (index (suc k) v) (omega arith), bit-zero 0))

-- A memory that has come from another with more tables and the same views.
pub record Extends (n root : ℕ) (labels : Labels) (r : Ram) (labels' : Labels) (r' : Ram)
    : Type 0 where
  pub tree : IsPlaced labels' n root r'
  pub allocator : AreModules r'.modules
  pub old : (x l m : ℕ) → labels x ≡ some (l, m) → labels' x ≡ some (l, m)
  pub views : (l x m v : ℕ) → labels x ≡ some (l, m) → view l r'.words x v ≡ view l r.words x v
  pub keeps :
      (x l m j : ℕ)
      → labels x ≡ some (l, m)
      → j < 0x200
      → has (r.words (x + 8 * j)) 0 ≡ true
      → r'.words (x + 8 * j) ≡ r.words (x + 8 * j)

-- One level down, from table `p` to table `c`.
pub record Stepped (p k q v : ℕ) (r : Ram) (c : ℕ) (labels' : Labels) (r' : Ram) : Type 0 where
  pub child : labels' c ≡ some (k, q * 0x200 + index (suc k) v)
  pub on : has (r'.words (p + 8 * index (suc k) v)) 0 ≡ true
  pub small : k ≡ 0 → has (r'.words (p + 8 * index (suc k) v)) 7 ≡ false
  pub leads : address (r'.words (p + 8 * index (suc k) v)) ≡ c
  pub flat : Flat k r'.words c v

module _ (n root extra flags : ℕ) (small : (extra ≡ 0) ⊎ (extra ≡ 2)) (fl : AreFlags flags)
    (live : has flags 0 ≡ true) where
  pub table_at-Stepped :
      (spare : ℕ) (labels : Labels) (r : Ram) (p k q v : ℕ)
      → IsPlaced labels n root r
      → AreModules r.modules
      → Spare (suc spare) r.modules
      → labels p ≡ some (suc k, q)
      → Flat (suc k) r.words p v
      → (c : ℕ) × (labels' : Labels) × (r' : Ram) × (table_at extra flags
            (p + 8 * index (suc k) v)
            r
          ≡ some (c, r'))
        × Extends n root labels r labels' r'
        × Stepped p k q v r c labels' r'
        × Spare spare r'.modules
  unfolding table_at alloc_page
  table_at-Stepped spare labels r p k q v t ms (f, ms', got, more) at flat =
      elim (Bool-cases (has (r.words (p + 8 * index (suc k) v)) 0)) [
        | inl on ↦ (
          address (r.words (p + 8 * index (suc k) v)),
          labels,
          r,
          rw on refl,
          record {
            tree = t;
            allocator = ms;
            old = λ x l m e. e;
            views = λ l x m u e. refl;
            keeps = λ x l m j e b o. refl;
          },
          record {
            child = t.child p k q (index (suc k) v) at (omega arith) on (flat on).0;
            on = on;
            small = (flat on).0;
            leads = refl;
            flat = (flat on).1;
          },
          Spare-suc spare r.modules (f, ms', got, more),
        )
        | inr off ↦
            let h : Handed r.modules f ms' = pmm_alloc-some-Handed r.modules ms' f ms got in
            let a : ℕ = p + 8 * index (suc k) v in
            let e : ℕ = table_entry extra flags f in
            let on : has e 0 ≡ true = table_entry-present extra flags f h.page small live in
            let flat_entry : has e 7 ≡ false = table_entry-small extra flags f h.page small in
            let leads : address e ≡ f = address-table_entry extra flags f h.page small fl in
            let ix : index (suc k) v < 0x200 = omega arith in
            let slot : update a e (clear_page f r.words) a ≡ e =
              words-slot t p k q (index (suc k) v) at ix off f ms' h e on flat_entry leads in
            (
              f,
              grown_labels t p k q (index (suc k) v) at ix off f ms' h e on flat_entry leads,
              grown t p k q (index (suc k) v) at ix off f ms' h e on flat_entry leads,
              rw (off, got, slot, leads) refl,
              record {
                tree =
                    grown-IsPlaced t p k q (index (suc k) v) at ix off f ms' h e on flat_entry
                      leads;
                allocator = h.still;
                old =
                    grown_labels-old t p k q (index (suc k) v) at ix off f ms' h e on flat_entry
                      leads;
                views =
                    view-grown t p k q (index (suc k) v) at ix off f ms' h e on flat_entry leads;
                keeps = λ x l m j e' b o.
                    words-kept t p k q (index (suc k) v) at ix off f ms' h e on flat_entry leads x l
                      m j e' b
                      (λ same. absurd (ground (arith, ap (λ (y : ℕ). bit (r.words y) 0) same)));
              },
              record {
                child =
                    grown_labels-new t p k q (index (suc k) v) at ix off f ms' h e on flat_entry
                      leads;
                on = rw slot on;
                small = λ z. rw slot flat_entry;
                leads = ap address slot ∙ leads;
                flat =
                    Flat-empty k (update a e (clear_page f r.words)) f v (
                      words-fresh t p k q (index (suc k) v) at ix off f ms' h e on flat_entry
                        leads);
              },
              more,
            )
      ]
