-- ===== src/Vmm/Levels.antt =====
-- The levels of the tables that `map_page` goes down, and the entry at the end of them.
use pastoral.Base.{
  ℕ, zero, suc, ◌+◌, ◌*◌, ◌≤◌, ◌<◌, ◌≡◌, ◌≢◌, refl, sym, ap, ◌∙◌, ◌⊎◌, true, Option, some, arith,
  subst, ◌>>=◌,
}
use pastoral.Pmm.Frames.{AreModules}
use pastoral.Vmm.{Ram, has, address, update, table_at}
use pastoral.Vmm.View.{index, present, view}
use pastoral.Vmm.Places.{Labels, IsPlaced, place, view-written_ne}
use pastoral.Vmm.Grow.{AreFlags}
use pastoral.Vmm.Descend.{Spare, Flat, Reaches, Extends, table_at-Stepped}
use pastoral.Vmm.Leaf.{view-store_eq}

-- All levels of `map_page` but the last.
unfoldable pub descend : ℕ → ℕ → ℕ → ℕ → ℕ → Ram → Option (ℕ × Ram)
descend zero extra flags p v r = some (p, r)
descend (suc k) extra flags p v r =
    table_at extra flags (p + 8 * index (suc k) v) r >>= λ s. descend k extra flags s.0 v s.1

module _ (n root extra flags : ℕ) (small : (extra ≡ 0) ⊎ (extra ≡ 2)) (fl : AreFlags flags)
    (live : has flags 0 ≡ true) where
  pub descend-Reaches :
      (k : ℕ) (labels : Labels) (r : Ram) (p q v : ℕ)
      → IsPlaced labels n root r
      → AreModules r.modules
      → Spare k r.modules
      → labels p ≡ some (k, q)
      → Flat k r.words p v
      → (u : ℕ) × (qu : ℕ) × (labels' : Labels) × (r' : Ram) × (descend k extra flags p v r
          ≡ some (u, r'))
        × Extends n root labels r labels' r'
        × (labels' u ≡ some (0, qu))
        × (place k q v ≡ place 0 qu v)
        × Reaches k r'.words p v u
  unfolding descend
  descend-Reaches zero labels r p q v t ms s at flat = (
    p,
    q,
    labels,
    r,
    refl,
    record {
      tree = t;
      allocator = ms;
      old = λ x l m e. e;
      views = λ l x m u e. refl;
      keeps = λ x l m j e b o. refl;
    },
    at,
    refl,
    refl,
  )
  descend-Reaches (suc k) labels r p q v t ms s at flat =
      let (c, labels₁, r₁, e₁, x₁, s₁, more) =
        table_at-Stepped n root extra flags small fl live k labels r p k q v t ms s at flat in
      let (u, qu, labels₂, r₂, e₂, x₂, last, same, re) =
        descend-Reaches k labels₁ r₁ c (q * 0x200 + index (suc k) v) v x₁.tree x₁.allocator more
          s₁.child s₁.flat in
      let ix : index (suc k) v < 0x200 = omega arith in
      let kept : r₂.words (p + 8 * index (suc k) v) ≡ r₁.words (p + 8 * index (suc k) v) =
        x₂.keeps p (suc k) q (index (suc k) v) (x₁.old p (suc k) q at) ix s₁.on in
      (
        u,
        qu,
        labels₂,
        r₂,
        rw e₁ e₂,
        record {
          tree = x₂.tree;
          allocator = x₂.allocator;
          old = λ x l m e. x₂.old x l m (x₁.old x l m e);
          views = λ l x m w e. x₂.views l x m w (x₁.old x l m e) ∙ x₁.views l x m w e;
          keeps = λ x l m j e b o.
              let step : r₁.words (x + 8 * j) ≡ r.words (x + 8 * j) = x₁.keeps x l m j e b o in
              x₂.keeps x l m j (x₁.old x l m e) b (rw step o) ∙ step;
        },
        last,
        same,
        (
          rw kept s₁.on,
          λ z. rw kept (s₁.small z),
          subst (λ (a : ℕ). Reaches k r₂.words a v u) (sym (ap address kept ∙ s₁.leads)) re,
        ),
      )

pub Reaches-same :
    (k : ℕ) (words : ℕ → ℕ) (p v w u : ℕ)
    → ((j : ℕ) → j ≤ k → index j w ≡ index j v)
    → Reaches k words p v u
    → Reaches k words p w u
Reaches-same zero words p v w u eq re = re
Reaches-same (suc k) words p v w u eq (on, small, below) =
    let at : p + 8 * index (suc k) w ≡ p + 8 * index (suc k) v =
      ap (λ (j : ℕ). p + 8 * j) (eq (suc k) (omega arith)) in
    let same : words (p + 8 * index (suc k) w) ≡ words (p + 8 * index (suc k) v) = ap words at in
    (
      rw same on,
      λ z. rw same (small z),
      subst (λ (a : ℕ). Reaches k words (address a) w u) (sym same)
          (Reaches-same k words (address (words (p + 8 * index (suc k) v))) v w u
            (λ j le. eq j (omega arith)) below),
    )

-- Storing the entry after the descent.
pub written-refines :
    (n root : ℕ) (labels labels' : Labels) (r r' : Ram) (u qu v entry : ℕ)
    → IsPlaced labels n root r
    → Extends n root labels r labels' r'
    → labels' u ≡ some (0, qu)
    → place n 1 v ≡ place 0 qu v
    → Reaches n r'.words root v u
    → (w : ℕ)
    → (((j : ℕ) → j ≤ n → index j w ≡ index j v)
        → view n (update (u + 8 * index 0 v) entry r'.words) root w ≡ present entry)
      × (place n 1 w ≢ place n 1 v
          → view n (update (u + 8 * index 0 v) entry r'.words) root w ≡ view n r.words root w)
written-refines n root labels labels' r r' u qu v entry t x last same re w = (
  λ eq.
      view-store_eq x.tree u qu (index 0 v) last (omega arith) entry n root 1 w x.tree.top
        (Reaches-same n r'.words root v w u eq re) (eq 0 (omega arith)),
  λ ne.
      view-written_ne x.tree v entry u qu last n root 1 w x.tree.top (λ e. ne (e ∙ sym same))
      ∙ x.views n root 1 w t.top,
)
