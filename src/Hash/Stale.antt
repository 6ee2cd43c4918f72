-- ===== src/Hash/Stale.antt =====
-- A push in front of an older entry of the same key leaves both in the table.
use pastoral.Base.{
  ℕ, suc, ◌<◌, ◌≤◌, ◌≡◌, ◌≢◌, ap, sym, inl, inr, List, false, ◌==◌, arith, none, some, Bool-cases,
  length, get_elem?, set, length-set, get_elem?-set_self, get_elem?-set_ne, ◌∙◌, lt_of_get_elem?,
}
use pastoral.Hash.{Slot, Table, start, find, holds, accepts, search, allocated, push_calls, delete}
use pastoral.Hash.Probe.{IsKey, First}
use pastoral.Hash.Push.{
  WellKeyed, find-First, find_of_First, find-write, search-find, search-write, push-fits,
  slot_value-some,
}
use pastoral.Hash.Delete.{delete-hit, holds-none}

module _ {V : Type 0} where
  -- Clearing the slot of the newer entry leaves the older one as the first that holds the key.
  First-stale :
      (t : Table V) (key : List ℕ) (s : Slot V) (i j : ℕ)
      → i < length t
      → i ≢ j
      → First (holds key) t (start key (length t)) j
      → let t₂ : Table V = set (set t i s) i none in First (holds key) t₂ (start key (length t₂)) j
  First-stale t key s i j h ne f = record {
    lo = rw (len) f.lo;
    slot = f.slot;
    here = other j ne ∙ f.here;
    passes = f.passes;
    before = λ k r lo hi e. earlier k r (rw len at lo) hi e;
  }
    where
      len : length (set (set t i s) i none) ≡ length t
      len = length-set (set t i s) i none ∙ length-set t i s

      other : (k : ℕ) → i ≢ k → get_elem? (set (set t i s) i none) k ≡ get_elem? t k
      other k apart = get_elem?-set_ne (set t i s) i k none apart ∙ get_elem?-set_ne t i k s apart

      emptied : get_elem? (set (set t i s) i none) i ≡ some none
      emptied = get_elem?-set_self (set t i s) i none (omega (arith, length-set t i s))

      earlier :
          (k : ℕ) (r : Slot V)
          → start key (length t) ≤ k
          → k < j
          → get_elem? (set (set t i s) i none) k ≡ some r
          → holds key r ≡ false
      earlier k r lo hi e = elim (Bool-cases (k == i)) [
        | inl same ↦
            let q : k ≡ i = ground arith in
            let empty : r ≡ none =
              ground (arith, emptied, ap (get_elem? (set (set t i s) i none)) q) in
            rw empty (holds-none V key)
        | inr apart ↦ f.before k r lo hi (sym (other k (ground arith)) ∙ e)
      ]

  -- If a table holds an entry for a key, and the probe for the key meets an empty slot before that
  -- entry, a push of the key writes to the empty slot. A search then finds the new value, but after
  -- one `hash_table_delete` of the key it finds the old value again.
  pub search-delete-push_stale :
      (size fuel : ℕ) (t : Table V) (key : List ℕ) (old new : V) (i j : ℕ)
      → WellKeyed size t
      → IsKey size key
      → allocated t ≡ t
      → find (holds key) key t ≡ some j
      → get_elem? t j ≡ some (some (key, old))
      → find (accepts key) key t ≡ some i
      → i ≢ j
      → (t' : Table V) × (push_calls (suc fuel) t key new ≡ some t')
        × (search t' key ≡ some new)
        × (search (delete t' key) key ≡ some old)
  search-delete-push_stale size fuel t key old new i j w h ready fj here fi ne =
      let t₁ : Table V = set t i (some (key, new)) in
      let room : i < length t = lt_of_get_elem? t i (find-First (accepts key) key t i fi).here in
      let gone : delete t₁ key ≡ set t₁ i none =
        delete-hit t₁ key i (find-write size t key new i h fi) in
      let first : First (holds key) (set t₁ i none) (start key (length (set t₁ i none))) j =
        First-stale t key (some (key, new)) i j room ne (find-First (holds key) key t j fj) in
      let kept : get_elem? (set t₁ i none) j ≡ some (some (key, old)) =
        get_elem?-set_ne t₁ i j none ne ∙ get_elem?-set_ne t i j (some (key, new)) ne ∙ here in
      (
        t₁,
        push-fits fuel t key new i (rw ready fi) ∙ ap (λ x. some (set x i (some (key, new)))) ready,
        search-write size t key new i h fi,
        ap (λ x. search x key) gone
            ∙ search-find (set t₁ i none) key j
                (find_of_First (holds key) key (set t₁ i none) j first)
            ∙ slot_value-some (get_elem? (set t₁ i none) j) key old kept,
      )
