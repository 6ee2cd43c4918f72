-- ===== src/Hash/Delete.antt =====
-- `hash_table_delete`, and what a later search finds.
use pastoral.Base.{
  ℕ, ◌≡◌, ◌≢◌, refl, ap, sym, inl, inr, List, true, false, ◌==◌, arith, none, some, Bool-cases,
  Option-cases, length, get_elem?, set, get_elem?-set_self, get_elem?-set_ne, ◌∙◌, lt_of_get_elem?,
}
use pastoral.Hash.{Slot, Table, start, find, holds, search, delete}
use pastoral.Hash.Probe.{IsKey, same_key_iff, First}
use pastoral.Hash.Push.{
  WellKeyed, find-First, search-absent, search-set, search-nowhere, holds-other,
}

pub holds-none : (V : Type 0) (key : List ℕ) → holds {V = V} key none ≡ false
unfolding holds
holds-none V key = refl

module _ {V : Type 0} where
  -- At most one slot holds the key.
  abbrev pub IsUnique : List ℕ → Table V → Type 0
  IsUnique key t =
      (i j : ℕ) (r s : Slot V)
      → get_elem? t i ≡ some r
      → holds key r ≡ true
      → get_elem? t j ≡ some s
      → holds key s ≡ true
      → i ≡ j

  pub delete-hit :
      (t : Table V) (key : List ℕ) (i : ℕ)
      → find (holds key) key t ≡ some i
      → delete t key ≡ set t i none
  unfolding delete
  delete-hit t key i f = rw (f, delete)

  delete-miss : (t : Table V) (key : List ℕ) → find (holds key) key t ≡ none → delete t key ≡ t
  unfolding delete
  delete-miss t key f = rw (f, delete)

  -- A slot that holds one key does not hold another.
  only_one :
      (size : ℕ) (t : Table V) (i : ℕ) (s : Slot V) (key other : List ℕ)
      → WellKeyed size t
      → IsKey size key
      → IsKey size other
      → other ≢ key
      → get_elem? t i ≡ some s
      → holds key s ≡ true
      → holds other s ≡ false
  only_one size t i none key other w h h' ne e p = holds-none V other
  only_one size t i (some (k, v)) key other w h h' ne e p =
      let hk : IsKey size k = w i k v e in
      let same : k ≡ key = (same_key_iff size k key hk h).0 (unfold holds in p) in
      holds-other size k other v hk h' (λ q. ne (q ∙ same))

  -- `hash_table_delete` changes no search for another key; and if at most one slot holds the key,
  -- a search for it finds nothing afterwards.
  pub search-delete :
      (size : ℕ) (t : Table V) (key : List ℕ)
      → WellKeyed size t
      → IsKey size key
      → ((other : List ℕ)
          → IsKey size other
          → other ≢ key
          → search (delete t key) other ≡ search t other)
        × (IsUnique key t → search (delete t key) key ≡ none)
  search-delete size t key w h = elim (Option-cases (find (holds key) key t)) [
    | inl gone ↦ (
      λ other h' ne. rw (delete-miss t key gone),
      λ u. rw (delete-miss t key gone) (search-absent t key gone),
    )
    | inr (i, f) ↦
        let first : First (holds key) t (start key (length t)) i =
          find-First (holds key) key t i f in
        (
          λ other h' ne.
              ap (λ x. search x other) (delete-hit t key i f)
              ∙ search-set other i t first.slot none first.here
                  (only_one size t i first.slot key other w h h' ne first.here first.passes)
                  (holds-none V other),
          λ u.
              ap (λ x. search x key) (delete-hit t key i f)
              ∙ search-nowhere (set t i none) key (cleared i first.slot first.here first.passes u),
        )
  ]
    where
      cleared :
          (i : ℕ) (r : Slot V)
          → get_elem? t i ≡ some r
          → holds key r ≡ true
          → IsUnique key t
          → (j : ℕ) (s : Slot V) → get_elem? (set t i none) j ≡ some s
          → holds key s ≡ false
      cleared i r e p u j s e' = elim (Bool-cases (j == i)) [
        | inl same ↦
            let q : j ≡ i = ground arith in
            let now : get_elem? (set t i none) i ≡ some none =
              get_elem?-set_self t i none (lt_of_get_elem? t i e) in
            let empty : s ≡ none = ground (arith, ap (get_elem? (set t i none)) q) in
            rw empty (holds-none V key)
        | inr ne ↦ elim (Bool-cases (holds key s)) [
          | inl q ↦ absurd (
              ground
                (arith, u i j r s e p (sym (get_elem?-set_ne t i j none (ground arith)) ∙ e') q))
          | inr q ↦ q
        ]
      ]
