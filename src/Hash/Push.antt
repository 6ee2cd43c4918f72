-- ===== src/Hash/Push.antt =====
-- `hash_table_push` where the probed part of the table has room.
use pastoral.Base.{
  ℕ, zero, suc, ◌+◌, ◌-◌, ◌≡◌, ◌≢◌, refl, ap, sym, inl, inr, List, [], ◌∷◌, true, false, Bool, ◌==◌,
  arith, Option, none, some, Bool-cases, Option-cases, length, get_elem?, set, length-set,
  get_elem?-set_self, get_elem?-set_ne, ◌∙◌, lt_of_get_elem?, replicate,
}
use pastoral.Hash.{
  Slot, Table, start, probe, find, same_key, holds, accepts, search, slot_value, allocated,
  push_calls,
}
use pastoral.Hash.Probe.{
  IsKey, same_key_iff, First, probe_of_First, probe-First, probe-none, probe-hit, probe-miss,
  probe-end,
}

module _ {V : Type 0} where
  -- Every key in the table has `size` bytes.
  abbrev pub WellKeyed : ℕ → Table V → Type 0
  WellKeyed size t =
      (j : ℕ) (k : List ℕ) (v : V) → get_elem? t j ≡ some (some (k, v)) → IsKey size k

  pub find-First :
      (test : Slot V → Bool) (key : List ℕ) (t : Table V) (k : ℕ)
      → find test key t ≡ some k
      → First test t (start key (length t)) k
  unfolding find
  find-First test key t k h =
      (probe-First test (length t - start key (length t)) (start key (length t)) k t h).0

  pub find_of_First :
      (test : Slot V → Bool) (key : List ℕ) (t : Table V) (k : ℕ)
      → First test t (start key (length t)) k
      → find test key t ≡ some k
  unfolding find
  find_of_First test key t k f =
      probe_of_First test (length t - start key (length t)) (start key (length t)) k t f
        (omega (arith, lt_of_get_elem? t k f.here, f.lo))

  pub search-find :
      (t : Table V) (key : List ℕ) (k : ℕ)
      → find (holds key) key t ≡ some k
      → search t key ≡ slot_value (get_elem? t k)
  unfolding search
  search-find t key k e = rw e

  pub search-absent :
      (t : Table V) (key : List ℕ) → find (holds key) key t ≡ none → search t key ≡ none
  unfolding search
  search-absent t key e = rw e

  -- A write that changes no outcome of the test changes no outcome of the loop.
  probe-set :
      (test : Slot V → Bool) (n x i : ℕ) (t : Table V) (s s' : Slot V)
      → get_elem? t i ≡ some s
      → test s ≡ false
      → test s' ≡ false
      → probe test n x (set t i s') ≡ probe test n x t
  probe-set test zero x i t s s' e h h' = unfold probe in refl
  probe-set test (suc n) x i t s s' e h h' = elim (Bool-cases (x == i)) [
    | inl same ↦
        let q : x ≡ i = ground arith in
        let there : get_elem? (set t i s') x ≡ some s' =
          rw q (get_elem?-set_self t i s' (lt_of_get_elem? t i e)) in
        probe-miss test n x (set t i s') s' there h'
        ∙ probe-set test n (x + 1) i t s s' e h h'
        ∙ sym (probe-miss test n x t s (rw q e) h)
    | inr ne ↦
        let kept : get_elem? (set t i s') x ≡ get_elem? t x =
          get_elem?-set_ne t i x s' (ground arith) in
        elim (Option-cases (get_elem? t x)) [
          | inl gone ↦
              probe-end test n x (set t i s') (kept ∙ gone) ∙ sym (probe-end test n x t gone)
          | inr (r, here) ↦ elim (Bool-cases (test r)) [
            | inl pass ↦
                probe-hit test n x (set t i s') r (kept ∙ here) pass
                ∙ sym (probe-hit test n x t r here pass)
            | inr fail ↦
                probe-miss test n x (set t i s') r (kept ∙ here) fail
                ∙ probe-set test n (x + 1) i t s s' e h h'
                ∙ sym (probe-miss test n x t r here fail)
          ]
        ]
  ]

  find-set :
      (test : Slot V → Bool) (key : List ℕ) (i : ℕ) (t : Table V) (s s' : Slot V)
      → get_elem? t i ≡ some s
      → test s ≡ false
      → test s' ≡ false
      → find test key (set t i s') ≡ find test key t
  unfolding find
  find-set test key i t s s' e h h' =
      rw (length-set t i s')
        (probe-set test (length t - start key (length t)) (start key (length t)) i t s s' e h h')

  -- A write to a slot that does not hold `key`, neither before nor after, is not seen by a search.
  pub search-set :
      (key : List ℕ) (i : ℕ) (t : Table V) (s s' : Slot V)
      → get_elem? t i ≡ some s
      → holds key s ≡ false
      → holds key s' ≡ false
      → search (set t i s') key ≡ search t key
  search-set key i t s s' e h h' =
      let same : find (holds key) key (set t i s') ≡ find (holds key) key t =
        find-set (holds key) key i t s s' e h h' in
      elim (Option-cases (find (holds key) key t)) [
        | inl gone ↦ search-absent (set t i s') key (same ∙ gone) ∙ sym (search-absent t key gone)
        | inr (k, f) ↦
            let first : First (holds key) t (start key (length t)) k =
              find-First (holds key) key t k f in
            let apart : i ≢ k = λ q. ground (arith, first.here, first.passes, ap (get_elem? t) q) in
            search-find (set t i s') key k (same ∙ f)
            ∙ ap slot_value (get_elem?-set_ne t i k s' apart)
            ∙ sym (search-find t key k f)
      ]

  holds-le-accepts : (key : List ℕ) (s : Slot V) → accepts key s ≡ false → holds key s ≡ false
  unfolding holds accepts
  holds-le-accepts key none h = refl
  holds-le-accepts key (some (k, v)) h = h

  pub holds_self :
      (size : ℕ) (key : List ℕ) (v : V) → IsKey size key → holds key (some (key, v)) ≡ true
  unfolding holds
  holds_self size key v h = (same_key_iff size key key h h).1 refl

  pub holds-other :
      (size : ℕ) (key other : List ℕ) (v : V)
      → IsKey size key
      → IsKey size other
      → other ≢ key
      → holds other (some (key, v)) ≡ false
  unfolding holds
  holds-other size key other v h h' ne = elim (Bool-cases (same_key key other)) [
    | inl e ↦ absurd (ne (sym ((same_key_iff size key other h h').0 e)))
    | inr e ↦ e
  ]

  -- A slot that accepts one key does not hold another.
  accepts-other :
      (size : ℕ) (key other : List ℕ) (s : Slot V)
      → ((k : List ℕ) (v : V) → s ≡ some (k, v) → IsKey size k)
      → IsKey size key
      → IsKey size other
      → other ≢ key
      → accepts key s ≡ true
      → holds other s ≡ false
  accepts-other size key other none w h h' ne a = unfold holds in refl
  accepts-other size key other (some (k, v)) w h h' ne a =
      let same : k ≡ key = (same_key_iff size k key (w k v refl) h).0 (unfold accepts in a) in
      holds-other size k other v (w k v refl) h' (λ e. ne (e ∙ same))

  -- After the write the loop of a search stops at the written slot.
  pub find-write :
      (size : ℕ) (t : Table V) (key : List ℕ) (v : V) (i : ℕ)
      → IsKey size key
      → find (accepts key) key t ≡ some i
      → find (holds key) key (set t i (some (key, v))) ≡ some i
  find-write size t key v i h f =
      let t' : Table V = set t i (some (key, v)) in
      let first : First (accepts key) t (start key (length t)) i =
        find-First (accepts key) key t i f in
      find_of_First (holds key) key t' i (record {
        lo = rw (length-set t i (some (key, v))) first.lo;
        slot = some (key, v);
        here = get_elem?-set_self t i (some (key, v)) (lt_of_get_elem? t i first.here);
        passes = holds_self size key v h;
        before = λ j s lo hi e. holds-le-accepts key s (
            first.before j s (rw (length-set t i (some (key, v))) at lo) hi
              (sym (get_elem?-set_ne t i j (some (key, v)) (omega arith)) ∙ e));
      })

  pub slot_value-some :
      (s : Option (Slot V)) (k : List ℕ) (v : V) → s ≡ some (some (k, v)) → slot_value s ≡ some v
  unfolding slot_value
  slot_value-some s k v e = rw e

  pub search-write :
      (size : ℕ) (t : Table V) (key : List ℕ) (v : V) (i : ℕ)
      → IsKey size key
      → find (accepts key) key t ≡ some i
      → search (set t i (some (key, v))) key ≡ some v
  search-write size t key v i h f =
      search-find (set t i (some (key, v))) key i (find-write size t key v i h f)
      ∙ slot_value-some (get_elem? (set t i (some (key, v))) i) key v (
          get_elem?-set_self t i (some (key, v))
            (lt_of_get_elem? t i (find-First (accepts key) key t i f).here))

  -- Where no slot holds the key, a search finds nothing.
  pub search-nowhere :
      (t : Table V) (key : List ℕ)
      → ((j : ℕ) (s : Slot V) → get_elem? t j ≡ some s → holds key s ≡ false)
      → search t key ≡ none
  search-nowhere t key h = search-absent t key absent
    where
      absent : find (holds key) key t ≡ none
      absent =
          unfold find in
          probe-none (holds key) (length t - start key (length t)) (start key (length t)) t
            (λ j s lo e. h j s e)

  empty_slot : (n : ℕ) (j : ℕ) (s : Slot V) → get_elem? (replicate n none) j ≡ some s → s ≡ none
  empty_slot zero j s e = absurd (ground arith)
  empty_slot (suc n) zero s e = ground arith
  empty_slot (suc n) (suc j) s e = empty_slot n j s e

  search-allocated : (t : Table V) (key : List ℕ) → search (allocated t) key ≡ search t key
  unfolding allocated
  search-allocated [] key =
      search-nowhere (replicate 16 none) key
        (λ j s e. rw (empty_slot 16 j s e) (unfold holds in refl))
      ∙ sym (search-nowhere [] key (λ j s e. absurd (ground arith)))
  search-allocated (s ∷ t) key = refl

  WellKeyed-allocated : (size : ℕ) (t : Table V) → WellKeyed size t → WellKeyed size (allocated t)
  unfolding allocated
  WellKeyed-allocated size [] w j k v e = absurd (ground (arith, empty_slot 16 j (some (k, v)) e))
  WellKeyed-allocated size (s ∷ t) w j k v e = w j k v e

  pub push-fits :
      (fuel : ℕ) (t : Table V) (key : List ℕ) (v : V) (i : ℕ)
      → find (accepts key) key (allocated t) ≡ some i
      → push_calls (suc fuel) t key v ≡ some (set (allocated t) i (some (key, v)))
  unfolding push_calls
  push-fits fuel t key v i f = rw (f, push_calls)

  -- Where the probed part of the table has an empty slot or the key itself, `hash_table_push` puts
  -- the entry there without expanding the table: a search for the key then finds the value, and a
  -- search for any other key finds what it found before.
  pub search-push :
      (size fuel : ℕ) (t : Table V) (key : List ℕ) (v : V) (i : ℕ)
      → WellKeyed size t
      → IsKey size key
      → find (accepts key) key (allocated t) ≡ some i
      → (t' : Table V) × (push_calls (suc fuel) t key v ≡ some t')
        × (search t' key ≡ some v)
        × ((other : List ℕ) → IsKey size other → other ≢ key → search t' other ≡ search t other)
  search-push size fuel t key v i w h f =
      let t₁ : Table V = allocated t in
      let first : First (accepts key) t₁ (start key (length t₁)) i =
        find-First (accepts key) key t₁ i f in
      (
        set t₁ i (some (key, v)),
        push-fits fuel t key v i f,
        search-write size t₁ key v i h f,
        λ other h' ne.
            search-set other i t₁ first.slot (some (key, v)) first.here
              (accepts-other size key other first.slot
                (λ k u e. WellKeyed-allocated size t w i k u (first.here ∙ ap some e)) h h' ne
                first.passes)
              (holds-other size key other v h h' ne)
            ∙ search-allocated t other,
      )
