-- ===== src/Hash.antt =====
-- kernel/lib/hash.c: open addressing from the hashed index to the end of the table, without going
-- round.
pub mod Probe
pub mod Push
pub mod Delete
pub mod Stale
mod Tests
use pastoral.Base.{
  ℕ, zero, suc, ◌+◌, ◌-◌, ◌*◌, ◌%◌, ◌^◌, Bool, true, false, Option, none, some, List, [], ◌∷◌, ltb,
  ◌==◌, if◌then◌else◌, bit_and, bit_xor, ◌>>=◌, length, get_elem?, set, replicate, ℤ, pos, negsuc,
}
use pastoral.Text.{memcmp}

-- A key is the memory that a key pointer leads to. Where `keys[i]` is NULL the slot is empty;
-- else it pairs the key with `data[i]`.
abbrev pub Slot : Type 0 → Type 0
Slot V = Option (List ℕ × V)

-- `struct hash_table`; `capacity` is the length, and 0 before the first push.
abbrev pub Table : Type 0 → Type 0
Table V = List (Slot V)

-- `hash ^= *(data + i)` extends a signed `char` to 64 bits.
abbrev pub sign_extend : ℕ → ℕ
sign_extend c = if ltb c 128 then c else c + (2 ^ 64 - 256)

unfoldable pub fnv_from : ℕ → List ℕ → ℕ
fnv_from hash [] = hash
fnv_from hash (c ∷ bytes) = fnv_from ((bit_xor hash (sign_extend c) * 0x100000001b3) % 2 ^ 64) bytes

unfoldable pub fnv_hash : List ℕ → ℕ
unfolding fnv_from
fnv_hash bytes = fnv_from 0xcbf29ce484222325 bytes

-- `hash & (table->capacity - 1)`
unfoldable pub start : List ℕ → ℕ → ℕ
unfolding fnv_hash
start key capacity = bit_and (fnv_hash key) (capacity - 1)

is_zero : ℤ → Bool
is_zero (pos zero) = true
is_zero (pos (suc n)) = false
is_zero (negsuc n) = false

-- `memcmp(keys[i], key, key_size) == 0`; every key of a table has `key_size` bytes.
unfoldable pub same_key : List ℕ → List ℕ → Bool
unfolding is_zero memcmp
same_key k key = is_zero (memcmp k key (length key))

module _ {V : Type 0} where
  -- `keys[i] != NULL && memcmp(keys[i], key, key_size) == 0`
  unfoldable pub holds : List ℕ → Slot V → Bool
  holds key none = false
  holds key (some (k, v)) = same_key k key

  -- `keys[i] == NULL || memcmp(keys[i], key, key_size) == 0`
  unfoldable pub accepts : List ℕ → Slot V → Bool
  accepts key none = true
  accepts key (some (k, v)) = same_key k key

  -- `for(; index < capacity; index++)` with a test on the slot: the first index that passes. `n`
  -- rounds are left.
  unfoldable pub probe : (Slot V → Bool) → ℕ → ℕ → Table V → Option ℕ
  probe test zero index t = none
  probe test (suc n) index t =
      let rest = probe test n (index + 1) t in
      elim (get_elem? t index) [ none ↦ none | some slot ↦ if test slot then some index else rest ]

  unfoldable pub find : (Slot V → Bool) → List ℕ → Table V → Option ℕ
  unfolding probe
  find test key t = let i = start key (length t) in probe test (length t - i) i t

  unfoldable pub slot_value : Option (Slot V) → Option V
  slot_value (some (some (k, v))) = some v
  slot_value _ = none

  unfoldable pub search : Table V → List ℕ → Option V
  unfolding find holds slot_value
  search t key = find (holds key) key t >>= λ i. slot_value (get_elem? t i)

  -- The first push allocates 16 zeroed slots.
  unfoldable pub allocated : Table V → Table V
  allocated [] = replicate 16 none
  allocated (s ∷ t) = s ∷ t

  -- The loop that pushes every entry of the old table to the expanded one, by `push`.
  unfoldable pub refill :
      (Table V → List ℕ → V → Option (Table V)) → Table V → Table V → Option (Table V)
  refill push [] expanded = some expanded
  refill push (none ∷ slots) expanded = refill push slots expanded
  refill push (some (k, v) ∷ slots) expanded = push expanded k v >>= refill push slots

  -- `hash_table_push` calls itself to fill the expanded table and once more for its own entry.
  -- `fuel` bounds the depth of these calls; `none` is fuel that ran out.
  unfoldable pub push_calls : ℕ → Table V → List ℕ → V → Option (Table V)
  unfolding find accepts allocated refill
  push_calls zero t₀ key value = none
  push_calls (suc fuel) t₀ key value =
      let t = allocated t₀ in
      elim (find (accepts key) key t) [
        | some i ↦ some (set t i (some (key, value)))
        | none ↦ refill (push_calls fuel) t (replicate (length t * 2) none) >>= λ expanded.
            push_calls fuel expanded key value
      ]

  unfoldable pub delete : Table V → List ℕ → Table V
  unfolding find holds
  delete t key = elim (find (holds key) key t) [ none ↦ t | some i ↦ set t i none ]
