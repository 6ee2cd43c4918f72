-- ===== src/Hash/Tests.antt =====
-- Runs of the hash table, and its theorems at small tables.
use pastoral.Base.{ℕ, zero, suc, ◌≡◌, ◌≢◌, refl, List, [], ◌∷◌, none, some, ◌>>=◌, arith}
use pastoral.Hash.{
  Table, fnv_hash, start, find, same_key, holds, accepts, search, allocated, push_calls, delete,
}
use pastoral.Hash.Probe.{IsKey}
use pastoral.Hash.Push.{WellKeyed, search-push}
use pastoral.Hash.Delete.{IsUnique, search-delete}
use pastoral.Hash.Stale.{search-delete-push_stale}

abbrev key_a : List ℕ
key_a = b'a' ∷ []

abbrev key_e : List ℕ
key_e = b'e' ∷ []

abbrev key_i : List ℕ
key_i = b'i' ∷ []

-- The published 64-bit FNV-1a value of "a".
fnv_hash_a : fnv_hash key_a ≡ 0xaf63dc4c8601ec8c
unfolding fnv_hash
fnv_hash_a = refl

-- All three keys start at index 0 of a table of 4.
abbrev full : Table ℕ
full = some (key_a, 1) ∷ some (key_e, 2) ∷ none ∷ none ∷ []

abbrev gap : Table ℕ
gap = none ∷ some (key_e, 2) ∷ none ∷ none ∷ []

delete-full : delete full key_a ≡ gap
unfolding delete start same_key
delete-full = refl

abbrev crowded : Table ℕ
crowded = some (key_a, 1) ∷ some (key_e, 2) ∷ some (key_i, 3) ∷ some (b'm' ∷ [], 4) ∷ []

-- Four colliding keys fit; the fifth doubles the table.
crowded_expands : (push_calls 3 crowded (b'q' ∷ []) 5 >>= λ t. search t key_i) ≡ some 3
unfolding push_calls search start same_key
crowded_expands = refl

gap-WellKeyed : WellKeyed 1 gap
gap-WellKeyed zero k v e = absurd (ground arith)
gap-WellKeyed (suc zero) k v e = ground arith
gap-WellKeyed (suc (suc zero)) k v e = absurd (ground arith)
gap-WellKeyed (suc (suc (suc zero))) k v e = absurd (ground arith)
gap-WellKeyed (suc (suc (suc (suc j)))) k v e = absurd (ground arith)

key_e-IsKey : IsKey 1 key_e
key_e-IsKey = omega arith

search-push_example :
    (t' : Table ℕ) × (push_calls 1 gap key_i 7 ≡ some t')
    × (search t' key_i ≡ some 7)
    × ((other : List ℕ) → IsKey 1 other → other ≢ key_i → search t' other ≡ search gap other)
search-push_example = search-push 1 0 gap key_i 7 0 gap-WellKeyed (omega arith) room
  where
    room : find (accepts key_i) key_i (allocated gap) ≡ some 0
    room = unfold allocated find accepts start in refl

search-delete_example :
    ((other : List ℕ)
      → IsKey 1 other
      → other ≢ key_e
      → search (delete gap key_e) other ≡ search gap other)
    × (IsUnique key_e gap → search (delete gap key_e) key_e ≡ none)
search-delete_example = search-delete 1 gap key_e gap-WellKeyed key_e-IsKey

search-delete-push_stale_example :
    (t' : Table ℕ) × (push_calls 1 gap key_e 9 ≡ some t')
    × (search t' key_e ≡ some 9)
    × (search (delete t' key_e) key_e ≡ some 2)
unfolding allocated find holds accepts start same_key
search-delete-push_stale_example =
    search-delete-push_stale 1 0 gap key_e 2 9 0 1 gap-WellKeyed key_e-IsKey refl refl refl refl
      (omega arith)
