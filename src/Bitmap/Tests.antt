-- ===== src/Bitmap/Tests.antt =====
-- Runs of the bitmap, and its theorems at small maps.
use pastoral.Base.{ℕ, zero, suc, ◌≡◌, refl, [], ◌∷◌, none, some, true, false, ◌>>=◌, arith, bit}
use pastoral.Bitmap.{Bitmap, init, alloc, get_bit}
use pastoral.Bitmap.Scan.{Used}
use pastoral.Bitmap.Alloc.{Allocated, alloc-Allocated}

abbrev empty : Bitmap
empty = record { data_bytes = []; size = 0; resizable = true }

-- 16 indices, of which 0 to 7 are in use
abbrev half : Bitmap
half = record { data_bytes = 255 ∷ 0 ∷ []; size = 2; resizable = true }

abbrev fixed : Bitmap
fixed = record { data_bytes = 255 ∷ 255 ∷ []; size = 2; resizable = false }

first_index : (alloc empty >>= λ r. r.0) ≡ some 0
unfolding alloc bit
first_index = refl

grown_size : (alloc empty >>= λ r. some r.1.size) ≡ some 0x200
unfolding alloc bit
grown_size = refl

alloc-fixed : alloc fixed ≡ some (none, fixed)
unfolding alloc bit
alloc-fixed = refl

-- `bitmap_init` takes a number of bits, and `bitmap_alloc` a number of bytes.
init-alloc_out_of_bounds : (alloc (record (init false 8) { data_bytes = 255 ∷ [] })) ≡ none
unfolding init alloc bit
init-alloc_out_of_bounds = refl

Used-half : Used half.data_bytes 0 8
unfolding get_bit bit
Used-half zero lo hi = refl
Used-half (suc zero) lo hi = refl
Used-half (suc (suc zero)) lo hi = refl
Used-half (suc (suc (suc zero))) lo hi = refl
Used-half (suc (suc (suc (suc zero)))) lo hi = refl
Used-half (suc (suc (suc (suc (suc zero))))) lo hi = refl
Used-half (suc (suc (suc (suc (suc (suc zero)))))) lo hi = refl
Used-half (suc (suc (suc (suc (suc (suc (suc zero))))))) lo hi = refl
Used-half (suc (suc (suc (suc (suc (suc (suc (suc j)))))))) lo hi = absurd (omega arith)

alloc-Allocated_example :
    (i : ℕ) × (b' : Bitmap) × (alloc half ≡ some (some i, b')) × Allocated half i b'
alloc-Allocated_example = alloc-Allocated half (record { bytes = refl }) refl

abbrev nine_used : Bitmap
nine_used = record { data_bytes = 255 ∷ 1 ∷ []; size = 2; resizable = true }

alloc-half : alloc half ≡ some (some 8, nine_used)
unfolding alloc bit
alloc-half = refl
