-- ===== src/Vfs/Subpaths.antt =====
-- A path is split at its slashes.
use pastoral.Base.{
  ℕ, zero, suc, ◌≤◌, ◌≡◌, ◌≢◌, refl, false, some, List, [], ◌∷◌, ◌++◌, length, length-append, ◌==◌,
  arith, Bool-cases, inl, inr,
}
use pastoral.Vfs.{slash, skip_slashes, subpath, behind_subpath, subpaths_from, subpaths}

length-skip_slashes : (s : List ℕ) → length (skip_slashes s) ≤ length s
unfolding skip_slashes
length-skip_slashes [] = omega arith
length-skip_slashes (c ∷ s) = ground (arith, length-skip_slashes s)

length-behind_subpath : (s : List ℕ) → length (behind_subpath s) ≤ length s
unfolding behind_subpath
length-behind_subpath [] = omega arith
length-behind_subpath (c ∷ s) = ground (arith, length-behind_subpath s)

-- No name of a list is empty or has a slash in it.
abbrev pub HasNoSlash : List ℕ → Type 0
HasNoSlash [] = Unit {0}
HasNoSlash (c ∷ s) = (c ≢ slash) × HasNoSlash s

abbrev pub AreNames : List (List ℕ) → Type 0
AreNames [] = Unit {0}
AreNames (name ∷ names) = (1 ≤ length name) × HasNoSlash name × AreNames names

subpath-HasNoSlash : (s : List ℕ) → HasNoSlash (subpath s)
unfolding subpath
subpath-HasNoSlash [] = tt
subpath-HasNoSlash (c ∷ s) = elim (Bool-cases (c == slash)) [
  | inl e ↦ rw e tt
  | inr e ↦ rw e (λ same. ground (arith, same), subpath-HasNoSlash s)
]

-- What `skip_slashes` leaves does not begin with a slash.
abbrev Starts : List ℕ → Type 0
Starts [] = Unit {0}
Starts (c ∷ s) = c ≢ slash

skip_slashes-Starts : (s : List ℕ) → Starts (skip_slashes s)
unfolding skip_slashes
skip_slashes-Starts [] = tt
skip_slashes-Starts (c ∷ s) = elim (Bool-cases (c == slash)) [
  | inl e ↦ rw e (skip_slashes-Starts s)
  | inr e ↦ rw e (λ same. ground (arith, same))
]

subpaths_from-total :
    (fuel : ℕ) (s : List ℕ)
    → length s ≤ fuel
    → Starts s
    → (names : List (List ℕ)) × (subpaths_from fuel s ≡ some names) × AreNames names
unfolding subpaths_from subpath behind_subpath
subpaths_from-total fuel [] h st = ([], refl, tt)
subpaths_from-total zero (c ∷ s) h st = absurd (omega arith)
subpaths_from-total (suc fuel) (c ∷ s) h st =
    let differs : (c == slash) ≡ false = ground arith in
    let rest : List ℕ = skip_slashes (behind_subpath (c ∷ s)) in
    let shorter : length (behind_subpath (c ∷ s)) ≤ length s =
      rw differs (length-behind_subpath s) in
    let (names, e, ok) =
      subpaths_from-total fuel rest
        (omega (arith, length-skip_slashes (behind_subpath (c ∷ s)), shorter))
        (skip_slashes-Starts (behind_subpath (c ∷ s))) in
    (subpath (c ∷ s) ∷ names, rw e refl, (rw differs (omega arith), subpath-HasNoSlash (c ∷ s), ok))

-- The loop that splits a path ends within as many rounds as the path has bytes, and every name that it
-- finds has a byte at least and no slash.
pub subpaths-total :
    (path : List ℕ) → (names : List (List ℕ)) × (subpaths path ≡ some names) × AreNames names
unfolding subpaths
subpaths-total path =
    subpaths_from-total (length path) (skip_slashes path) (length-skip_slashes path)
      (skip_slashes-Starts path)

-- The names with a slash before each.
abbrev pub join : List (List ℕ) → List ℕ
join [] = []
join (name ∷ names) = slash ∷ name ++ join names

subpath-join :
    (name : List ℕ) (names : List (List ℕ))
    → HasNoSlash name
    → (subpath (name ++ join names) ≡ name) × (behind_subpath (name ++ join names) ≡ join names)
unfolding subpath behind_subpath
subpath-join [] [] h = (refl, refl)
subpath-join [] (next ∷ names) h = (refl, refl)
subpath-join (c ∷ name) names (differs, h) =
    let (e, f) = subpath-join name names h in
    let no_slash : (c == slash) ≡ false = ground arith in (rw (no_slash, e) refl, rw no_slash f)

skip_slashes-name :
    (name s : List ℕ)
    → 1 ≤ length name
    → HasNoSlash name
    → skip_slashes (slash ∷ name ++ s) ≡ name ++ s
unfolding skip_slashes
skip_slashes-name [] s pos h = absurd (omega arith)
skip_slashes-name (c ∷ name) s pos (differs, h) =
    let no_slash : (c == slash) ≡ false = ground arith in rw no_slash refl

subpaths_from-join :
    (fuel : ℕ) (names : List (List ℕ))
    → length names ≤ fuel
    → AreNames names
    → subpaths_from fuel (skip_slashes (join names)) ≡ some names
unfolding subpaths_from
subpaths_from-join fuel [] h ok = unfold skip_slashes in refl
subpaths_from-join zero (name ∷ names) h ok = absurd (omega arith)
subpaths_from-join (suc fuel) ([] ∷ names) h (pos, clean, ok) = absurd (omega arith)
subpaths_from-join (suc fuel) ((c ∷ name) ∷ names) h (pos, clean, ok) =
    let (e, f) = subpath-join (c ∷ name) names clean in
    rw
      (
        skip_slashes-name (c ∷ name) (join names) pos clean,
        subpaths_from,
        e,
        f,
        subpaths_from-join fuel names (omega arith) ok,
      )
      refl

length-join : (names : List (List ℕ)) → length names ≤ length (join names)
length-join [] = omega arith
length-join (name ∷ names) = omega (arith, length-append name (join names), length-join names)

-- Names that have a byte at least and no slash are what the path that joins them is split into.
pub subpaths-join : (names : List (List ℕ)) → AreNames names → subpaths (join names) ≡ some names
unfolding subpaths
subpaths-join names ok = subpaths_from-join (length (join names)) names (length-join names) ok
