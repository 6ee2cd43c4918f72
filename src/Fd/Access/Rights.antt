-- ===== src/Fd/Access/Rights.antt =====
-- `stat_has_access` and `stat_chmod` against the bits of a mode.
use pastoral.Base.{
  ℕ, ◌+◌, ◌^◌, ◌<◌, ◌≡◌, ◌≢◌, refl, ◌⊎◌, inl, inr, ◌↔◌, true, false, ◌==◌, if◌then◌else◌, bit,
  bit_and, bit-bit_or, bit-bit_and, bit-lt_two, min, max, arith, Bool-cases, ◌∙◌, ap, sym, bit-zero,
  bit-pow, eq_of_bits, bit_and-pow, bit_and-le,
}
use pastoral.Process.{ret, fail, eperm, Creds}
use pastoral.Fd.{Stat}
use pastoral.Fd.Access.{mask_of, with_right, covers, stat_has_access, stat_chmod, mode_bits}

covers-bits :
    (x m : ℕ)
    → x < 2 ^ 32
    → m < 2 ^ 32
    → (covers x m ≡ true) ↔ ((i : ℕ) → bit m i ≡ 1 → bit x i ≡ 1)
unfolding covers
covers-bits x m h k = (
  λ e i one. ground (arith, bit-bit_and i x m, bit-lt_two i x, ap (λ (t : ℕ). bit t i) (equal e)),
  λ all. ground (
    arith,
    eq_of_bits 32 (bit_and x m) m (omega (arith, bit_and-le x m)) k
        (λ i. ground (arith, bit-bit_and i x m, bit-lt_two i x, bit-lt_two i m, all i)),
  ),
)
  where
    equal : (bit_and x m == m) ≡ true → bit_and x m ≡ m
    equal e = ground arith

-- The bit `i` of the mask for the class whose execution bit is number `c`.
abbrev requested : ℕ → ℕ → ℕ → ℕ
requested mode c i =
    if i == c + 2
    then bit mode 1
    else if i == c + 1
    then bit mode 2
    else if i == c
    then bit mode 3
    else 0

with_right-bits :
    (mode k j mask i : ℕ)
    → mode < 2 ^ 32
    → bit (with_right mode (2 ^ k) (2 ^ j) mask) i
      ≡ max (bit mask i) (if i == j then bit mode k else 0)
unfolding with_right
with_right-bits mode k j mask i h = elim (Bool-cases (bit mode k == 0)) [
  | inl z ↦
      let off : (bit_and mode (2 ^ k) == 0) ≡ true = bit_and-pow mode k (omega arith) ∙ z in
      rw off (ground arith)
  | inr z ↦
      let on : (bit_and mode (2 ^ k) == 0) ≡ false = bit_and-pow mode k (omega arith) ∙ z in
      rw on (
        ground
          (arith, bit-bit_or i mask (2 ^ j), bit-pow i j, bit-lt_two k mode, bit-lt_two i mask))
]

mask_of-bits :
    (mode c i : ℕ)
    → mode < 2 ^ 32
    → bit (mask_of mode (2 ^ (c + 2)) (2 ^ (c + 1)) (2 ^ c)) i ≡ requested mode c i
unfolding mask_of
mask_of-bits mode c i h =
    let m₁ : ℕ = with_right mode 2 (2 ^ (c + 2)) 0 in
    let m₂ : ℕ = with_right mode 4 (2 ^ (c + 1)) m₁ in
    ground (
      arith,
      with_right-bits mode 3 c m₂ i h,
      with_right-bits mode 2 (c + 1) m₁ i h,
      with_right-bits mode 1 (c + 2) 0 i h,
      bit-zero i,
    )

-- The execution bit of the class of a user: owner, group or others.
abbrev pub class : Stat → ℕ → ℕ → ℕ
class s uid gid = if s.st_uid == uid then 6 else if s.st_gid == gid then 3 else 0

-- Every right that `mode` asks for is one that the mode of the file gives to the class.
abbrev pub Granted : Stat → ℕ → ℕ → Type 0
Granted s c mode =
    (bit mode 1 ≡ 1 → bit s.st_mode (c + 2) ≡ 1)
    × (bit mode 2 ≡ 1 → bit s.st_mode (c + 1) ≡ 1)
    × (bit mode 3 ≡ 1 → bit s.st_mode c ≡ 1)

mask_of-lt :
    (mode : ℕ)
    → (mask_of mode 256 128 64 < 512) × (mask_of mode 32 16 8 < 512) × (mask_of mode 4 2 1 < 512)
unfolding mask_of with_right
mask_of-lt mode = (ground arith, ground arith, ground arith)

covers-Granted :
    (s : Stat) (mode c : ℕ)
    → s.st_mode < 2 ^ 32
    → mode < 2 ^ 32
    → mask_of mode (2 ^ (c + 2)) (2 ^ (c + 1)) (2 ^ c) < 512
    → (covers s.st_mode (mask_of mode (2 ^ (c + 2)) (2 ^ (c + 1)) (2 ^ c)) ≡ true)
      ↔ Granted s c mode
covers-Granted s mode c h k lt =
    let m : ℕ = mask_of mode (2 ^ (c + 2)) (2 ^ (c + 1)) (2 ^ c) in
    let (to, from) = covers-bits s.st_mode m h (omega arith) in
    (
      λ e. (
        λ r. to e (c + 2) (ground (arith, mask_of-bits mode c (c + 2) k)),
        λ w. to e (c + 1) (ground (arith, mask_of-bits mode c (c + 1) k)),
        λ x. to e c (ground (arith, mask_of-bits mode c c k)),
      ),
      λ (r, w, x). from (λ i one. ground (arith, mask_of-bits mode c i k)),
    )

access_class :
    (s : Stat) (uid gid mode : ℕ)
    → uid ≢ 0
    → stat_has_access s uid gid mode
      ≡ covers s.st_mode (
          mask_of mode
            (2 ^ (class s uid gid + 2))
            (2 ^ (class s uid gid + 1))
            (2 ^ class s uid gid))
unfolding stat_has_access
access_class s uid gid mode ne = elim (Bool-cases (s.st_uid == uid)) [
  | inl o ↦ let nz : (uid == 0) ≡ false = ground arith in rw (nz, o) refl
  | inr o ↦ elim (Bool-cases (s.st_gid == gid)) [
    | inl g ↦ let nz : (uid == 0) ≡ false = ground arith in rw (nz, o, g) refl
    | inr g ↦ let nz : (uid == 0) ≡ false = ground arith in rw (nz, o, g) refl
  ]
]

class_mask :
    (s : Stat) (uid gid mode : ℕ)
    → mask_of mode (2 ^ (class s uid gid + 2)) (2 ^ (class s uid gid + 1)) (2 ^ class s uid gid)
      < 512
class_mask s uid gid mode = elim (Bool-cases (s.st_uid == uid)) [
  | inl o ↦ rw o ((mask_of-lt mode).0)
  | inr o ↦ elim (Bool-cases (s.st_gid == gid)) [
    | inl g ↦ rw (o, g) ((mask_of-lt mode).1)
    | inr g ↦ rw (o, g) ((mask_of-lt mode).2)
  ]
]

-- `stat_has_access` lets root do anything, and another user exactly what the file's mode gives to
-- the owner, if he is the owner, else to the group, if he is in it, else to the others.
pub stat_has_access-Granted :
    (s : Stat) (uid gid mode : ℕ)
    → s.st_mode < 2 ^ 32
    → mode < 2 ^ 32
    → (uid ≡ 0 → stat_has_access s uid gid mode ≡ true)
      × (uid ≢ 0 → (stat_has_access s uid gid mode ≡ true) ↔ Granted s (class s uid gid) mode)
stat_has_access-Granted s uid gid mode h k = (
  λ z. unfold stat_has_access in rw z refl,
  λ ne.
      let (to, from) = covers-Granted s mode (class s uid gid) h k (class_mask s uid gid mode) in
      (
        λ e. to (sym (access_class s uid gid mode ne) ∙ e),
        λ g. access_class s uid gid mode ne ∙ from g,
      ),
)

-- `stat_chmod` by the owner or by root sets the bits of `mode` among the lower twelve and clears
-- none: a file never loses a right. Any other user gets EPERM, and the file keeps its mode.
pub stat_chmod-bits :
    (mode : ℕ) (c : Creds) (s : Stat)
    → let (r, s') = stat_chmod mode c s in
      ((c.effective_uid ≡ s.st_uid) ⊎ (c.effective_uid ≡ 0)
        → (r ≡ ret 0)
          × ((i : ℕ)
              → bit s'.st_mode i ≡ max (bit s.st_mode i) (min (bit mode i) (bit mode_bits i))))
      × (c.effective_uid ≢ s.st_uid → c.effective_uid ≢ 0 → (r ≡ fail eperm) × (s' ≡ s))
unfolding stat_chmod
stat_chmod-bits mode c s = (
  λ may. (
    ground arith,
    λ i.
        ground
          (arith, bit-bit_or i s.st_mode (bit_and mode mode_bits), bit-bit_and i mode mode_bits),
  ),
  λ no_owner no_root. (ground arith, ground arith),
)
