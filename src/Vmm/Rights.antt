-- ===== src/Vmm/Rights.antt =====
-- The flags of a page by the protection of its region.
use pastoral.Base.{
  ℕ, ◌-◌, ◌^◌, ◌<◌, ◌≤◌, ◌≡◌, refl, true, false, Bool, ◌==◌, if◌then◌else◌, arith, bit, bit_or,
  bit_and, complement, bit-bit_or, bit-bit_and, bit-complement, bit-pow, bit-lt_two,
}
use pastoral.Vmm.{has, flag_p, flag_nx, flag_rw, flag_us}
use pastoral.Vmm.Grow.{AreFlags}
use pastoral.Vmm.Fault.{region_flags}

-- The flags of a region, by the tests on its protection.
flags_by : Bool → Bool → Bool → ℕ
flags_by w u x =
    let start = bit_or flag_p flag_nx in
    let written = if w then bit_or start flag_rw else start in
    let used = if u then bit_or written flag_us else written in
    if x then bit_and used (complement 64 flag_nx) else used

-- What `map_page` needs of flags.
abbrev pub IsGood : ℕ → Type 0
IsGood f = AreFlags f × (has f 0 ≡ true) × (has f 7 ≡ false)

flags_by-IsGood : (w u x : Bool) → IsGood (flags_by w u x)
unfolding flags_by bit
flags_by-IsGood true true true = ((omega arith, omega arith), refl, refl)
flags_by-IsGood true true false = ((omega arith, omega arith), refl, refl)
flags_by-IsGood true false true = ((omega arith, omega arith), refl, refl)
flags_by-IsGood true false false = ((omega arith, omega arith), refl, refl)
flags_by-IsGood false true true = ((omega arith, omega arith), refl, refl)
flags_by-IsGood false true false = ((omega arith, omega arith), refl, refl)
flags_by-IsGood false false true = ((omega arith, omega arith), refl, refl)
flags_by-IsGood false false false = ((omega arith, omega arith), refl, refl)

pub region_flags-IsGood : (prot : ℕ) → IsGood (region_flags prot)
unfolding region_flags flags_by
region_flags-IsGood prot = flags_by-IsGood (has prot 1) (has prot 3) (has prot 2)

-- The flags that the protection of a region asks for: present, writable with MMAP_PROT_WRITE, for the
-- user with MMAP_PROT_USER, executable with MMAP_PROT_EXEC only, and nothing else.
pub record HasRights (prot flags : ℕ) : Type 0 where
  pub is_present : bit flags 0 ≡ 1
  pub writable : bit flags 1 ≡ bit prot 1
  pub for_user : bit flags 2 ≡ bit prot 3
  pub not_run : bit flags 63 ≡ 1 - bit prot 2
  pub nothing_else : (i : ℕ) → 3 ≤ i → i < 63 → bit flags i ≡ 0

set-bit : (i k e : ℕ) → bit (bit_or e (2 ^ k)) i ≡ (if i == k then 1 else bit e i)
set-bit i k e = ground (arith, bit-bit_or i e (2 ^ k), bit-pow i k, bit-lt_two i e)

clear-bit :
    (i e : ℕ)
    → i < 64
    → bit (bit_and e (complement 64 flag_nx)) i ≡ (if i == 63 then 0 else bit e i)
clear-bit i e lt = ground (
  arith,
  bit-bit_and i e (complement 64 flag_nx),
  bit-complement i 64 flag_nx lt (omega arith),
  bit-pow i 63,
  bit-lt_two i e,
)

start-bit :
    (i : ℕ) → bit (bit_or flag_p flag_nx) i ≡ (if i == 63 then 1 else (if i == 0 then 1 else 0))
start-bit i = ground (arith, set-bit i 63 flag_p, bit-pow i 0)

flags_by-bit :
    (w u x : Bool) (i : ℕ)
    → i < 64
    → bit (flags_by w u x) i ≡ (
        if i == 0
        then 1
        else (if i == 1
            then (if w then 1 else 0)
            else (if i == 2
                then (if u then 1 else 0)
                else (if i == 63 then (if x then 0 else 1) else 0))))
unfolding flags_by
flags_by-bit w u x i lt =
    let start : ℕ = bit_or flag_p flag_nx in
    let written : ℕ = if w then bit_or start flag_rw else start in
    let used : ℕ = if u then bit_or written flag_us else written in
    let from : bit start i ≡ (if i == 63 then 1 else (if i == 0 then 1 else 0)) = start-bit i in
    let one : bit written i ≡ (if w then (if i == 1 then 1 else bit start i) else bit start i) =
      ground (arith, set-bit i 1 start) in
    let two : bit used i ≡ (if u then (if i == 2 then 1 else bit written i) else bit written i) =
      ground (arith, set-bit i 2 written) in
    ground (arith, clear-bit i used lt, from, one, two)

region_flags-bit :
    (prot i : ℕ)
    → i < 64
    → bit (region_flags prot) i ≡ (
        if i == 0
        then 1
        else (if i == 1
            then bit prot 1
            else (if i == 2 then bit prot 3 else (if i == 63 then 1 - bit prot 2 else 0))))
unfolding region_flags flags_by
region_flags-bit prot i lt = ground (
  arith,
  flags_by-bit (has prot 1) (has prot 3) (has prot 2) i lt,
  bit-lt_two 1 prot,
  bit-lt_two 2 prot,
  bit-lt_two 3 prot,
)

pub region_flags-HasRights : (prot : ℕ) → HasRights prot (region_flags prot)
region_flags-HasRights prot = record {
  is_present = region_flags-bit prot 0 (omega arith);
  writable = region_flags-bit prot 1 (omega arith);
  for_user = region_flags-bit prot 2 (omega arith);
  not_run = region_flags-bit prot 63 (omega arith);
  nothing_else = λ i lo hi. ground (arith, region_flags-bit prot i (omega arith));
}
