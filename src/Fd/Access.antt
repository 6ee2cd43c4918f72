-- ===== src/Fd/Access.antt =====
-- Permissions: `stat_has_access`, `stat_chmod` and `syscall_umask` of kernel/fs/fd.c.
pub mod Rights
use pastoral.Base.{
  ℕ, zero, suc, ◌+◌, ◌-◌, ◌%◌, ◌^◌, ◌<◌, ◌≤◌, ◌≡◌, ◌≢◌, refl, ◌⊎◌, inl, inr, Bool, true, false, not,
  ◌&&◌, ◌||◌, ◌==◌, if◌then◌else◌, bit, bit_and, bit_or, bit-bit_or, bit-bit_and, bit-lt_two, min,
  max, arith, Bool-cases, ◌∙◌, ap, bit-zero,
}
use pastoral.Process.{Reply, ret, fail, eperm, Creds}
use pastoral.Fd.{Stat}

abbrev pub r_ok : ℕ
r_ok = 2

abbrev pub w_ok : ℕ
w_ok = 4

abbrev pub x_ok : ℕ
x_ok = 8

-- `if(mode & ok) mask |= bits`
unfoldable pub with_right : ℕ → ℕ → ℕ → ℕ → ℕ
with_right mode ok bits mask = if bit_and mode ok == 0 then mask else bit_or mask bits

-- The mask that `mode` asks for, from the bits for reading, writing and execution.
unfoldable pub mask_of : ℕ → ℕ → ℕ → ℕ → ℕ
mask_of mode r w x = with_right mode x_ok x (with_right mode w_ok w (with_right mode r_ok r 0))

unfoldable pub covers : ℕ → ℕ → Bool
covers st_mode mask = bit_and st_mode mask == mask

-- `stat_has_access(...) != -1`
unfoldable pub stat_has_access : Stat → ℕ → ℕ → ℕ → Bool
stat_has_access s uid gid mode =
    if uid == 0
    then true
    else if s.st_uid == uid
    then covers s.st_mode (mask_of mode 256 128 64)
    else if s.st_gid == gid
    then covers s.st_mode (mask_of mode 32 16 8)
    else covers s.st_mode (mask_of mode 4 2 1)

-- `S_IRWXU | S_IRWXG | S_IRWXO | S_ISUID | S_ISGID | S_ISVTX`
abbrev pub mode_bits : ℕ
mode_bits = 4095

unfoldable pub stat_chmod : ℕ → Creds → Stat → Reply × Stat
stat_chmod mode c s =
    if not (c.effective_uid == s.st_uid) && not (c.effective_uid == 0)
    then (fail eperm, s)
    else (ret 0, record s { st_mode = bit_or s.st_mode (bit_and mode mode_bits) })

-- `syscall_umask`: the old mask is returned.
unfoldable pub umask : ℕ → ℕ → Reply × ℕ
umask rdi old = (ret old, bit_and rdi 511)

-- The end of `fd_fchownat`, on the node that has been found; -1 leaves an id as it is.
unfoldable pub chown_stat : ℕ → ℕ → Stat → Stat
chown_stat uid gid s =
    let s₁ : Stat = if uid == 2 ^ 32 - 1 then s else record s { st_uid = uid } in
    if gid == 2 ^ 32 - 1 then s₁ else record s₁ { st_gid = gid }
