-- ===== src/Vfs/Calls/Open.antt =====
-- `fd_openat` of kernel/fs/fd.c up to the node that is opened, and `ramfs_create`.
use pastoral.Base.{
  ℕ, zero, suc, ◌+◌, true, false, not, ◌&&◌, Option, none, some, List, [], ◌∷◌, length, get_elem?,
  ltb, ◌==◌, if◌then◌else◌, ◌>>=◌, bit_and, bit_or, complement,
}
use pastoral.Process.{
  Reply, ret, fail, minus_one, eacces, eexist, einval, eisdir, enametoolong, enoent,
}
use pastoral.Fd.{Stat, is_kind, s_ifdir, o_accmode, o_rdonly, o_wronly, o_rdwr}
use pastoral.Fd.Access.{stat_has_access, x_ok, r_ok, w_ok, mode_bits}
use pastoral.Vfs.{Vfs, stat_of, vfs_search_absolute, slash}
use pastoral.Vfs.Create.{vfs_default_asset, vfs_create_node}
use pastoral.Vfs.Calls.{Caller, tests, user_dir_lookup, put_stat}

abbrev pub o_creat : ℕ
o_creat = 0x10

abbrev pub o_directory : ℕ
o_directory = 0x20

abbrev pub o_excl : ℕ
o_excl = 0x40

abbrev pub o_trunc : ℕ
o_trunc = 0x200

-- `find_last_char` from index `i` on: twice the first index of the byte, 0 if there is none.
unfoldable pub find_last_char : ℕ → ℕ → List ℕ → ℕ
find_last_char c i [] = 0
find_last_char c i (d ∷ s) = let rest = find_last_char c (i + 1) s in if d == c then i + i else rest

-- `path + n`; `none` behind the terminator.
unfoldable pub tail_from : ℕ → List ℕ → Option (List ℕ)
tail_from zero s = some s
tail_from (suc n) [] = none
tail_from (suc n) (c ∷ s) = tail_from n s

-- `ramfs_create`, without the inode and its buffer.
unfoldable pub ramfs_create : ℕ → List ℕ → ℕ → Vfs → Option (ℕ × Vfs)
unfolding vfs_create_node vfs_default_asset
ramfs_create parent name mode v =
    let (asset, v₁) = vfs_default_asset mode v in
    do p ← get_elem? v.nodes parent; vfs_create_node (some parent) asset p.filesystem name false v₁

-- What the access mode of `flags` asks for; `none` is EINVAL.
unfoldable pub access_of : ℕ → Option ℕ
access_of flags =
    let mode = bit_and flags o_accmode in
    if mode == o_rdonly
    then some r_ok
    else if mode == o_wronly
    then some w_ok
    else if mode == o_rdwr
    then some (bit_or r_ok w_ok)
    else none

-- The ids of a new file: the effective group id goes to `st_uid` unless the directory has S_ISGID.
unfoldable pub own_file : Caller → Stat → Stat → Stat
own_file c directory s =
    let s₁ : Stat = record s { st_uid = c.creds.effective_uid } in
    if tests directory.st_mode 0x400
    then record s₁ { st_gid = directory.st_gid }
    else record s₁ { st_uid = c.creds.effective_gid }

-- The branch of O_CREAT for a path that leads to no node.
unfoldable pub create_file : ℕ → List ℕ → ℕ → Caller → Vfs → Option (Reply × Vfs)
unfolding stat_has_access ramfs_create own_file find_last_char tail_from put_stat
create_file dir path mode c v = do
  d ← get_elem? v.nodes dir
  stat ← stat_of v d
  if not (stat_has_access stat c.creds.effective_uid c.creds.effective_gid (bit_or w_ok x_ok))
      then some (fail eacces, v)
      else (do
        name ← tail_from (find_last_char slash 0 path) path
        (i, v₁) ← ramfs_create dir name (bit_or 0x8000 (bit_and mode (complement 32 c.umask))) v
        v₂ ← put_stat i (own_file c stat) v₁
        some (ret i, v₂))

-- The checks on the node that was found or made.
unfoldable pub open_node : ℕ → ℕ → ℕ → Caller → Vfs → Option (Reply × Vfs)
unfolding stat_has_access
open_node i flags access c v = do
  n ← get_elem? v.nodes i
  stat ← stat_of v n
  if not (tests flags o_directory) && is_kind s_ifdir stat
      then some (fail eisdir, v)
      else if not (stat_has_access stat c.creds.effective_uid c.creds.effective_gid access)
      then some (fail eacces, v)
      else some (ret i, v)

-- `fd_openat` up to the node.
unfoldable pub fd_openat_node : ℕ → ℕ → List ℕ → ℕ → ℕ → Caller → Vfs → Option (Reply × Vfs)
unfolding access_of user_dir_lookup vfs_search_absolute create_file open_node
fd_openat_node fuel dirfd path flags₀ mode₀ c v =
    let mode = bit_and mode₀ mode_bits in
    let flags = if bit_and flags₀ o_accmode == 0 then bit_or flags₀ o_rdonly else flags₀ in
    if ltb 4096 (length path) then some (fail enametoolong, v) else elim (access_of flags) [
      | none ↦ some (fail einval, v)
      | some access ↦
          if tests flags o_trunc && not (tests access w_ok)
          then some (fail einval, v)
          else elim (user_dir_lookup dirfd path c v) [
            | fail e ↦ some (fail e, v)
            | minus_one ↦ some (minus_one, v)
            | ret dir ↦ (do
              found ← vfs_search_absolute fuel v (some dir) path true
              elim found [
                | none ↦
                    if tests flags o_creat
                    then (do
                      (reply, v') ← create_file dir path mode c v
                      elim reply [
                        | ret i ↦ open_node i flags access c v'
                        | fail e ↦ some (fail e, v')
                        | minus_one ↦ some (minus_one, v')
                      ])
                    else some (fail enoent, v)
                | some i ↦
                    if tests flags o_creat && tests flags o_excl
                    then some (fail eexist, v)
                    else open_node i flags access c v
              ])
          ]
    ]
