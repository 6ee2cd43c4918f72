-- ===== src/Vfs/Calls.antt =====
-- The system calls of kernel/fs/fd.c that resolve a path.
pub mod Allowed
pub mod Open
pub mod Entries
use pastoral.Base.{
  ℕ, zero, suc, ◌+◌, ◌-◌, ◌^◌, Bool, true, false, not, ◌&&◌, ◌||◌, Option, none, some, List, [],
  ◌∷◌, ◌++◌, length, get_elem?, set, ltb, leb, ◌==◌, if◌then◌else◌, ◌>>=◌, bit_and, bit_or,
}
use pastoral.Process.{
  Reply, ret, fail, minus_one, eacces, ebadf, eexist, einval, eisdir, enametoolong, enoent, eperm,
  Creds,
}
use pastoral.Fd.{Stat, is_kind, s_ifdir, o_accmode, o_rdonly, o_wronly, o_rdwr}
use pastoral.Fd.Access.{stat_has_access, stat_chmod, chown_stat, x_ok, r_ok, w_ok, mode_bits}
use pastoral.Vfs.{Vfs, VfsNode, stat_of, subpaths, vfs_search_relative, vfs_search_absolute, slash}
use pastoral.Vfs.Create.{vfs_default_asset, vfs_create_node, vfs_absolute_path}

-- What the calls read of the current task: its ids, directory and mask, and for a descriptor whether
-- it is open and the node it is open on.
pub record Caller : Type 0 where
  pub creds : Creds
  pub cwd : Option ℕ
  pub umask : ℕ
  pub open_node : ℕ → Option (Option ℕ)

abbrev pub at_fdcwd : ℕ
at_fdcwd = 0xffffff9c

abbrev pub at_empty_path : ℕ
at_empty_path = 1

abbrev pub at_symlink_nofollow : ℕ
at_symlink_nofollow = 4

abbrev pub at_eaccess : ℕ
at_eaccess = 512

-- `flags & flag` as a test
abbrev pub tests : ℕ → ℕ → Bool
tests flags flag = not (bit_and flags flag == 0)

-- `*path != '/'`
unfoldable pub is_relative : List ℕ → Bool
is_relative [] = true
is_relative (c ∷ path) = not (c == slash)

-- `dir == NULL ? vfs_root : dir`
abbrev pub node_or_root : Vfs → Option ℕ → ℕ
node_or_root v none = v.vfs_root
node_or_root v (some i) = i

-- A reply of a search: the node, or the error.
unfoldable pub user_dir_lookup : ℕ → List ℕ → Caller → Vfs → Reply
unfolding is_relative
user_dir_lookup dirfd path c v =
    if is_relative path
    then (if dirfd == at_fdcwd
        then ret (node_or_root v c.cwd)
        else elim (c.open_node dirfd) [ none ↦ fail ebadf | some n ↦ ret (node_or_root v n) ])
    else ret v.vfs_root

-- Whether the caller may search directory `i`.
unfoldable pub may_search : ℕ → Caller → Vfs → Option Bool
unfolding stat_has_access
may_search i c v = do
  n ← get_elem? v.nodes i
  stat ← stat_of v n
  some (stat_has_access stat c.creds.effective_uid c.creds.effective_gid x_ok)

-- The end of `user_lookup_at`: the last name in directory `parent`, and the access to its node.
unfoldable pub lookup_last : ℕ → ℕ → List ℕ → ℕ → ℕ → Caller → Vfs → Option Reply
unfolding may_search vfs_search_relative stat_has_access
lookup_last fuel parent name lookup_flags mode c v = do
  allowed ← may_search parent c v
  if not allowed then some (fail eacces) else (do
    found ← vfs_search_relative fuel v parent name (tests lookup_flags at_symlink_nofollow)
    elim found [
      | none ↦ some (fail enoent)
      | some i ↦ (do
        n ← get_elem? v.nodes i
        stat ← stat_of v n
        let effective = tests lookup_flags at_eaccess
        let uid = if effective then c.creds.effective_uid else c.creds.real_uid
        let gid = if effective then c.creds.effective_gid else c.creds.real_gid
        if stat_has_access stat uid gid mode then some (ret i) else some (fail eacces))
    ])

-- The loop of `user_lookup_at` over all names but the last, then the last.
unfoldable pub lookup_names : ℕ → ℕ → List ℕ → List (List ℕ) → ℕ → ℕ → Caller → Vfs → Option Reply
unfolding may_search vfs_search_relative lookup_last
lookup_names fuel parent name [] lookup_flags mode c v =
    lookup_last fuel parent name lookup_flags mode c v
lookup_names fuel parent name (next ∷ names) lookup_flags mode c v = do
  allowed ← may_search parent c v
  if not allowed then some (fail eacces) else (do
    found ← vfs_search_relative fuel v parent name true
    elim found [
      | none ↦ some (fail enoent)
      | some i ↦ (do
        n ← get_elem? v.nodes i
        lookup_names fuel (elim n.mountpoint [ none ↦ i | some m ↦ m ]) next names lookup_flags mode
            c v)
    ])

-- `path` is "/".
unfoldable pub is_root : List ℕ → Bool
is_root [] = false
is_root (c ∷ []) = c == slash
is_root (c ∷ d ∷ path) = false

-- `user_lookup_at`. A path without names makes the length of the list wrap, so that a name behind its
-- end is read once the caller may search the directory.
unfoldable pub user_lookup_at : ℕ → ℕ → List ℕ → ℕ → ℕ → Caller → Vfs → Option Reply
unfolding is_root user_dir_lookup lookup_names subpaths may_search
user_lookup_at fuel dirfd path lookup_flags mode c v =
    if is_root path then some (ret v.vfs_root) else elim (user_dir_lookup dirfd path c v) [
      | fail e ↦ some (fail e)
      | minus_one ↦ some minus_one
      | ret parent ↦ (do
        names ← subpaths path
        elim names [
          | [] ↦ (do allowed ← may_search parent c v; if allowed then none else some (fail eacces))
          | name ∷ rest ↦ lookup_names fuel parent name rest lookup_flags mode c v
        ])
    ]

-- `syscall_chdir`
unfoldable pub chdir : ℕ → List ℕ → Caller → Vfs → Option (Reply × Caller)
unfolding user_lookup_at
chdir fuel path c v = do
  reply ← user_lookup_at fuel at_fdcwd path 0 x_ok c v
  elim reply [
    | ret i ↦ some (ret 0, record c { cwd = some i })
    | fail e ↦ some (fail e, c)
    | minus_one ↦ some (minus_one, c)
  ]

-- `syscall_getcwd`: the bytes that are copied to the buffer at `buf`; there is no terminator among
-- them. With too small a buffer it returns 0, with ERANGE.
unfoldable pub getcwd : ℕ → ℕ → ℕ → Caller → Vfs → Option (ℕ × List ℕ)
unfolding vfs_absolute_path
getcwd fuel buf size c v = do
  path ← vfs_absolute_path fuel v c.cwd
  if leb (length path) size then some (buf, path) else some (0, [])

-- `syscall_faccessat`
unfoldable pub faccessat : ℕ → ℕ → List ℕ → ℕ → ℕ → Caller → Vfs → Option Reply
unfolding user_lookup_at
faccessat fuel dirfd path mode flags c v =
    if not (tests mode 1) && not (tests mode (bit_or (bit_or r_ok w_ok) x_ok))
    then some minus_one
    else (let mode' = if mode == 1 then 0 else mode in
        let followed = if tests flags at_symlink_nofollow then at_symlink_nofollow else 0 in
        let lookup_flags =
          if tests flags at_empty_path then bit_or followed at_empty_path else followed in
        do
          reply ← user_lookup_at fuel dirfd path lookup_flags mode' c v
          elim reply [ ret i ↦ some (ret 0) | fail e ↦ some (fail e) | minus_one ↦ some minus_one ])

-- A store through `node->asset->stat`
unfoldable pub put_stat : ℕ → (Stat → Stat) → Vfs → Option Vfs
put_stat i f v = do
  n ← get_elem? v.nodes i
  stat ← stat_of v n
  some (record v { assets = set v.assets n.asset (f stat) })

-- The node of `fd_fchownat`.
unfoldable pub chown_node : ℕ → ℕ → List ℕ → ℕ → Caller → Vfs → Option Reply
unfolding user_lookup_at
chown_node fuel fd path flag c v =
    if tests flag at_empty_path
    then elim (c.open_node fd) [
      | none ↦ some (fail ebadf)
      | some none ↦ none
      | some (some i) ↦ some (ret i)
    ]
    else user_lookup_at fuel fd path (bit_and flag at_symlink_nofollow) 0 c v

-- `fd_fchownat`
unfoldable pub fd_fchownat : ℕ → ℕ → List ℕ → ℕ → ℕ → ℕ → Caller → Vfs → Option (Reply × Vfs)
unfolding chown_node put_stat chown_stat
fd_fchownat fuel fd path uid gid flag c v =
    if not (c.creds.effective_uid == 0)
    then some (fail eperm, v)
    else if uid == 2 ^ 32 - 1 && gid == 2 ^ 32 - 1
    then some (ret 0, v)
    else if not (tests flag at_empty_path) && length path == 0
    then some (fail einval, v)
    else (do
      reply ← chown_node fuel fd path flag c v
      elim reply [
        | ret i ↦ (do v' ← put_stat i (chown_stat uid gid) v; some (ret 0, v'))
        | fail e ↦ some (fail e, v)
        | minus_one ↦ some (minus_one, v)
      ])
