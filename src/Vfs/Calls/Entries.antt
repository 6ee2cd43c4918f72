-- ===== src/Vfs/Calls/Entries.antt =====
-- The calls of kernel/fs/fd.c on the stat, the links and the entries of files.
use pastoral.Base.{
  ℕ, ◌+◌, true, not, ◌&&◌, Option, none, some, List, [], ◌∷◌, length, get_elem?, set, leb, ◌==◌,
  if◌then◌else◌, ◌>>=◌, bit_and,
}
use pastoral.Process.{Reply, ret, fail, minus_one, ebadf, eexist, enoent, enotdir}
use pastoral.Fd.{Stat, is_kind, s_ifdir, s_ififo, s_ifsock, s_ifmt}
use pastoral.Fd.Access.{stat_chmod}
use pastoral.Vfs.{Vfs, stat_of, vfs_search_absolute, s_iflnk}
use pastoral.Vfs.Calls.{
  Caller, tests, is_relative, user_lookup_at, at_fdcwd, at_empty_path, at_symlink_nofollow,
  put_stat,
}

-- The directory that `fd_statat` starts from, for a relative path and a descriptor: a pipe has no node
-- and is no directory.
unfoldable pub stat_dir : ℕ → Caller → Vfs → Option Reply
stat_dir dirfd c v = elim (c.open_node dirfd) [
  | none ↦ some (fail ebadf)
  | some none ↦ some (fail ebadf)
  | some (some i) ↦ (do
    n ← get_elem? v.nodes i
    stat ← stat_of v n
    if is_kind s_ifdir stat then some (ret i) else some (fail ebadf))
]

-- The search of `fd_statat` from a directory, NULL for the root.
unfoldable pub stat_search : ℕ → Option ℕ → List ℕ → ℕ → Vfs → Option Reply
unfolding vfs_search_absolute
stat_search fuel dir path flags v = do
  found ← vfs_search_absolute fuel v dir path (not (tests flags at_symlink_nofollow))
  elim found [ none ↦ some (fail enoent) | some i ↦ some (ret i) ]

-- The node of `fd_statat`, whose stat is copied to the buffer.
unfoldable pub fd_statat : ℕ → ℕ → List ℕ → ℕ → Caller → Vfs → Option Reply
unfolding stat_dir stat_search is_relative
fd_statat fuel dirfd path flags c v =
    if length path == 0 && not (tests flags at_empty_path)
    then some (fail enoent)
    else if tests flags at_empty_path
    then elim (c.open_node dirfd) [
      | none ↦ some (fail ebadf)
      | some none ↦ none
      | some (some i) ↦ some (ret i)
    ]
    else if not (is_relative path)
    then stat_search fuel (some v.vfs_root) path flags v
    else if dirfd == at_fdcwd
    then stat_search fuel c.cwd path flags v
    else (do
      reply ← stat_dir dirfd c v
      elim reply [
        | ret dir ↦ stat_search fuel (some dir) path flags v
        | fail e ↦ some (fail e)
        | minus_one ↦ some minus_one
      ])

-- The node that `syscall_symlinkat` makes a link of; NULL is the inner `none`.
unfoldable pub link_node : ℕ → ℕ → List ℕ → Caller → Vfs → Option (Option (Option ℕ))
unfolding vfs_search_absolute is_relative
link_node fuel dirfd path c v =
    if not (is_relative path)
    then (do i ← vfs_search_absolute fuel v none path true; some (some i))
    else if dirfd == at_fdcwd
    then (do i ← vfs_search_absolute fuel v c.cwd path true; some (some i))
    else elim (c.open_node dirfd) [ none ↦ some none | some i ↦ some (some i) ]

-- `syscall_symlinkat`: it makes no node, and does not change the mode of the one that it finds. A node
-- has a link if its string is not empty.
unfoldable pub symlinkat : ℕ → List ℕ → ℕ → List ℕ → Caller → Vfs → Option (Reply × Vfs)
unfolding link_node
symlinkat fuel target dirfd path c v = do
  found ← link_node fuel dirfd path c v
  elim found [
    | none ↦ some (fail ebadf, v)
    | some none ↦ none
    | some (some i) ↦ (do
      n ← get_elem? v.nodes i
      if not (length n.symlink == 0)
          then some (fail eexist, v)
          else some (ret 0, record v { nodes = set v.nodes i (record n { symlink = target }) }))
  ]

-- `syscall_fchmodat`, whose flags are the access that is asked for. Where the lookup fails, the node
-- is a variable without a value.
unfoldable pub fchmodat : ℕ → ℕ → List ℕ → ℕ → ℕ → Caller → Vfs → Option (Reply × Vfs)
unfolding user_lookup_at put_stat stat_chmod
fchmodat fuel fd path mode flags c v = do
  reply ← user_lookup_at fuel fd path 0 flags c v
  elim reply [
    | fail e ↦ none
    | minus_one ↦ none
    | ret i ↦ (do
      n ← get_elem? v.nodes i
      stat ← stat_of v n
      v' ← put_stat i (λ s. (stat_chmod mode c.creds s).1) v
      some ((stat_chmod mode c.creds stat).0, v'))
  ]

-- `struct dirent`: the name and `d_type`.
pub record Dirent : Type 0 where
  pub d_name : List ℕ
  pub d_type : ℕ

-- `d_type` by the kind of a file.
unfoldable pub dirent_type : Stat → ℕ
dirent_type s =
    let kind = bit_and s.st_mode s_ifmt in
    if kind == 0x2000
    then 2
    else if kind == 0x6000
    then 6
    else if kind == s_ifdir
    then 4
    else if kind == s_iflnk
    then 10
    else if kind == s_ififo
    then 1
    else if kind == 0x8000
    then 8
    else if kind == s_ifsock
    then 12
    else 0

-- `fd_generate_dirent` for a directory, for each of the children.
unfoldable pub dirents : List ℕ → Vfs → Option (List Dirent)
unfolding dirent_type
dirents [] v = some []
dirents (i ∷ children) v = do
  n ← get_elem? v.nodes i
  stat ← stat_of v n
  rest ← dirents children v
  some (record { d_name = n.name; d_type = dirent_type stat } ∷ rest)

-- The entries that a file handle keeps, and the next one.
pub record DirentList : Type 0 where
  pub entries : List Dirent
  pub current_dirent : ℕ

-- `syscall_readdir` on the directory `i` of a file handle: the entry, or the code of the error, where
-- 0 is the end.
unfoldable pub readdir : ℕ → DirentList → Vfs → Option ((Option Dirent) × Reply × DirentList)
unfolding dirents
readdir i l v = do
  n ← get_elem? v.nodes i
  stat ← stat_of v n
  if not (is_kind s_ifdir stat) then some (none, fail enotdir, l) else (do
    let stale =
        leb l.current_dirent (length n.children) && not (length n.children == length l.entries)
    let kept : DirentList = if stale then record { entries = []; current_dirent = 0 } else l
    entries ← if length kept.entries == 0 then dirents n.children v else some kept.entries
    let filled : DirentList = record kept { entries = entries }
    elim (get_elem? filled.entries filled.current_dirent) [
      | none ↦ some (none, minus_one, filled)
      | some entry ↦
          some (some entry, ret 0, record filled { current_dirent = filled.current_dirent + 1 })
    ])
