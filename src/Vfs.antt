-- ===== src/Vfs.antt =====
-- kernel/fs/vfs.c: the tree of files and the search for a path in it.
pub mod Subpaths
pub mod Create
pub mod Calls
mod Tests
use pastoral.Base.{
  ℕ, zero, suc, ◌+◌, ◌-◌, Bool, true, false, not, ◌&&◌, ◌||◌, Option, none, some, List, [], ◌∷◌,
  ◌++◌, length, get_elem?, set, ◌==◌, if◌then◌else◌, ◌>>=◌, ℤ, pos, negsuc, bit_or,
}
use pastoral.Fd.{Stat, is_kind, s_ifdir}
use pastoral.Text.{strcmp}

abbrev pub s_iflnk : ℕ
s_iflnk = 0xa000

-- `'/'`
abbrev pub slash : ℕ
slash = 0x2f

-- A string is the list of its bytes, without the terminator. `while(*str == '/') str++`
unfoldable pub skip_slashes : List ℕ → List ℕ
skip_slashes [] = []
skip_slashes (c ∷ s) = if c == slash then skip_slashes s else c ∷ s

-- `while(*str && *str != '/') str++`: what the loop passes, and what it leaves.
unfoldable pub subpath : List ℕ → List ℕ
subpath [] = []
subpath (c ∷ s) = if c == slash then [] else c ∷ subpath s

unfoldable pub behind_subpath : List ℕ → List ℕ
behind_subpath [] = []
behind_subpath (c ∷ s) = if c == slash then c ∷ s else behind_subpath s

-- The loop that fills `subpath_list`, on fuel.
unfoldable pub subpaths_from : ℕ → List ℕ → Option (List (List ℕ))
unfolding skip_slashes subpath behind_subpath
subpaths_from fuel [] = some []
subpaths_from zero (c ∷ s) = none
subpaths_from (suc fuel) (c ∷ s) = do
  rest ← subpaths_from fuel (skip_slashes (behind_subpath (c ∷ s)))
  some (subpath (c ∷ s) ∷ rest)

-- `subpath_list` of a path. Each round takes a byte at least.
unfoldable pub subpaths : List ℕ → Option (List (List ℕ))
unfolding subpaths_from
subpaths path = subpaths_from (length path) (skip_slashes path)

-- `struct vfs_node`: pointers are indices into the nodes, and `asset` into the assets. `symlink` is
-- read only of symbolic links.
pub record VfsNode : Type 0 where
  pub name : List ℕ
  pub asset : ℕ
  pub filesystem : Option ℕ
  pub parent : Option ℕ
  pub mountpoint : Option ℕ
  pub children : List ℕ
  pub symlink : List ℕ

-- The nodes and the assets, of which the `stat` is kept, that have been allocated; and `vfs_root`.
pub record Vfs : Type 0 where
  pub nodes : List VfsNode
  pub assets : List Stat
  pub vfs_root : ℕ

-- `node->asset->stat`
abbrev pub stat_of : Vfs → VfsNode → Option Stat
stat_of v n = get_elem? v.assets n.asset

-- `strcmp(s, t) == 0`
unfoldable pub same_name : List ℕ → List ℕ → Bool
unfolding strcmp
same_name s t = elim (strcmp s t) [ pos n ↦ n == 0 | negsuc n ↦ false ]

abbrev pub dot : List ℕ
dot = 0x2e ∷ []

abbrev pub dot_dot : List ℕ
dot_dot = 0x2e ∷ 0x2e ∷ []

-- The loop over the children: the first one with the name.
unfoldable pub find_child : Vfs → List ℕ → List ℕ → Option (Option ℕ)
unfolding same_name
find_child v name [] = some none
find_child v name (i ∷ children) =
    let rest = find_child v name children in
    do n ← get_elem? v.nodes i; if same_name n.name name then some (some i) else rest

-- `vfs_search_relative`, by the search for the target of a link; NULL is the inner `none`.
unfoldable pub search_in :
    (Option ℕ → List ℕ → Option (Option ℕ)) → Vfs → ℕ → List ℕ → Bool → Option (Option ℕ)
unfolding find_child
search_in follow v parent name symlink = do
  p ← get_elem? v.nodes parent
  if same_name name dot
      then some (some parent)
      else if same_name name dot_dot
      then some p.parent
      else (do
        found ← find_child v name p.children
        elim found [
          | none ↦ some none
          | some i ↦ (do
            n ← get_elem? v.nodes i
            stat ← stat_of v n
            if symlink && is_kind s_iflnk stat
                then (elim n.symlink [
                  | [] ↦ follow (some parent) n.symlink
                  | c ∷ rest ↦ follow (if c == slash then none else some parent) n.symlink
                ])
                else some (some i))
        ])

-- The loop of `vfs_search_absolute` over all names but the last, then the last.
unfoldable pub walk_names :
    (Option ℕ → List ℕ → Option (Option ℕ))
    → Vfs
    → ℕ
    → List ℕ
    → List (List ℕ)
    → Bool
    → Option (Option ℕ)
unfolding search_in
walk_names follow v parent name [] symfollow = search_in follow v parent name symfollow
walk_names follow v parent name (next ∷ names) symfollow = do
  found ← search_in follow v parent name true
  elim found [
    | none ↦ some none
    | some i ↦ (do
      n ← get_elem? v.nodes i
      let here : ℕ = elim n.mountpoint [ none ↦ i | some mounted ↦ mounted ]
      m ← get_elem? v.nodes here
      stat ← stat_of v m
      if is_kind s_ifdir stat then walk_names follow v here next names symfollow else some none)
  ]

abbrev pub or_root : Vfs → Option ℕ → ℕ
or_root v none = v.vfs_root
or_root v (some p) = p

-- `fuel` bounds the links that are followed one inside the other.
unfoldable pub vfs_search_absolute : ℕ → Vfs → Option ℕ → List ℕ → Bool → Option (Option ℕ)
unfolding walk_names subpaths
vfs_search_absolute zero v parent path symfollow = none
vfs_search_absolute (suc fuel) v parent path symfollow = do
  names ← subpaths path
  elim names [
    | [] ↦ some (some v.vfs_root)
    | name ∷ rest ↦
        walk_names (λ from target. vfs_search_absolute fuel v from target true) v (or_root v parent)
          name rest symfollow
  ]

unfoldable pub vfs_search_relative : ℕ → Vfs → ℕ → List ℕ → Bool → Option (Option ℕ)
unfolding search_in vfs_search_absolute
vfs_search_relative fuel v parent name symlink =
    search_in (λ from target. vfs_search_absolute fuel v from target true) v parent name symlink

-- `subpath_list.length--`
unfoldable pub but_last : List (List ℕ) → Option (List (List ℕ))
but_last [] = none
but_last (name ∷ []) = some []
but_last (name ∷ next ∷ names) = do rest ← but_last (next ∷ names); some (name ∷ rest)

-- `vfs_parent_dir`. Without a name the length wraps and the list is read behind its end.
unfoldable pub vfs_parent_dir : ℕ → Vfs → Option ℕ → List ℕ → Option (Option ℕ)
unfolding walk_names subpaths vfs_search_absolute
vfs_parent_dir fuel v parent path = do
  names ← subpaths path
  elim (but_last names) [
    | none ↦ none
    | some [] ↦ some (some v.vfs_root)
    | some (name ∷ rest) ↦
        walk_names (λ from target. vfs_search_absolute fuel v from target true) v (or_root v parent)
          name rest true
  ]
