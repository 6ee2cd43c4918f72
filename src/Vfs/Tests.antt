-- ===== src/Vfs/Tests.antt =====
-- Runs of the file system, and its theorems at a small tree.
use pastoral.Base.{
  ℕ, ◌↔◌, ◌≡◌, ◌≢◌, ◌⊎◌, refl, true, false, Option, none, some, List, [], ◌∷◌, ◌++◌, ◌>>=◌, arith,
}
use pastoral.Process.{ret}
use pastoral.Fd.Access.{stat_has_access, mask_of, with_right, covers}
use pastoral.Vfs.{
  Vfs, VfsNode, subpaths, vfs_search_relative, vfs_search_absolute, same_name, find_child,
  search_in, slash, dot, dot_dot, vfs_parent_dir, but_last,
}
use pastoral.Vfs.Subpaths.{AreNames, join, subpaths-total, subpaths-join}
use pastoral.Vfs.Create.{
  vfs_init, vfs_create_node, vfs_create_node_deep, vfs_default_asset, vfs_absolute_path,
}
use pastoral.Vfs.Create.Search.{vfs_create_node-search}
use pastoral.Vfs.Calls.{Caller, user_lookup_at, at_fdcwd, is_root}
use pastoral.Vfs.Calls.Allowed.{Reachable, user_lookup_at-Reachable}

-- "usr", "bin"
abbrev usr : List ℕ
usr = 117 ∷ 115 ∷ 114 ∷ []

abbrev bin : List ℕ
bin = 98 ∷ 105 ∷ 110 ∷ []

subpaths-total_example :
    (names : List (List ℕ)) × (subpaths (slash ∷ slash ∷ usr) ≡ some names) × AreNames names
subpaths-total_example = subpaths-total (slash ∷ slash ∷ usr)

subpaths-join_example : subpaths (join (usr ∷ bin ∷ [])) ≡ some (usr ∷ bin ∷ [])
subpaths-join_example = subpaths-join (usr ∷ bin ∷ []) (
  omega arith,
  (λ e. absurd (omega arith), (λ e. absurd (omega arith), (λ e. absurd (omega arith), tt))),
  (
    omega arith,
    (λ e. absurd (omega arith), (λ e. absurd (omega arith), (λ e. absurd (omega arith), tt))),
    tt,
  ),
)

abbrev root : VfsNode
root = record {
  name = slash ∷ [];
  asset = 0;
  filesystem = some 0;
  parent = none;
  mountpoint = none;
  children = 1 ∷ 2 ∷ [];
  symlink = [];
}

-- The root, an asset for a directory, and "usr" in the root.
abbrev start : Vfs
start = (vfs_default_asset 0x41ed (vfs_init 0)).1

vfs_create_node-search_example :
    (v' : Vfs) × (vfs_create_node (some 0) 3 (some 0) usr false start ≡ some (3, v'))
    × (vfs_search_relative 1 v' 0 usr false ≡ some (some 3))
    × ((q : ℕ) (m : List ℕ) (r : Option ℕ)
        → (q ≢ 0) ⊎ (same_name usr m ≡ false)
        → vfs_search_relative 1 start q m false ≡ some r
        → vfs_search_relative 1 v' q m false ≡ some r)
unfolding vfs_default_asset vfs_init same_name find_child
vfs_create_node-search_example =
    vfs_create_node-search 1 0 3 (some 0) usr start root
      (record { st_mode = 0x41ed; st_uid = 0; st_gid = 0; st_size = 0 }) refl refl refl refl refl
      refl

-- "/usr/bin" made with all directories: then it is found, it has this path, and its parent directory
-- is "/usr".
found_deep : Option (Option ℕ × List ℕ × Option ℕ)
unfolding vfs_create_node_deep vfs_search_absolute vfs_absolute_path vfs_parent_dir
found_deep = do
  made ← vfs_create_node_deep 1 none 3 (some 0) (join (usr ∷ bin ∷ [])) start
  found ← vfs_search_absolute 1 made.1 none (join (usr ∷ bin ∷ [])) true
  path ← vfs_absolute_path 9 made.1 (some made.0)
  parent ← vfs_parent_dir 1 made.1 none (join (usr ∷ bin ∷ []))
  some (found, path, parent)

found_deep-eq : found_deep ≡ some (some 6, slash ∷ usr ++ slash ∷ bin ++ slash ∷ [], some 3)
unfolding found_deep vfs_default_asset vfs_init search_in find_child same_name vfs_create_node_deep
    vfs_search_absolute vfs_absolute_path vfs_parent_dir but_last
found_deep-eq = refl

-- The parent directory of a relative path of one name is the root, whatever directory it is in.
parent_of_name : vfs_parent_dir 1 start (some 2) usr ≡ some (some 0)
unfolding vfs_parent_dir vfs_default_asset vfs_init but_last
parent_of_name = refl

abbrev tree : Vfs
tree = record start {
  nodes =
      record root { children = 1 ∷ 2 ∷ 3 ∷ [] }
      ∷ record root { name = dot; asset = 1; parent = some 0; children = [] }
      ∷ record root { name = dot_dot; asset = 2; parent = some 0; children = [] }
      ∷ record root { name = usr; asset = 3; parent = some 0; children = [] }
      ∷ [];
}

-- A user other than root.
abbrev user : Caller
user = record {
  creds = record {
    real_uid = 7;
    effective_uid = 7;
    saved_uid = 7;
    real_gid = 7;
    effective_gid = 7;
    saved_gid = 7;
  };
  cwd = none;
  umask = 0;
  open_node = λ fd. none;
}

user_lookup_at-Reachable_example :
    (user_lookup_at 1 at_fdcwd usr 0 8 user tree ≡ some (ret 3))
    ↔ Reachable 1 0 8 user tree 3 at_fdcwd usr
unfolding is_root
user_lookup_at-Reachable_example = user_lookup_at-Reachable 1 0 8 user tree 3 at_fdcwd usr refl

found_usr : user_lookup_at 1 at_fdcwd usr 0 8 user tree ≡ some (ret 3)
unfolding vfs_default_asset vfs_init user_lookup_at find_child same_name stat_has_access covers
    mask_of with_right
found_usr = refl
