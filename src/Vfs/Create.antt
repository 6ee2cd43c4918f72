-- ===== src/Vfs/Create.antt =====
-- Making of nodes: vfs_create_node, vfs_create_node_deep, vfs_init and vfs_mount; vfs_absolute_path.
pub mod Found
pub mod Search
use pastoral.Base.{
  ℕ, zero, suc, ◌+◌, Bool, true, false, not, Option, none, some, List, [], ◌∷◌, ◌++◌, length,
  get_elem?, set, ◌==◌, if◌then◌else◌, ◌>>=◌, ◌>>◌, bit_or,
}
use pastoral.Fd.{Stat, is_kind, s_ifdir}
use pastoral.Vfs.{
  Vfs, VfsNode, stat_of, subpaths, vfs_search_relative, vfs_search_absolute, or_root, dot, dot_dot,
  slash,
}

-- The stat of `vfs_default_asset`; its operations and events are not kept.
abbrev pub default_stat : ℕ → Stat
default_stat mode = record { st_mode = mode; st_uid = 0; st_gid = 0; st_size = 0 }

-- `vfs_default_asset`: the pointer to the new asset.
unfoldable pub vfs_default_asset : ℕ → Vfs → ℕ × Vfs
vfs_default_asset mode v =
    (length v.assets, record v { assets = v.assets ++ default_stat mode ∷ [] })

-- `VECTOR_PUSH(parent->children, node)`
unfoldable pub add_child : ℕ → ℕ → Vfs → Option Vfs
add_child parent node v = do
  p ← get_elem? v.nodes parent
  some (record v { nodes = set v.nodes parent (record p { children = p.children ++ node ∷ [] }) })

-- A node without children, by its fields; the new node is the last one.
abbrev pub bare_node : List ℕ → ℕ → Option ℕ → Option ℕ → VfsNode
bare_node name asset filesystem parent = record {
  name = name;
  asset = asset;
  filesystem = filesystem;
  parent = parent;
  mountpoint = none;
  children = [];
  symlink = [];
}

abbrev pub push_node : VfsNode → Vfs → Vfs
push_node n v = record v { nodes = v.nodes ++ n ∷ [] }

-- The entries "." and ".." of a new directory `node`, whose parent both name as `node` itself.
unfoldable pub add_dots : Option ℕ → ℕ → Vfs → Option Vfs
unfolding vfs_default_asset add_child
add_dots filesystem node v =
    let (here, v₁) = vfs_default_asset s_ifdir v in
    let current = length v₁.nodes in
    let v₂ = push_node (bare_node dot here filesystem (some node)) v₁ in
    let (above, v₃) = vfs_default_asset s_ifdir v₂ in
    let last = length v₃.nodes in
    let v₄ = push_node (bare_node dot_dot above filesystem (some node)) v₃ in
    do v₅ ← add_child node current v₄; add_child node last v₅

-- `vfs_create_node`: the pointer to the new node.
unfoldable pub vfs_create_node : Option ℕ → ℕ → Option ℕ → List ℕ → Bool → Vfs → Option (ℕ × Vfs)
unfolding add_child add_dots
vfs_create_node parent₀ asset filesystem name dangle v =
    let parent = or_root v parent₀ in
    let node = length v.nodes in
    let v₁ = push_node (bare_node name asset filesystem (some parent)) v in
    do
      v₂ ← if dangle then some v₁ else add_child parent node v₁
      stat ← get_elem? v₂.assets asset
      v₃ ← if is_kind s_ifdir stat then add_dots filesystem node v₂ else some v₂
      some (node, v₃)

-- `parent->mountpoint ? parent->mountpoint : parent`
unfoldable pub through_mount : ℕ → Vfs → Option ℕ
through_mount i v = do
  n ← get_elem? v.nodes i
  some (elim n.mountpoint [ none ↦ i | some mounted ↦ mounted ])

-- The first loop of `vfs_create_node_deep`: where it stops, and the names that are left.
unfoldable pub walk_existing : ℕ → Vfs → ℕ → List (List ℕ) → Option (ℕ × List (List ℕ))
unfolding vfs_search_relative through_mount
walk_existing fuel v parent [] = some (parent, [])
walk_existing fuel v parent (name ∷ names) = do
  found ← vfs_search_relative fuel v parent name true
  elim found [
    | none ↦ some (parent, name ∷ names)
    | some i ↦ (do here ← through_mount i v; walk_existing fuel v here names)
  ]

-- Its second loop, which makes directories for all names but the last, and the node for the last.
unfoldable pub create_rest : ℕ → Option ℕ → ℕ → List ℕ → List (List ℕ) → Vfs → Option (ℕ × Vfs)
unfolding vfs_create_node vfs_default_asset through_mount
create_rest asset filesystem parent name [] v =
    vfs_create_node (some parent) asset filesystem name false v
create_rest asset filesystem parent name (next ∷ names) v =
    let (directory, v₁) = vfs_default_asset s_ifdir v in
    do
      p ← get_elem? v.nodes parent
      (made, v₂) ← vfs_create_node (some parent) directory p.filesystem name false v₁
      here ← through_mount made v₂
      create_rest asset filesystem here next names v₂

unfoldable pub vfs_create_node_deep : ℕ → Option ℕ → ℕ → Option ℕ → List ℕ → Vfs → Option (ℕ × Vfs)
unfolding walk_existing create_rest subpaths
vfs_create_node_deep fuel parent asset filesystem path v = do
  names ← subpaths path
  (here, left) ← walk_existing fuel v (or_root v parent) names
  elim left [ [] ↦ some (here, v) | name ∷ rest ↦ create_rest asset filesystem here name rest v ]

-- `S_IFDIR | S_IRWXU | S_IRGRP | S_IXGRP | S_IXOTH`
abbrev pub root_mode : ℕ
root_mode = 0x41e9

-- `vfs_init`, with the number of `ramfs_filesystem`. The operations of the assets are not kept.
unfoldable pub vfs_init : ℕ → Vfs
vfs_init ramfs = record {
  nodes =
      record {
        name = slash ∷ [];
        asset = 0;
        filesystem = some ramfs;
        parent = none;
        mountpoint = none;
        children = 1 ∷ 2 ∷ [];
        symlink = [];
      }
      ∷ bare_node dot 1 none (some 0)
      ∷ bare_node dot_dot 2 none (some 0)
      ∷ [];
  assets = default_stat root_mode ∷ default_stat root_mode ∷ default_stat root_mode ∷ [];
  vfs_root = 0;
}

-- `vfs_mount`: whether it returns 0.
unfoldable pub vfs_mount : ℕ → Option ℕ → List ℕ → List ℕ → Option ℕ → Vfs → Option (Bool × Vfs)
unfolding vfs_search_absolute vfs_create_node vfs_default_asset
vfs_mount fuel parent source target filesystem v = do
  source_node ← vfs_search_absolute fuel v parent source true
  target_node ← vfs_search_absolute fuel v parent target true
  elim source_node [
    | none ↦ some (false, v)
    | some s ↦ elim target_node [
      | none ↦ some (false, v)
      | some t ↦ (do
        n ← get_elem? v.nodes t
        stat ← stat_of v n
        if not (is_kind s_ifdir stat)
            then some (false, v)
            else (let (asset, v₁) = vfs_default_asset (bit_or 0x1a4 s_ifdir) v in
                do
                  (made, v₂) ← vfs_create_node n.parent asset filesystem n.name true v₁
                  n' ← get_elem? v₂.nodes t
                  some (
                    true,
                    record v₂ { nodes = set v₂.nodes t (record n' { mountpoint = some made }) },
                  )))
    ]
  ]

-- The string that `vfs_absolute_path` puts together from the node and the nodes above it, on fuel.
unfoldable pub path_to : ℕ → Vfs → ℕ → Option (List ℕ)
path_to zero v i = none
path_to (suc fuel) v i = do
  n ← get_elem? v.nodes i
  stat ← stat_of v n
  before ← elim n.parent [ none ↦ some [] | some p ↦ path_to fuel v p ]
  some (before ++ n.name ++ (if is_kind s_ifdir stat then slash ∷ [] else []))

-- `++ret` leaves out the first byte.
abbrev without_first : List ℕ → List ℕ
without_first [] = []
without_first (c ∷ s) = s

-- `vfs_absolute_path`, for paths that fit into MAX_PATH_LENGTH.
unfoldable pub vfs_absolute_path : ℕ → Vfs → Option ℕ → Option (List ℕ)
unfolding path_to
vfs_absolute_path fuel v none = do root ← get_elem? v.nodes v.vfs_root; some root.name
vfs_absolute_path fuel v (some i) = do path ← path_to fuel v i; some (without_first path)
