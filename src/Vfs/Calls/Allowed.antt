-- ===== src/Vfs/Calls/Allowed.antt =====
-- The nodes that `user_lookup_at` returns are those that the caller may reach.
use pastoral.Base.{
  ℕ, ◌↔◌, >>=-eq-some, ◌≡◌, refl, sym, ap, ◌∙◌, true, false, none, some, List, [], ◌∷◌, get_elem?,
  if◌then◌else◌, arith, Bool-cases, Option-cases, inl, inr,
}
use pastoral.Process.{Reply, ret, fail, minus_one}
use pastoral.Fd.{Stat}
use pastoral.Fd.Access.{stat_has_access, x_ok}
use pastoral.Vfs.{Vfs, VfsNode, stat_of, subpaths, vfs_search_relative}
use pastoral.Vfs.Calls.{
  Caller, tests, may_search, lookup_last, lookup_names, user_lookup_at, user_dir_lookup, is_root,
  at_symlink_nofollow, at_eaccess,
}

-- The ids by which the access to the node is decided.
abbrev pub asking_uid : ℕ → Caller → ℕ
asking_uid flags c = if tests flags at_eaccess then c.creds.effective_uid else c.creds.real_uid

abbrev pub asking_gid : ℕ → Caller → ℕ
asking_gid flags c = if tests flags at_eaccess then c.creds.effective_gid else c.creds.real_gid

-- Node `i` has the access that was asked for.
pub record Accessible (flags mode : ℕ) (c : Caller) (v : Vfs) (i : ℕ) : Type 0 where
  pub node : VfsNode
  pub stat : Stat
  pub is_node : get_elem? v.nodes i ≡ some node
  pub has_stat : stat_of v node ≡ some stat
  pub access : stat_has_access stat (asking_uid flags c) (asking_gid flags c) mode ≡ true

-- The caller may search node `d` by its effective ids.
pub record Searchable (c : Caller) (v : Vfs) (d : ℕ) : Type 0 where
  pub node : VfsNode
  pub stat : Stat
  pub is_node : get_elem? v.nodes d ≡ some node
  pub has_stat : stat_of v node ≡ some stat
  pub access : stat_has_access stat c.creds.effective_uid c.creds.effective_gid x_ok ≡ true

-- The node that stands for `n`, which is at `j`: the one that is mounted on it, if there is one.
abbrev pub behind_mount : VfsNode → ℕ → ℕ
behind_mount n j = elim n.mountpoint [ none ↦ j | some m ↦ m ]

-- The names, the first and the others, lead from node `parent` to node `i`, and the caller may search
-- every directory on the way.
abbrev pub Walk : ℕ → ℕ → ℕ → Caller → Vfs → ℕ → ℕ → List ℕ → List (List ℕ) → Type 0
Walk fuel flags mode c v i parent name [] =
    Searchable c v parent
    × (vfs_search_relative fuel v parent name (tests flags at_symlink_nofollow) ≡ some (some i))
    × Accessible flags mode c v i
Walk fuel flags mode c v i parent name (next ∷ names) =
    Searchable c v parent
    × ((j : ℕ) × (n : VfsNode) × (vfs_search_relative fuel v parent name true ≡ some (some j))
        × (get_elem? v.nodes j ≡ some n)
        × Walk fuel flags mode c v i (behind_mount n j) next names)

-- The names of the path lead to node `i` from where the path starts.
pub record Reachable (fuel flags mode : ℕ) (c : Caller) (v : Vfs) (i dirfd : ℕ) (path : List ℕ)
    : Type 0 where
  pub parent : ℕ
  pub name : List ℕ
  pub names : List (List ℕ)
  pub starts : user_dir_lookup dirfd path c v ≡ ret parent
  pub split : subpaths path ≡ some (name ∷ names)
  pub walk : Walk fuel flags mode c v i parent name names

may_search-Searchable :
    (c : Caller) (v : Vfs) (d : ℕ) → may_search d c v ≡ some true → Searchable c v d
unfolding may_search
may_search-Searchable c v d e =
    let (n, at, e₁) = >>=-eq-some (get_elem? v.nodes d) _ e in
    let (st, owned, e₂) = >>=-eq-some (stat_of v n) _ e₁ in
    record { node = n; stat = st; is_node = at; has_stat = owned; access = ground (arith, e₂) }

may_search-true : (c : Caller) (v : Vfs) (d : ℕ) → Searchable c v d → may_search d c v ≡ some true
unfolding may_search
may_search-true c v d s = rw (may_search, s.is_node, s.has_stat, s.access) refl

module _ (fuel flags mode : ℕ) (c : Caller) (v : Vfs) (i : ℕ) where
  lookup_last-Walk :
      (parent : ℕ) (name : List ℕ)
      → lookup_last fuel parent name flags mode c v ≡ some (ret i)
      → Walk fuel flags mode c v i parent name []
  unfolding lookup_last
  lookup_last-Walk parent name e = elim (Option-cases (may_search parent c v)) [
    | inl fault ↦ absurd (ground (arith, rw fault at e))
    | inr (false, no_right) ↦ absurd (ground (arith, rw no_right at e))
    | inr (true, right) ↦
        elim (Option-cases
          (vfs_search_relative fuel v parent name (tests flags at_symlink_nofollow))) [
            | inl fault ↦ absurd (ground (arith, rw (right, fault) at e))
            | inr (none, missing) ↦ absurd (ground (arith, rw (right, missing) at e))
            | inr (some j, found) ↦ elim (Option-cases (get_elem? v.nodes j)) [
              | inl fault ↦ absurd (ground (arith, rw (right, found, fault) at e))
              | inr (n, at) ↦ elim (Option-cases (stat_of v n)) [
                | inl fault ↦ absurd (ground (arith, rw (right, found, at, fault) at e))
                | inr (st, owned) ↦
                    elim (Bool-cases
                      (stat_has_access st (asking_uid flags c) (asking_gid flags c) mode)) [
                        | inr denied ↦
                            absurd (ground (arith, rw (right, found, at, owned, denied) at e))
                        | inl granted ↦
                            let same : j ≡ i =
                              ground (arith, rw (right, found, at, owned, granted) at e) in
                            (
                              may_search-Searchable c v parent right,
                              found ∙ ap (λ (k : ℕ). some (some k)) same,
                              record {
                                node = n;
                                stat = st;
                                is_node = ap (λ (k : ℕ). get_elem? v.nodes k) (sym same) ∙ at;
                                has_stat = owned;
                                access = granted;
                              },
                            )
                      ]
              ]
            ]
          ]
  ]

  lookup_names-Walk :
      (names : List (List ℕ)) (parent : ℕ) (name : List ℕ)
      → lookup_names fuel parent name names flags mode c v ≡ some (ret i)
      → Walk fuel flags mode c v i parent name names
  unfolding lookup_names
  lookup_names-Walk [] parent name e = lookup_last-Walk parent name e
  lookup_names-Walk (next ∷ names) parent name e = elim (Option-cases (may_search parent c v)) [
    | inl fault ↦ absurd (ground (arith, rw fault at e))
    | inr (false, no_right) ↦ absurd (ground (arith, rw no_right at e))
    | inr (true, right) ↦ elim (Option-cases (vfs_search_relative fuel v parent name true)) [
      | inl fault ↦ absurd (ground (arith, rw (right, fault) at e))
      | inr (none, missing) ↦ absurd (ground (arith, rw (right, missing) at e))
      | inr (some j, found) ↦ elim (Option-cases (get_elem? v.nodes j)) [
        | inl fault ↦ absurd (ground (arith, rw (right, found, fault) at e))
        | inr (n, at) ↦ (
          may_search-Searchable c v parent right,
          (
            j,
            n,
            found,
            at,
            lookup_names-Walk names (behind_mount n j) next (rw (right, found, at) at e),
          ),
        )
      ]
    ]
  ]

  Walk-lookup_names :
      (names : List (List ℕ)) (parent : ℕ) (name : List ℕ)
      → Walk fuel flags mode c v i parent name names
      → lookup_names fuel parent name names flags mode c v ≡ some (ret i)
  unfolding lookup_names lookup_last
  Walk-lookup_names [] parent name (s, found, a) =
      rw
        (
          lookup_names,
          may_search-true c v parent s,
          lookup_last,
          found,
          a.is_node,
          a.has_stat,
          a.access,
        )
        refl
  Walk-lookup_names (next ∷ names) parent name (s, (j, n, found, at, further)) =
      rw (lookup_names, may_search-true c v parent s, found, at)
        (Walk-lookup_names names (behind_mount n j) next further)

  from_directory :
      (dirfd : ℕ) (path : List ℕ) (reply : Reply)
      → user_dir_lookup dirfd path c v ≡ reply
      → is_root path ≡ false
      → user_lookup_at fuel dirfd path flags mode c v ≡ some (ret i)
      → Reachable fuel flags mode c v i dirfd path
  unfolding user_lookup_at
  from_directory dirfd path minus_one d other e = absurd (ground (arith, rw (other, d) at e))
  from_directory dirfd path (fail x) d other e = absurd (ground (arith, rw (other, d) at e))
  from_directory dirfd path (ret parent) d other e = elim (Option-cases (subpaths path)) [
    | inl fault ↦ absurd (ground (arith, rw (other, d, fault) at e))
    | inr (name ∷ rest, split) ↦ record {
      parent = parent;
      name = name;
      names = rest;
      starts = d;
      split = split;
      walk = lookup_names-Walk rest parent name (rw (other, d, split) at e);
    }
    | inr ([], split) ↦ elim (Option-cases (may_search parent c v)) [
      | inl fault ↦ absurd (ground (arith, rw (other, d, split, fault) at e))
      | inr (true, right) ↦ absurd (ground (arith, rw (other, d, split, right) at e))
      | inr (false, no_right) ↦ absurd (ground (arith, rw (other, d, split, no_right) at e))
    ]
  ]

  to_directory :
      (dirfd : ℕ) (path : List ℕ)
      → is_root path ≡ false
      → Reachable fuel flags mode c v i dirfd path
      → user_lookup_at fuel dirfd path flags mode c v ≡ some (ret i)
  unfolding user_lookup_at
  to_directory dirfd path other r =
      rw
        (user_lookup_at, other, r.starts, r.split, Walk-lookup_names r.names r.parent r.name r.walk)
        refl

  -- For a path other than "/", `user_lookup_at` finds a node exactly if the names of the path lead to it
  -- from where the path starts, each directory on the way, with the node that a name leads to or the
  -- one mounted on it, is one that the caller may search by its effective ids, and the node has the
  -- access that was asked for, by the real ids or with AT_EACCESS the effective ones.
  pub user_lookup_at-Reachable :
      (dirfd : ℕ) (path : List ℕ)
      → is_root path ≡ false
      → (user_lookup_at fuel dirfd path flags mode c v ≡ some (ret i))
        ↔ Reachable fuel flags mode c v i dirfd path
  user_lookup_at-Reachable dirfd path other = (
    from_directory dirfd path (user_dir_lookup dirfd path c v) refl other,
    to_directory dirfd path other,
  )
