-- ===== src/Vfs/Create/Search.antt =====
-- A search in a directory after a node has been made in it.
use pastoral.Base.{
  ℕ, ◌<◌, ◌≡◌, ◌≢◌, ◌⊎◌, refl, sym, ap, ◌∙◌, true, false, Option, none, some, List, [], ◌∷◌, ◌++◌,
  length, get_elem?, set, if◌then◌else◌, ◌>>=◌, arith, Bool-cases, Option-cases, inl, inr,
  get_elem?-append_length, get_elem?-set_self, get_elem?-set_ne, lt_of_get_elem?, length-append,
  subst, >>=-eq-some,
}
use native.Mathlib.Decide.{ℕ_discrete}
use pastoral.Fd.{Stat, is_kind, s_ifdir}
use pastoral.Vfs.{
  Vfs, VfsNode, stat_of, same_name, find_child, search_in, vfs_search_relative, dot, dot_dot,
}
use pastoral.Vfs.Create.{vfs_create_node, add_child, add_dots, push_node, bare_node}
use pastoral.Vfs.Create.Found.{
  Keeps, Keeps-trans, Keeps-push_node, add_child-Keeps, add_dots-Keeps, find_child-Keeps,
  find_child-found, find_child-last,
}

-- `v'` is `v` with node `length v.nodes` of the name, which is the last child of directory `p`.
record Made (p : ℕ) (pn : VfsNode) (name : List ℕ) (asset : ℕ) (v v' : Vfs) : Type 0 where
  keeps : Keeps 0 v v'
  directory :
      get_elem? v'.nodes p ≡ some (record pn { children = pn.children ++ length v.nodes ∷ [] })
  others : (q : ℕ) → q < length v.nodes → q ≢ p → get_elem? v'.nodes q ≡ get_elem? v.nodes q
  new :
      (x : VfsNode) × (get_elem? v'.nodes (length v.nodes) ≡ some x)
      × (x.name ≡ name)
      × (x.asset ≡ asset)

module _ (p asset : ℕ) (filesystem : Option ℕ) (name : List ℕ) (v : Vfs) (pn : VfsNode) (st : Stat)
    (at : get_elem? v.nodes p ≡ some pn) (owned : get_elem? v.assets asset ≡ some st) where
  abbrev n : ℕ
  n = length v.nodes

  abbrev v₁ : Vfs
  v₁ = push_node (bare_node name asset filesystem (some p)) v

  abbrev pn' : VfsNode
  pn' = record pn { children = pn.children ++ n ∷ [] }

  abbrev v₂ : Vfs
  v₂ = record v₁ { nodes = set v₁.nodes p pn' }

  first : Keeps n v v₁
  first = Keeps-push_node n (bare_node name asset filesystem (some p)) v (omega arith)

  below : p < n
  below = lt_of_get_elem? v.nodes p at

  pushed : get_elem? v₁.nodes p ≡ some pn
  pushed = first.nodes p below ∙ at

  added : add_child p n v₁ ≡ some v₂
  unfolding add_child
  added = rw pushed refl

  second : Keeps p v₁ v₂
  second =
      let (v', e, k) = add_child-Keeps p p n v₁ (omega arith) (omega (arith, below, first.more)) in
      let same : v' ≡ v₂ = ground (arith, sym e ∙ added) in subst (Keeps p v₁) same k

  -- The entries of a directory, or nothing.
  third :
      (v' : Vfs) × ((if is_kind s_ifdir st then add_dots filesystem n v₂ else some v₂) ≡ some v')
      × Keeps n v₂ v'
  third = elim (Bool-cases (is_kind s_ifdir st)) [
    | inl dir ↦
        let (v', e, k) = add_dots-Keeps filesystem n v₂ (
          omega (
            arith,
            second.more,
            length-append v.nodes (bare_node name asset filesystem (some p) ∷ []),
          )) in
        (v', rw dir e, k)
    | inr file ↦ (
      v₂,
      rw file refl,
      record {
        nodes = λ i lt. refl;
        assets = λ a e. e;
        root = refl;
        more = omega arith;
        alike = λ i x e. (x, e, record { name = refl; asset = refl; parent = refl });
      },
    )
  ]

  vfs_create_node-Made :
      (v' : Vfs) × (vfs_create_node (some p) asset filesystem name false v ≡ some (n, v'))
      × Made p pn name asset v v'
  unfolding vfs_create_node
  vfs_create_node-Made =
      let (v', e, k) = third in
      let low : (a : ℕ) (u w : Vfs) → Keeps a u w → Keeps 0 u w = λ a u w h. record {
        nodes = λ i lt. absurd (omega arith);
        assets = h.assets;
        root = h.root;
        more = h.more;
        alike = h.alike;
      } in
      let all : Keeps 0 v v' =
        Keeps-trans 0 v v₁ v' (low n v v₁ first)
          (Keeps-trans 0 v₁ v₂ v' (low p v₁ v₂ second) (low n v₂ v' k)) in
      let fresh : get_elem? v₁.nodes n ≡ some (bare_node name asset filesystem (some p)) =
        get_elem?-append_length v.nodes (bare_node name asset filesystem (some p)) n refl in
      let (x, e₂, s₂) = second.alike n (bare_node name asset filesystem (some p)) fresh in
      let (y, e₃, s₃) = k.alike n x e₂ in
      (
        v',
        rw (added, owned, e) refl,
        record {
          keeps = all;
          directory =
              k.nodes p below
              ∙ get_elem?-set_self v₁.nodes p pn' (lt_of_get_elem? v₁.nodes p pushed);
          others = λ q lt ne.
              k.nodes q lt
              ∙ get_elem?-set_ne v₁.nodes p q pn' (λ same. ne (sym same))
              ∙ first.nodes q lt;
          new = (y, e₃, s₃.name ∙ s₂.name, s₃.asset ∙ s₂.asset);
        },
      )

-- A search without links in a directory whose children are found as before.
module _ (fuel : ℕ) (v v' : Vfs) (k : Keeps 0 v v') (q : ℕ) (m : List ℕ) (x y : VfsNode)
    (at : get_elem? v.nodes q ≡ some x) (at' : get_elem? v'.nodes q ≡ some y)
    (up : y.parent ≡ x.parent) where
  search-hit :
      (i : ℕ)
      → same_name m dot ≡ false
      → same_name m dot_dot ≡ false
      → find_child v m x.children ≡ some (some i)
      → find_child v' m y.children ≡ some (some i)
      → (r : Option ℕ) → vfs_search_relative fuel v q m false ≡ some r
      → vfs_search_relative fuel v' q m false ≡ some r
  unfolding vfs_search_relative search_in
  search-hit i no_dot no_dots hit hit' r e =
      let inner : (do z ← get_elem? v.nodes i; stat ← stat_of v z; some (some i)) ≡ some r =
        rw (at, no_dot, no_dots, hit) at e in
      let (z, here, rest) =
        >>=-eq-some (get_elem? v.nodes i) (λ z. stat_of v z >>= λ stat. some (some i)) inner in
      let (stat, owned, end) = >>=-eq-some (stat_of v z) (λ stat. some (some i)) rest in
      let (z', here', s) = k.alike i z here in
      let owned' : get_elem? v'.assets z'.asset ≡ some stat =
        ap (λ (a : ℕ). get_elem? v'.assets a) s.asset ∙ k.assets z.asset owned in
      rw (at', no_dot, no_dots, hit', here', owned') end

  search-kept :
      ((f : Option ℕ) → find_child v m x.children ≡ some f → find_child v' m y.children ≡ some f)
      → (r : Option ℕ) → vfs_search_relative fuel v q m false ≡ some r
      → vfs_search_relative fuel v' q m false ≡ some r
  unfolding vfs_search_relative search_in
  search-kept same r e = elim (Bool-cases (same_name m dot)) [
    | inl is_dot ↦ rw (at', is_dot) (rw (at, is_dot) at e)
    | inr no_dot ↦ elim (Bool-cases (same_name m dot_dot)) [
      | inl is_dots ↦ rw (at', no_dot, is_dots, up) (rw (at, no_dot, is_dots) at e)
      | inr no_dots ↦ elim (Option-cases (find_child v m x.children)) [
        | inl fault ↦ absurd (ground (arith, rw (at, no_dot, no_dots, fault) at e))
        | inr (none, miss) ↦
            rw (at', no_dot, no_dots, same none miss) (rw (at, no_dot, no_dots, miss) at e)
        | inr (some i, hit) ↦ search-hit i no_dot no_dots hit (same (some i) hit) r e
      ]
    ]
  ]

search-valid :
    (fuel : ℕ) (v : Vfs) (q : ℕ) (m : List ℕ) (r : Option ℕ)
    → vfs_search_relative fuel v q m false ≡ some r
    → (x : VfsNode) × (get_elem? v.nodes q ≡ some x)
unfolding vfs_search_relative search_in
search-valid fuel v q m r e = elim (Option-cases (get_elem? v.nodes q)) [
  | inl fault ↦ absurd (ground (arith, rw fault at e))
  | inr (x, at) ↦ (x, at)
]

module _ (fuel p asset : ℕ) (name : List ℕ) (v v' : Vfs) (pn : VfsNode) (st : Stat)
    (at : get_elem? v.nodes p ≡ some pn) (made : Made p pn name asset v v') where
  search-Made :
      get_elem? v.assets asset ≡ some st
      → same_name name dot ≡ false
      → same_name name dot_dot ≡ false
      → same_name name name ≡ true
      → find_child v name pn.children ≡ some none
      → vfs_search_relative fuel v' p name false ≡ some (some (length v.nodes))
  unfolding vfs_search_relative search_in
  search-Made owned no_dot no_dots self free =
      let (new, here, named, with_asset) = made.new in
      let last : find_child v' name (pn.children ++ length v.nodes ∷ [])
          ≡ some (some (length v.nodes)) =
        find_child-last v v' 0 made.keeps name (length v.nodes) new here pn.children free
        ∙ rw (named, self) refl in
      let stat : get_elem? v'.assets new.asset ≡ some st =
        ap (λ (a : ℕ). get_elem? v'.assets a) with_asset ∙ made.keeps.assets asset owned in
      rw (made.directory, no_dot, no_dots, last, here, stat) refl

  search-Made_same :
      (m : List ℕ) (r : Option ℕ)
      → same_name name m ≡ false
      → vfs_search_relative fuel v p m false ≡ some r
      → vfs_search_relative fuel v' p m false ≡ some r
  search-Made_same m r differs e =
      let (new, here, named, with_asset) = made.new in
      search-kept fuel v v' made.keeps p m pn
        (record pn { children = pn.children ++ length v.nodes ∷ [] }) at made.directory refl
        (λ f g. elim (Option-cases f) [
          | inl miss ↦
              find_child-last v v' 0 made.keeps m (length v.nodes) new here pn.children
                (g ∙ ap some miss)
              ∙ rw (named, differs, miss) refl
          | inr (i, hit) ↦
              find_child-found v v' 0 made.keeps m (length v.nodes) new here pn.children i
                (g ∙ ap some hit)
              ∙ ap some (sym hit)
        ])
        r e

  search-Made_other :
      (q : ℕ) (m : List ℕ) (r : Option ℕ)
      → q ≢ p
      → vfs_search_relative fuel v q m false ≡ some r
      → vfs_search_relative fuel v' q m false ≡ some r
  search-Made_other q m r ne e =
      let (x, here) = search-valid fuel v q m r e in
      search-kept fuel v v' made.keeps q m x x here
        (made.others q (lt_of_get_elem? v.nodes q here) ne ∙ here) refl
        (λ f g. find_child-Keeps v v' 0 made.keeps m x.children f g) r e

-- `vfs_create_node` of a name in a directory that has no such entry returns a new node. Searched for
-- without following links, the name then leads to this node; every search in that directory for another
-- name, and every search in another directory, that returned before returns what it did.
pub vfs_create_node-search :
    (fuel p asset : ℕ) (filesystem : Option ℕ) (name : List ℕ) (v : Vfs) (pn : VfsNode) (st : Stat)
    → get_elem? v.nodes p ≡ some pn
    → get_elem? v.assets asset ≡ some st
    → same_name name dot ≡ false
    → same_name name dot_dot ≡ false
    → same_name name name ≡ true
    → find_child v name pn.children ≡ some none
    → (v' : Vfs) × (vfs_create_node (some p) asset filesystem name false v
        ≡ some (length v.nodes, v'))
      × (vfs_search_relative fuel v' p name false ≡ some (some (length v.nodes)))
      × ((q : ℕ) (m : List ℕ) (r : Option ℕ)
          → (q ≢ p) ⊎ (same_name name m ≡ false)
          → vfs_search_relative fuel v q m false ≡ some r
          → vfs_search_relative fuel v' q m false ≡ some r)
vfs_create_node-search fuel p asset filesystem name v pn st at owned no_dot no_dots self free =
    let (v', e, made) = vfs_create_node-Made p asset filesystem name v pn st at owned in
    (
      v',
      e,
      search-Made fuel p asset name v v' pn st at made owned no_dot no_dots self free,
      λ q m r apart ok. elim apart [
        | inl ne ↦ search-Made_other fuel p asset name v v' pn st at made q m r ne ok
        | inr differs ↦ elim (ℕ_discrete q p) [
          | no ne ↦ search-Made_other fuel p asset name v v' pn st at made q m r ne ok
          | yes same ↦
              subst (λ (z : ℕ). vfs_search_relative fuel v' z m false ≡ some r) (sym same)
                (search-Made_same fuel p asset name v v' pn st at made m r differs
                  (subst (λ (z : ℕ). vfs_search_relative fuel v z m false ≡ some r) same ok))
        ]
      ],
    )
