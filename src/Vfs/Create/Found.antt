-- ===== src/Vfs/Create/Found.antt =====
-- `vfs_search_relative` finds what `vfs_create_node` makes, and the others as before.
use pastoral.Base.{
  ℕ, ◌≤◌, ◌<◌, ◌≡◌, refl, sym, ap, ◌∙◌, Option, none, some, List, [], ◌∷◌, ◌++◌, length, get_elem?,
  set, if◌then◌else◌, arith, Bool-cases, Option-cases, inl, inr, get_elem?-append_left,
  get_elem?-set_self, get_elem?-set_ne, length-set, length-append, le_of_get_elem?-none,
  lt_of_get_elem?, >>=-eq-some,
}
use native.Mathlib.Decide.{ℕ_discrete}
use pastoral.Fd.{Stat, s_ifdir}
use pastoral.Vfs.{Vfs, VfsNode, same_name, find_child, dot, dot_dot}
use pastoral.Vfs.Create.{add_child, add_dots, push_node, bare_node, vfs_default_asset, default_stat}

-- Everything of a node but its children and what is mounted on it.
pub record Alike (x y : VfsNode) : Type 0 where
  pub name : y.name ≡ x.name
  pub asset : y.asset ≡ x.asset
  pub parent : y.parent ≡ x.parent

Alike-refl : (x : VfsNode) → Alike x x
Alike-refl x = record { name = refl; asset = refl; parent = refl }

-- The first `n` nodes and all assets of `v` are in `v'`.
pub record Keeps (n : ℕ) (v v' : Vfs) : Type 0 where
  pub nodes : (i : ℕ) → i < n → get_elem? v'.nodes i ≡ get_elem? v.nodes i
  pub assets : (a : ℕ) {s : Stat} → get_elem? v.assets a ≡ some s → get_elem? v'.assets a ≡ some s
  pub root : v'.vfs_root ≡ v.vfs_root
  pub more : length v.nodes ≤ length v'.nodes
  pub alike :
      (i : ℕ) (x : VfsNode)
      → get_elem? v.nodes i ≡ some x
      → (y : VfsNode) × (get_elem? v'.nodes i ≡ some y) × Alike x y

pub Keeps-trans : (n : ℕ) (u v w : Vfs) → Keeps n u v → Keeps n v w → Keeps n u w
Keeps-trans n u v w a b = record {
  nodes = λ i h. b.nodes i h ∙ a.nodes i h;
  assets = λ i e. b.assets i (a.assets i e);
  root = b.root ∙ a.root;
  more = omega (arith, a.more, b.more);
  alike = λ i x e.
      let (y, f, s) = a.alike i x e in
      let (z, g, t) = b.alike i y f in
      (
        z,
        g,
        record { name = t.name ∙ s.name; asset = t.asset ∙ s.asset; parent = t.parent ∙ s.parent },
      );
}

pub Keeps-push_node :
    (n : ℕ) (x : VfsNode) (v : Vfs) → n ≤ length v.nodes → Keeps n v (push_node x v)
Keeps-push_node n x v h = record {
  nodes = λ i lt. get_elem?-append_left v.nodes (x ∷ []) i (omega arith);
  assets = λ a e. e;
  root = refl;
  more = omega (arith, length-append v.nodes (x ∷ []));
  alike = λ i y e.
      (y, get_elem?-append_left v.nodes (x ∷ []) i (lt_of_get_elem? v.nodes i e) ∙ e, Alike-refl y);
}

Keeps-vfs_default_asset :
    (n mode : ℕ) (v : Vfs) → n ≤ length v.nodes → Keeps n v (vfs_default_asset mode v).1
unfolding vfs_default_asset
Keeps-vfs_default_asset n mode v h = record {
  nodes = λ i lt. refl;
  assets = λ a e.
      get_elem?-append_left v.assets (default_stat mode ∷ []) a (lt_of_get_elem? v.assets a e) ∙ e;
  root = refl;
  more = omega arith;
  alike = λ i x e. (x, e, Alike-refl x);
}

pub add_child-Keeps :
    (n parent child : ℕ) (v : Vfs)
    → n ≤ parent
    → parent < length v.nodes
    → (v' : Vfs) × (add_child parent child v ≡ some v') × Keeps n v v'
unfolding add_child
add_child-Keeps n parent child v h lt = elim (Option-cases (get_elem? v.nodes parent)) [
  | inl e ↦ absurd (omega (arith, le_of_get_elem?-none v.nodes parent e))
  | inr (p, e) ↦ (
    record v { nodes = set v.nodes parent (record p { children = p.children ++ child ∷ [] }) },
    rw e refl,
    record {
      nodes = λ i below.
          get_elem?-set_ne v.nodes parent i (record p { children = p.children ++ child ∷ [] })
            (λ same. absurd (omega arith));
      assets = λ a s. s;
      root = refl;
      more =
          omega
            (arith, length-set v.nodes parent (record p { children = p.children ++ child ∷ [] }));
      alike = λ i x f. elim (ℕ_discrete parent i) [
        | yes same ↦ (
          record p { children = p.children ++ child ∷ [] },
          ap
                (λ (k : ℕ).
                  get_elem? (set v.nodes parent (record p { children = p.children ++ child ∷ [] }))
                    k)
                (sym same)
              ∙ get_elem?-set_self v.nodes parent (record p { children = p.children ++ child ∷ [] })
                  lt,
          (let both : some p ≡ some x = sym e ∙ ap (λ (k : ℕ). get_elem? v.nodes k) same ∙ f in
              let eq : p ≡ x = ground (arith, both) in
              record {
                name = ap (λ z. z.name) eq;
                asset = ap (λ z. z.asset) eq;
                parent = ap (λ z. z.parent) eq;
              }),
        )
        | no ne ↦ (
          x,
          get_elem?-set_ne v.nodes parent i (record p { children = p.children ++ child ∷ [] }) ne
              ∙ f,
          Alike-refl x,
        )
      ];
    },
  )
]

pub add_dots-Keeps :
    (filesystem : Option ℕ) (node : ℕ) (v : Vfs)
    → node < length v.nodes
    → (v' : Vfs) × (add_dots filesystem node v ≡ some v') × Keeps node v v'
unfolding add_dots
add_dots-Keeps filesystem node v lt =
    let a₁ : ℕ × Vfs = vfs_default_asset s_ifdir v in
    let k₁ : Keeps node v a₁.1 = Keeps-vfs_default_asset node s_ifdir v (omega arith) in
    let v₂ : Vfs = push_node (bare_node dot a₁.0 filesystem (some node)) a₁.1 in
    let k₂ : Keeps node a₁.1 v₂ =
      Keeps-push_node node (bare_node dot a₁.0 filesystem (some node)) a₁.1
        (omega (arith, k₁.more)) in
    let a₃ : ℕ × Vfs = vfs_default_asset s_ifdir v₂ in
    let k₃ : Keeps node v₂ a₃.1 =
      Keeps-vfs_default_asset node s_ifdir v₂ (omega (arith, k₁.more, k₂.more)) in
    let v₄ : Vfs = push_node (bare_node dot_dot a₃.0 filesystem (some node)) a₃.1 in
    let k₄ : Keeps node a₃.1 v₄ =
      Keeps-push_node node (bare_node dot_dot a₃.0 filesystem (some node)) a₃.1
        (omega (arith, k₁.more, k₂.more, k₃.more)) in
    let (v₅, e₅, k₅) =
      add_child-Keeps node node (length a₁.1.nodes) v₄ (omega arith)
        (omega (arith, k₁.more, k₂.more, k₃.more, k₄.more)) in
    let (v₆, e₆, k₆) =
      add_child-Keeps node node (length a₃.1.nodes) v₅ (omega arith)
        (omega (arith, k₁.more, k₂.more, k₃.more, k₄.more, k₅.more)) in
    (
      v₆,
      rw (e₅, e₆) refl,
      Keeps-trans node v a₁.1 v₆ k₁ (
          Keeps-trans node a₁.1 v₂ v₆ k₂ (
            Keeps-trans node v₂ a₃.1 v₆ k₃
              (Keeps-trans node a₃.1 v₄ v₆ k₄ (Keeps-trans node v₄ v₅ v₆ k₅ k₆)))),
    )

-- The search through a list of children that keep their names.
module _ (v v' : Vfs) (n : ℕ) (k : Keeps n v v') (m : List ℕ) where
  pub find_child-Keeps :
      (children : List ℕ) (r : Option ℕ)
      → find_child v m children ≡ some r
      → find_child v' m children ≡ some r
  unfolding find_child
  find_child-Keeps [] r e = e
  find_child-Keeps (i ∷ children) r e =
      let (x, at, rest) =
        >>=-eq-some (get_elem? v.nodes i)
          (λ y. if same_name y.name m then some (some i) else find_child v m children) e in
      let (y, at', s) = k.alike i x at in
      elim (Bool-cases (same_name x.name m)) [
        | inl hit ↦ rw (at', s.name, hit) (rw hit at rest)
        | inr miss ↦ rw (at', s.name, miss) (find_child-Keeps children r (rw miss at rest))
      ]

  -- With one more child `c` behind them.
  module _ (c : ℕ) (x : VfsNode) (at : get_elem? v'.nodes c ≡ some x) where
    pub find_child-found :
        (children : List ℕ) (i : ℕ)
        → find_child v m children ≡ some (some i)
        → find_child v' m (children ++ c ∷ []) ≡ some (some i)
    unfolding find_child
    find_child-found [] i e = absurd (ground arith)
    find_child-found (j ∷ children) i e =
        let (y, here, rest) =
          >>=-eq-some (get_elem? v.nodes j)
            (λ z. if same_name z.name m then some (some j) else find_child v m children) e in
        let (z, there, s) = k.alike j y here in
        elim (Bool-cases (same_name y.name m)) [
          | inl hit ↦ rw (there, s.name, hit) (rw hit at rest)
          | inr miss ↦ rw (there, s.name, miss) (find_child-found children i (rw miss at rest))
        ]

    pub find_child-last :
        (children : List ℕ)
        → find_child v m children ≡ some none
        → find_child v' m (children ++ c ∷ []) ≡ some (if same_name x.name m then some c else none)
    unfolding find_child
    find_child-last [] e = elim (Bool-cases (same_name x.name m)) [
      | inl hit ↦ rw (at, hit) refl
      | inr miss ↦ rw (at, miss) refl
    ]
    find_child-last (j ∷ children) e =
        let (y, here, rest) =
          >>=-eq-some (get_elem? v.nodes j)
            (λ z. if same_name z.name m then some (some j) else find_child v m children) e in
        let (z, there, s) = k.alike j y here in
        elim (Bool-cases (same_name y.name m)) [
          | inl hit ↦ absurd (ground (arith, rw hit at rest))
          | inr miss ↦ rw (there, s.name, miss) (find_child-last children (rw miss at rest))
        ]
