-- ===== src/Fd/Handles/Close.antt =====
-- `fd_close` gives a descriptor back and frees a file handle with its last descriptor.
use pastoral.Base.{
  ℕ, ◌+◌, ◌-◌, ◌*◌, ◌%◌, ◌^◌, ◌<◌, ◌≤◌, ◌≡◌, ◌≢◌, refl, inl, inr, true, false, ◌==◌, if◌then◌else◌,
  Option, none, some, arith, Bool-cases, ap, sym, subst, ◌∙◌, get_elem?, set, get_elem?-set_self,
  get_elem?-set_ne, lt_of_get_elem?, >>=-eq-some, ltb, lt→ltb,
}
use pastoral.Bitmap.{Bitmap, get_bit, drop_bit}
use pastoral.Bitmap
use pastoral.Bitmap.Alloc.{IsValid, used, get_bit-ge, free-drop, drop-IsValid}
use pastoral.Bitmap.Bytes.{get_bit-drop_bit}
use pastoral.Process.{ret}
use pastoral.Fd.{FileHandle, FdHandle, Files, search_fd, delete_fd, fd_translate, file_at, put_file}
use pastoral.Fd.Handles.{as_index, file_put, fd_close_unlocked, fd_close}
use pastoral.Fd.Handles.Count.{IsCounted}
use pastoral.Fd.Handles.Keep.{
  count, search_fd-number, search_fd-delete_fd_ne, count-delete_fd, count-pos, delete_fd-Distinct,
}

-- `bitmap_free` of a used index: whether it clears the bit or ignores the index, the map stays valid
-- and the other bits stay.
free-others :
    (b : Bitmap) (i : ℕ)
    → IsValid b
    → used b i ≡ 1
    → (b' : Bitmap) × (Bitmap.free b i ≡ some b')
      × IsValid b'
      × (b'.resizable ≡ b.resizable)
      × ((j : ℕ) → j ≢ i → used b' j ≡ used b j)
free-others b i v u = elim (Bool-cases (ltb b.size i)) [
  | inl above ↦ (b, unfold Bitmap.free in rw above refl, v, refl, λ j ne. refl)
  | inr within ↦
      let room : i < 8 * b.size = ground (arith, get_bit-ge b.data_bytes i, v.bytes) in
      (
        record b { data_bytes = drop_bit b.data_bytes i },
        free-drop b i v (ground arith) (omega arith),
        drop-IsValid b i v,
        refl,
        λ j ne. get_bit-drop_bit b.data_bytes i j (omega (arith, v.bytes)) ∙ ground arith,
      )
]

-- What `file_put` makes of the file handle `p`, which has `n + 1` descriptors.
abbrev put_back : ℕ → FileHandle → Option FileHandle
put_back n f = if n == 0 then none else some (record f { refcnt = n })

file_put-drop :
    (p n : ℕ) (f : FileHandle) (s : Files)
    → file_at p s ≡ some f
    → f.refcnt ≡ n + 1
    → f.refcnt < 2 ^ 32
    → file_put p s ≡ some (record s { file_handles = set s.file_handles p (put_back n f) })
unfolding file_put put_file
file_put-drop p n f s e c small =
    let down : (f.refcnt + 2 ^ 32 - 1) % 2 ^ 32 ≡ n = omega arith in
    rw (e, down) (elim (Bool-cases (n == 0)) [ inl z ↦ rw z refl | inr z ↦ rw z refl ])

file_at-set :
    (p q : ℕ) (o : Option FileHandle) (s t : Files) {g : FileHandle}
    → file_at q s ≡ some g
    → t.file_handles ≡ set s.file_handles q o
    → file_at p t ≡ (if p == q then o else file_at p s)
unfolding file_at
file_at-set p q o s t e same =
    let (x, in_heap, _) = >>=-eq-some (get_elem? s.file_handles q) (λ f. f) e in
    elim (Bool-cases (p == q)) [
      | inl b ↦
          let r : p ≡ q = ground arith in
          rw
            (
              same,
              r,
              get_elem?-set_self s.file_handles q o (lt_of_get_elem? s.file_handles q in_heap),
            )
            (ground arith)
      | inr b ↦ rw (same, get_elem?-set_ne s.file_handles q p o (ground arith), b) refl
    ]

-- What `fd_close` of a descriptor makes: it is gone, the others are as before, and its file handle is
-- freed exactly if it was the last descriptor on it.
pub record Closed (fd : ℕ) (h : FdHandle) (s s' : Files) : Type 0 where
  pub gone : search_fd fd s'.fd_list ≡ none
  pub others : (d : ℕ) → d ≢ fd → search_fd d s'.fd_list ≡ search_fd d s.fd_list
  pub freed : count h.file_handle s.fd_list ≡ 1 → file_at h.file_handle s' ≡ none
  pub kept :
      2 ≤ count h.file_handle s.fd_list → (f : FileHandle) × (file_at h.file_handle s' ≡ some f)
  pub counted : IsCounted s'

abbrev closed : ℕ → FdHandle → ℕ → FileHandle → Bitmap → Files → Files
closed fd h n f b s = record s {
  file_handles = set s.file_handles h.file_handle (put_back n f);
  fd_list = delete_fd fd s.fd_list;
  fd_bitmap = b;
}

fd_close_lem :
    (fd n : ℕ) (h : FdHandle) (f : FileHandle) (b : Bitmap) (s : Files)
    → fd_translate fd s ≡ some h
    → h.fd_number ≡ fd
    → fd < 2 ^ 31
    → file_put h.file_handle s
      ≡ some (record s { file_handles = set s.file_handles h.file_handle (put_back n f) })
    → Bitmap.free s.fd_bitmap fd ≡ some b
    → fd_close fd s ≡ some (ret 0, closed fd h n f b s)
unfolding fd_close fd_close_unlocked as_index
fd_close_lem fd n h f b s t number small put free =
    let index : ltb fd (2 ^ 31) ≡ true = lt→ltb fd (2 ^ 31) small in
    rw (t, fd_close, number, put, index, free) refl

module _ (s : Files) (fd n : ℕ) (h : FdHandle) (f : FileHandle) (b : Bitmap) (k : IsCounted s)
    (found : search_fd fd s.fd_list ≡ some h) (live : file_at h.file_handle s ≡ some f)
    (many : count h.file_handle s.fd_list ≡ n + 1) where
  abbrev s' : Files
  s' = closed fd h n f b s

  s'-file_at : (p : ℕ) → file_at p s' ≡ (if p == h.file_handle then put_back n f else file_at p s)
  s'-file_at p = file_at-set p h.file_handle (put_back n f) s s' live refl

  s'-count :
      (p : ℕ) → count p s'.fd_list + (if h.file_handle == p then 1 else 0) ≡ count p s.fd_list
  s'-count p = count-delete_fd p fd s.fd_list found

  s'-exact : (p : ℕ) (g : FileHandle) → file_at p s' ≡ some g → g.refcnt ≡ count p s'.fd_list
  s'-exact p g e = elim (Bool-cases (p == h.file_handle)) [
    | inl q ↦
        let same : p ≡ h.file_handle = ground arith in
        let back : put_back n f ≡ some g = sym (rw q at (s'-file_at p)) ∙ e in
        (elim (Bool-cases (n == 0)) [
          | inl z ↦ absurd (ground (arith, rw z at back))
          | inr z ↦
              let is_g : record f { refcnt = n } ≡ g = ground (arith, rw z at back) in
              let new : n ≡ g.refcnt = ap (λ x. x.refcnt) is_g in
              ground (arith, many, s'-count p, ap (λ (x : ℕ). count x s.fd_list) same)
        ])
    | inr q ↦
        let old : file_at p s ≡ some g = sym (rw q at (s'-file_at p)) ∙ e in
        ground (arith, k.exact p g old, s'-count p)
  ]

  s'-live : (p : ℕ) → 1 ≤ count p s'.fd_list → (g : FileHandle) × (file_at p s' ≡ some g)
  s'-live p some_fd = elim (Bool-cases (p == h.file_handle)) [
    | inl q ↦
        let same : p ≡ h.file_handle = ground arith in
        let more : (n == 0) ≡ false =
          ground (arith, many, s'-count p, ap (λ (x : ℕ). count x s.fd_list) same) in
        (record f { refcnt = n }, (rw q at (s'-file_at p)) ∙ rw more refl)
    | inr q ↦ let (g, e) = k.live p (omega (arith, s'-count p)) in (g, (rw q at (s'-file_at p)) ∙ e)
  ]

-- `fd_close` of an open descriptor, whose file handle has fewer than 2 ^ 32 descriptors, succeeds: the
-- descriptor is gone, the others are as before, the file handle is freed exactly if this was the last
-- descriptor on it, and every reference count stays the number of its descriptors.
pub fd_close-Closed :
    (fd : ℕ) (s : Files) (h : FdHandle)
    → IsCounted s
    → fd_translate fd s ≡ some h
    → count h.file_handle s.fd_list < 2 ^ 32
    → (s' : Files) × (fd_close fd s ≡ some (ret 0, s')) × Closed fd h s s'
fd_close-Closed fd s h k t few =
    let found : search_fd fd s.fd_list ≡ some h = unfold fd_translate in t in
    let pos : 1 ≤ count h.file_handle s.fd_list = count-pos fd s.fd_list found in
    let n : ℕ = count h.file_handle s.fd_list - 1 in
    let many : count h.file_handle s.fd_list ≡ n + 1 = omega arith in
    let (f, at) = k.live h.file_handle pos in
    let number : h.fd_number ≡ fd = search_fd-number fd s.fd_list found in
    let (small, in_use) = k.tracked fd h found in
    let (b, free, valid, kind, rest) = free-others s.fd_bitmap fd k.bitmap in_use in
    let refs : f.refcnt ≡ n + 1 = k.exact h.file_handle f at ∙ many in
    let put = file_put-drop h.file_handle n f s at refs (omega arith) in
    (
      s' s fd n h f b k found at many,
      fd_close_lem fd n h f b s t number small put free,
      record {
        gone = k.distinct fd;
        others = λ d ne. search_fd-delete_fd_ne d fd s.fd_list ne;
        freed = λ one. s'-file_at s fd n h f b k found at many h.file_handle ∙ ground arith;
        kept = λ two. (
          record f { refcnt = n },
          s'-file_at s fd n h f b k found at many h.file_handle ∙ ground arith,
        );
        counted = record {
          exact = s'-exact s fd n h f b k found at many;
          live = s'-live s fd n h f b k found at many;
          distinct = delete_fd-Distinct fd s.fd_list k.distinct;
          tracked = λ d g e. elim (Bool-cases (d == fd)) [
            | inl p ↦
                let same : d ≡ fd = ground arith in
                absurd (
                  ground (
                    arith,
                    k.distinct fd,
                    subst (λ (x : ℕ). search_fd x (delete_fd fd s.fd_list) ≡ some g) same e,
                  ))
            | inr p ↦
                let before =
                  k.tracked d g (sym (search_fd-delete_fd_ne d fd s.fd_list (ground arith)) ∙ e) in
                (before.0, rest d (ground arith) ∙ before.1)
          ];
          bitmap = valid;
          growable = kind ∙ k.growable;
        };
      },
    )
