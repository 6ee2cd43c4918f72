-- ===== src/Fd/Handles/Dup.antt =====
-- `fd_dup` makes a further descriptor on a file handle.
use pastoral.Base.{
  ℕ, ◌+◌, ◌-◌, ◌%◌, ◌^◌, ◌<◌, ◌≤◌, ◌≡◌, ◌≢◌, refl, inl, inr, Bool, ◌==◌, if◌then◌else◌, Option,
  none, some, arith, Bool-cases, Option-cases, ap, ◌∙◌, set,
}
use pastoral.Bitmap.{Bitmap}
use pastoral.Process.{Reply, ret}
use pastoral.Fd.{FileHandle, FdHandle, Files, search_fd, push_fd, fd_translate, file_at, put_file}
use pastoral.Fd.Handles.{alloc_fd, file_get, fd_dup, dup_flags}
use pastoral.Fd.Handles.Count.{IsCounted, file_at-put_file, file_at-frame, Fresh, alloc_fd-Fresh}
use pastoral.Fd.Handles.Keep.{count, search_fd-push_fd, count-push_fd, count-pos, push_fd-Distinct}

-- What `fd_dup` of the handle `h` makes: a new descriptor on the same file handle, with every other
-- descriptor as it was.
pub record Duplicated (h : FdHandle) (clear_cloexec : Bool) (s : Files) (n : ℕ) (s' : Files)
    : Type 0 where
  pub fresh : search_fd n s.fd_list ≡ none
  pub copy :
      search_fd n s'.fd_list
      ≡ some (record {
        file_handle = h.file_handle;
        fd_number = n;
        flags = dup_flags clear_cloexec h.flags;
      })
  pub others : (fd : ℕ) → fd ≢ n → search_fd fd s'.fd_list ≡ search_fd fd s.fd_list
  pub counted : IsCounted s'

-- The file handles with one more descriptor on `q`.
abbrev shared : ℕ → FileHandle → Files → Files
shared q f s = put_file q (record f { refcnt = (f.refcnt + 1) % 2 ^ 32 }) s

abbrev duplicate : FdHandle → Bool → ℕ → FdHandle
duplicate h clear_cloexec n = record {
  file_handle = h.file_handle;
  fd_number = n;
  flags = dup_flags clear_cloexec h.flags;
}

abbrev after_dup : FdHandle → Bool → FileHandle → Files → ℕ → Bitmap → Files
after_dup h c f s n b = record (shared h.file_handle f s) {
  fd_list = push_fd (duplicate h c n) s.fd_list;
  fd_bitmap = b;
}

fd_dup_lem :
    (fd : ℕ) (c : Bool) (s : Files) (h : FdHandle) (f : FileHandle) (n : ℕ) (s₁ : Files)
    → fd_translate fd s ≡ some h
    → file_at h.file_handle s ≡ some f
    → alloc_fd s ≡ some (n, s₁)
    → s₁ ≡ record s { fd_bitmap = s₁.fd_bitmap }
    → fd_dup fd c s ≡ some (ret n, after_dup h c f s n s₁.fd_bitmap)
unfolding put_file fd_dup push_fd file_get
fd_dup_lem fd c s h f n s₁ t live a same =
    let at : file_at h.file_handle s₁ ≡ some f =
      file_at-frame h.file_handle s s₁ (ap (λ x. x.file_handles) same) ∙ live in
    let result : Files → Option (Reply × Files) = λ x. some (
      ret n,
      record x {
        file_handles =
            set x.file_handles h.file_handle (some (record f { refcnt = (f.refcnt + 1) % 2 ^ 32 }));
        fd_list = push_fd (duplicate h c n) x.fd_list;
      },
    ) in
    rw (t, fd_dup, a, at, file_get) (ap result same)

module _ (s : Files) (h : FdHandle) (c : Bool) (f : FileHandle) (n : ℕ) (b : Bitmap)
    (k : IsCounted s) (live : file_at h.file_handle s ≡ some f)
    (fresh : search_fd n s.fd_list ≡ none) (few : count h.file_handle s.fd_list < 2 ^ 32 - 1) where
  s' : Files
  s' = after_dup h c f s n b

  s'-file_at :
      (p : ℕ)
      → file_at p s' ≡ (
          if p == h.file_handle
          then some (record f { refcnt = (f.refcnt + 1) % 2 ^ 32 })
          else file_at p s)
  unfolding s' put_file
  s'-file_at p =
      file_at-frame p (shared h.file_handle f s) (after_dup h c f s n b) refl
      ∙ file_at-put_file p h.file_handle (record f { refcnt = (f.refcnt + 1) % 2 ^ 32 }) s live

  s'-count :
      (p : ℕ) → count p s'.fd_list ≡ count p s.fd_list + (if h.file_handle == p then 1 else 0)
  unfolding s'
  s'-count p = count-push_fd p (duplicate h c n) s.fd_list fresh

  s'-search_fd :
      (fd : ℕ)
      → search_fd fd s'.fd_list
        ≡ (if n == fd then some (duplicate h c n) else search_fd fd s.fd_list)
  unfolding s'
  s'-search_fd fd = search_fd-push_fd fd (duplicate h c n) s.fd_list

  s'-exact : (p : ℕ) (g : FileHandle) → file_at p s' ≡ some g → g.refcnt ≡ count p s'.fd_list
  s'-exact p g e = elim (Bool-cases (p == h.file_handle)) [
    | inl q ↦
        let same : p ≡ h.file_handle = ground arith in
        let is_g : record f { refcnt = (f.refcnt + 1) % 2 ^ 32 } ≡ g =
          ground (arith, s'-file_at p, e) in
        let new : (f.refcnt + 1) % 2 ^ 32 ≡ g.refcnt = ap (λ x. x.refcnt) is_g in
        ground
          (arith, k.exact h.file_handle f live, s'-count p, ap (λ (x : ℕ). count x s.fd_list) same)
    | inr q ↦
        let old : file_at p s ≡ some g = ground (arith, s'-file_at p, e) in
        ground (arith, k.exact p g old, s'-count p)
  ]

  s'-live : (p : ℕ) → 1 ≤ count p s'.fd_list → (g : FileHandle) × (file_at p s' ≡ some g)
  s'-live p some_fd = elim (Bool-cases (p == h.file_handle)) [
    | inl q ↦ (record f { refcnt = (f.refcnt + 1) % 2 ^ 32 }, ground (arith, s'-file_at p))
    | inr q ↦
        let (g, e) = k.live p (ground (arith, s'-count p)) in (g, ground (arith, s'-file_at p, e))
  ]

-- `fd_dup` of an open descriptor succeeds, while descriptors are below the bound of the bitmap and the
-- count of the file handle has room: it returns a descriptor that was closed, which is now a copy on
-- the same file handle, keeps the other descriptors, and every reference count stays the number of
-- its descriptors.
pub fd_dup-Duplicated :
    (fd : ℕ) (clear_cloexec : Bool) (s : Files) (h : FdHandle)
    → IsCounted s
    → fd_translate fd s ≡ some h
    → s.fd_bitmap.size < 2 ^ 28 - 1
    → count h.file_handle s.fd_list < 2 ^ 32 - 1
    → (n : ℕ) × (s' : Files) × (fd_dup fd clear_cloexec s ≡ some (ret n, s'))
      × Duplicated h clear_cloexec s n s'
fd_dup-Duplicated fd c s h k t room few =
    let (n, s₁, a, fr) = alloc_fd-Fresh s k.bitmap k.growable room in
    let found : search_fd fd s.fd_list ≡ some h = unfold fd_translate in t in
    let (f, at) = k.live h.file_handle (count-pos fd s.fd_list found) in
    let fresh : search_fd n s.fd_list ≡ none = unseen n s₁ fr in
    (
      n,
      s' s h c f n s₁.fd_bitmap k at fresh few,
      unfold s' in fd_dup_lem fd c s h f n s₁ t at a fr.same_rest,
      record {
        fresh = fresh;
        copy = s'-search_fd s h c f n s₁.fd_bitmap k at fresh few n ∙ ground arith;
        others = λ d ne. s'-search_fd s h c f n s₁.fd_bitmap k at fresh few d ∙ ground arith;
        counted = record {
          exact = s'-exact s h c f n s₁.fd_bitmap k at fresh few;
          live = s'-live s h c f n s₁.fd_bitmap k at fresh few;
          distinct = unfold s' in push_fd-Distinct (duplicate h c n) s.fd_list k.distinct;
          tracked = λ d g e. (
            ground (
              arith,
              s'-search_fd s h c f n s₁.fd_bitmap k at fresh few d,
              e,
              fr.small,
              k.tracked d g,
            ),
            unfold s' in
                ground (
                  arith,
                  s'-search_fd s h c f n s₁.fd_bitmap k at fresh few d,
                  e,
                  fr.now_used d,
                  k.tracked d g,
                ),
          );
          bitmap = unfold s' in fr.valid;
          growable = unfold s' in fr.growable;
        };
      },
    )
  where
    unseen : (n : ℕ) (s₁ : Files) → Fresh s n s₁ → search_fd n s.fd_list ≡ none
    unseen n s₁ fr = elim (Option-cases (search_fd n s.fd_list)) [
      | inl e ↦ e
      | inr (g, e) ↦ absurd (omega (arith, (k.tracked n g e).1, fr.was_free))
    ]
