-- ===== src/Fd/Handles/Count.antt =====
-- The reference counts of file handles: each is the number of descriptors on the handle.
use pastoral.Base.{
  ℕ, ◌-◌, ◌*◌, ◌%◌, ◌^◌, ◌<◌, ◌≤◌, ◌≡◌, refl, inl, inr, true, ◌==◌, if◌then◌else◌, some, length,
  arith, Bool-cases, ◌∙◌, get_elem?, get_elem?-set_self, get_elem?-set_ne, lt_of_get_elem?,
  >>=-eq-some,
}
use pastoral.Bitmap.{Bitmap}
use pastoral.Bitmap.Alloc.{IsValid, used, Allocated, alloc-Allocated, get_bit-ge}
use pastoral.Fd.{FileHandle, FdHandle, Files, search_fd, file_at, put_file}
use pastoral.Fd.Handles.{alloc_fd}
use pastoral.Fd.Handles.Keep.{count, Distinct}

-- The state in which descriptors are shared: every file handle that a descriptor leads to is
-- allocated, its count is the number of its descriptors, descriptors are distinct and not negative,
-- and the bitmap knows them.
pub record IsCounted (s : Files) : Type 0 where
  pub exact : (p : ℕ) (f : FileHandle) → file_at p s ≡ some f → f.refcnt ≡ count p s.fd_list
  pub live : (p : ℕ) → 1 ≤ count p s.fd_list → (f : FileHandle) × (file_at p s ≡ some f)
  pub distinct : Distinct s.fd_list
  pub tracked :
      (fd : ℕ) (h : FdHandle)
      → search_fd fd s.fd_list ≡ some h
      → (fd < 2 ^ 31) × (used s.fd_bitmap fd ≡ 1)
  pub bitmap : IsValid s.fd_bitmap
  pub growable : s.fd_bitmap.resizable ≡ true

pub file_at-put_file :
    (p q : ℕ) (f : FileHandle) (s : Files) {g : FileHandle}
    → file_at q s ≡ some g
    → file_at p (put_file q f s) ≡ (if p == q then some f else file_at p s)
unfolding file_at put_file
file_at-put_file p q f s e =
    let (x, in_heap, _) = >>=-eq-some (get_elem? s.file_handles q) (λ f. f) e in
    elim (Bool-cases (p == q)) [
      | inl b ↦
          let same : p ≡ q = ground arith in
          rw same (
            rw
              (get_elem?-set_self s.file_handles q (some f)
                (lt_of_get_elem? s.file_handles q in_heap))
              (ground arith))
      | inr b ↦ rw (get_elem?-set_ne s.file_handles q p (some f) (ground arith), b) refl
    ]

-- A new descriptor: the lowest one that the bitmap has not handed out.
pub record Fresh (s : Files) (n : ℕ) (s' : Files) : Type 0 where
  pub same_rest : s' ≡ record s { fd_bitmap = s'.fd_bitmap }
  pub was_free : used s.fd_bitmap n ≡ 0
  pub now_used : (j : ℕ) → used s'.fd_bitmap j ≡ (if j == n then 1 else used s.fd_bitmap j)
  pub valid : IsValid s'.fd_bitmap
  pub growable : s'.fd_bitmap.resizable ≡ true
  pub small : n < 2 ^ 31

pub alloc_fd-Fresh :
    (s : Files)
    → IsValid s.fd_bitmap
    → s.fd_bitmap.resizable ≡ true
    → s.fd_bitmap.size < 2 ^ 28 - 1
    → (n : ℕ) × (s' : Files) × (alloc_fd s ≡ some (n, s')) × Fresh s n s'
unfolding alloc_fd
alloc_fd-Fresh s v g room =
    let (i, b, e, a) = alloc-Allocated s.fd_bitmap v g in
    let low : i ≤ 8 * length s.fd_bitmap.data_bytes = bounded i b a in
    let cut : i % 2 ^ 32 ≡ i = omega (arith, v.bytes) in
    (
      i,
      record s { fd_bitmap = b },
      rw (e, cut) refl,
      record {
        same_rest = refl;
        was_free = a.was_free;
        now_used = a.now_used;
        valid = a.valid;
        growable = a.kind ∙ g;
        small = omega (arith, v.bytes);
      },
    )
  where
    bounded :
        (i : ℕ) (b : Bitmap) → Allocated s.fd_bitmap i b → i ≤ 8 * length s.fd_bitmap.data_bytes
    bounded i b a = ground (
      arith,
      get_bit-ge s.fd_bitmap.data_bytes (8 * length s.fd_bitmap.data_bytes),
      a.lowest (8 * length s.fd_bitmap.data_bytes),
    )

pub file_at-frame :
    (p : ℕ) (s t : Files) → t.file_handles ≡ s.file_handles → file_at p t ≡ file_at p s
unfolding file_at
file_at-frame p s t e = rw e refl
