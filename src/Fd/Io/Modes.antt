-- ===== src/Fd/Io/Modes.antt =====
-- F_SETFL of `syscall_fcntl` and the access modes that `fd_read` and `fd_write` test.
use pastoral.Base.{
  ℕ, ◌%◌, ◌^◌, ◌<◌, ◌≡◌, refl, false, some, List, [], arith, ◌∙◌, get_elem?, bit_and,
}
use pastoral.Process.{ret, fail, ebadf}
use pastoral.Fd.{
  FileHandle, FdHandle, Files, Stat, fd_translate, file_at, put_file, is_kind, s_ifdir, o_accmode,
  ReadOp, WriteOp,
}
use pastoral.Fd.Io.{fd_read, fd_write, readable, writable}
use pastoral.Fd.Handles.{fcntl}
use pastoral.Fd.Handles.Count.{file_at-put_file}

abbrev with_flags : FdHandle → FileHandle → ℕ → Files → Files
with_flags h f rdx s = put_file h.file_handle (record f { flags = rdx % 2 ^ 32 }) s

fcntl-setfl :
    (fd rdx : ℕ) (h : FdHandle) (f : FileHandle) (s : Files)
    → fd < 2 ^ 32
    → fd_translate fd s ≡ some h
    → file_at h.file_handle s ≡ some f
    → bit_and rdx o_accmode ≡ 0
    → fcntl fd 6 rdx s ≡ some (ret 0, with_flags h f rdx s)
unfolding fcntl
fcntl-setfl fd rdx h f s small t at z =
    let low : fd % 2 ^ 32 ≡ fd = omega arith in rw (low, t, fcntl, z, at) refl

fd_read-blocked :
    (fd count : ℕ) (h : FdHandle) (f : FileHandle) (st : Stat) (s : Files) {op : ReadOp}
    → fd_translate fd s ≡ some h
    → file_at h.file_handle s ≡ some f
    → get_elem? s.stats f.asset.stat ≡ some st
    → is_kind s_ifdir st ≡ false
    → f.asset.read ≡ some op
    → readable f ≡ false
    → fd_read fd count s ≡ some (fail ebadf, [], s)
fd_read-blocked fd count h f st s t at stat dir op no_access =
    unfold fd_read in rw (t, fd_read, at, stat, dir, op, no_access) refl

fd_write-blocked :
    (fd : ℕ) (bytes : List ℕ) (h : FdHandle) (f : FileHandle) (st : Stat) (s : Files) {op : WriteOp}
    → fd_translate fd s ≡ some h
    → file_at h.file_handle s ≡ some f
    → get_elem? s.stats f.asset.stat ≡ some st
    → f.asset.write ≡ some op
    → writable f ≡ false
    → fd_write fd bytes s ≡ some (fail ebadf, s)
fd_write-blocked fd bytes h f st s t at stat op no_access =
    unfold fd_write in rw (t, fd_write, at, stat, op, no_access) refl

-- After a successful F_SETFL, which allows no access mode among its flags, a file that is no directory
-- and whose asset has both operations can neither be read nor written through any descriptor on its file
-- handle, the one of the call and its duplicates: both fail with EBADF.
pub fcntl-fd_read :
    (fd fd' rdx count : ℕ) (bytes : List ℕ) (h h' : FdHandle) (f : FileHandle) (st : Stat)
    (s : Files) (read : ReadOp) (write : WriteOp)
    → fd < 2 ^ 32
    → rdx < 2 ^ 32
    → fd_translate fd s ≡ some h
    → fd_translate fd' s ≡ some h'
    → h'.file_handle ≡ h.file_handle
    → file_at h.file_handle s ≡ some f
    → get_elem? s.stats f.asset.stat ≡ some st
    → is_kind s_ifdir st ≡ false
    → f.asset.read ≡ some read
    → f.asset.write ≡ some write
    → bit_and rdx o_accmode ≡ 0
    → (s' : Files) × (fcntl fd 6 rdx s ≡ some (ret 0, s'))
      × (fd_read fd' count s' ≡ some (fail ebadf, [], s'))
      × (fd_write fd' bytes s' ≡ some (fail ebadf, s'))
unfolding put_file fd_translate
fcntl-fd_read fd fd' rdx count bytes h h' f st s read write small flags t t' shared at stat dir r w
      z =
    let f' : FileHandle = record f { flags = rdx % 2 ^ 32 } in
    let low : rdx % 2 ^ 32 ≡ rdx = omega arith in
    let at' : file_at h.file_handle (with_flags h f rdx s) ≡ some f' =
      file_at-put_file h.file_handle h.file_handle f' s at ∙ ground arith in
    let at'' : file_at h'.file_handle (with_flags h f rdx s) ≡ some f' = rw shared at' in
    (
      with_flags h f rdx s,
      fcntl-setfl fd rdx h f s small t at z,
      fd_read-blocked fd' count h' f' st (with_flags h f rdx s) t' at'' stat dir r
          (unfold readable in rw (low, z) refl),
      fd_write-blocked fd' bytes h' f' st (with_flags h f rdx s) t' at'' stat w
          (unfold writable in rw (low, z) refl),
    )
