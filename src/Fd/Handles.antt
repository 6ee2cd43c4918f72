-- ===== src/Fd/Handles.antt =====
-- Descriptors and the file handles that they share: `fd_dup`, `fd_dup2`, `fd_close`,
-- `syscall_fcntl` and `syscall_pipe` of kernel/fs/fd.c.
pub mod Count
pub mod Close
pub mod Dup
pub mod Keep
use pastoral.Base.{
  ℕ, zero, suc, ◌+◌, ◌-◌, ◌*◌, ◌%◌, ◌^◌, Bool, true, false, not, Option, none, some, List, [], ◌∷◌,
  ◌++◌, length, replicate, ltb, ◌==◌, if◌then◌else◌, ◌>>=◌, get_elem?, set, bit_and, bit_or,
  complement,
}
use pastoral.Bitmap.{Bitmap, bit_test, bit_set}
use pastoral.Bitmap
use pastoral.Process.{Reply, ret, fail, minus_one, ebadf, einval}
use pastoral.Fd.{
  Stat, Asset, FileHandle, FdHandle, Files, fd_translate, file_at, put_file, push_fd, delete_fd,
  o_accmode, o_rdonly, o_wronly, s_ififo, ReadOp, WriteOp,
}

abbrev pub fd_cloexec : ℕ
fd_cloexec = 1

-- A descriptor as a 64-bit index: a negative `int` extends to a huge number.
unfoldable pub as_index : ℕ → ℕ
as_index fd = if ltb fd (2 ^ 31) then fd else fd + 2 ^ 64 - 2 ^ 32

-- `bitmap_alloc` of the descriptors; -1 is kept as the number.
unfoldable pub alloc_fd : Files → Option (ℕ × Files)
alloc_fd s = do
  (found, b) ← Bitmap.alloc s.fd_bitmap
  some (elim found [ some i ↦ i % 2 ^ 32 | none ↦ 2 ^ 32 - 1 ], record s { fd_bitmap = b })

-- `file_get` and `file_put`; `refcnt` is an `int`, here its 32-bit word.
unfoldable pub file_get : ℕ → Files → Option Files
unfolding put_file
file_get p s = do
  file ← file_at p s
  some (put_file p (record file { refcnt = (file.refcnt + 1) % 2 ^ 32 }) s)

unfoldable pub file_put : ℕ → Files → Option Files
unfolding put_file
file_put p s = do
  file ← file_at p s
  let n : ℕ = (file.refcnt + 2 ^ 32 - 1) % 2 ^ 32
  some (
      if n == 0
      then record s { file_handles = set s.file_handles p none }
      else put_file p (record file { refcnt = n }) s)

-- `fd_close_unlocked`; what `close` of the asset does to its device is not part of the state.
unfoldable pub fd_close_unlocked : FdHandle → Files → Option Files
unfolding delete_fd as_index
fd_close_unlocked h s = do
  s₁ ← file_put h.file_handle s
  b ← Bitmap.free s₁.fd_bitmap (as_index h.fd_number)
  some (record s₁ { fd_list = delete_fd h.fd_number s₁.fd_list; fd_bitmap = b })

unfoldable pub fd_close : ℕ → Files → Option (Reply × Files)
unfolding fd_close_unlocked
fd_close fd s = elim (fd_translate fd s) [
  | none ↦ some (fail ebadf, s)
  | some h ↦ (do s' ← fd_close_unlocked h s; some (ret 0, s'))
]

-- The flags of a copy, with FD_CLOEXEC cleared or set.
unfoldable pub dup_flags : Bool → ℕ → ℕ
dup_flags true flags = bit_and flags (complement 32 fd_cloexec)
dup_flags false flags = bit_or flags fd_cloexec

unfoldable pub fd_dup : ℕ → Bool → Files → Option (Reply × Files)
unfolding dup_flags push_fd
fd_dup fd clear_cloexec s = elim (fd_translate fd s) [
  | none ↦ some (fail ebadf, s)
  | some h ↦ do
    (n, s₁) ← alloc_fd s
    s₂ ← file_get h.file_handle s₁
    let copy : FdHandle = record {
      file_handle = h.file_handle;
      fd_number = n;
      flags = dup_flags clear_cloexec h.flags;
    }
    some (ret n, record s₂ { fd_list = push_fd copy s₂.fd_list })
]

-- The descriptor `newfd` is closed if its bit is set; a bit without a handle is a NULL pointer.
unfoldable pub close_if_open : ℕ → Files → Option Files
close_if_open newfd s = do
  t ← bit_test s.fd_bitmap.data_bytes (as_index newfd)
  if t == 0 then some s else (do h ← fd_translate newfd s; fd_close_unlocked h s)

unfoldable pub fd_dup2 : ℕ → ℕ → Files → Option (Reply × Files)
unfolding dup_flags push_fd
fd_dup2 oldfd newfd s = elim (fd_translate oldfd s) [
  | none ↦ some (fail ebadf, s)
  | some h ↦ if oldfd == newfd then some (ret newfd, s) else (do
    s₁ ← file_get h.file_handle s
    s₂ ← close_if_open newfd s₁
    bits ← bit_set s₂.fd_bitmap.data_bytes (as_index newfd)
    let copy : FdHandle = record {
      file_handle = h.file_handle;
      fd_number = newfd;
      flags = dup_flags true h.flags;
    }
    some (
      ret newfd,
      record s₂ {
        fd_list = push_fd copy s₂.fd_list;
        fd_bitmap = record s₂.fd_bitmap { data_bytes = bits };
      },
    ))
]

-- `syscall_fcntl`; registers are 64-bit words, descriptors and flags their low halves.
unfoldable pub fcntl : ℕ → ℕ → ℕ → Files → Option (Reply × Files)
unfolding fd_dup push_fd put_file
fcntl rdi rsi rdx s =
    let fd = rdi % 2 ^ 32 in
    elim (fd_translate fd s) [
      | none ↦ some (fail ebadf, s)
      | some h ↦
          if rsi == 1
          then fd_dup fd true s
          else if rsi == 2
          then fd_dup fd false s
          else if rsi == 3
          then some (ret h.flags, s)
          else if rsi == 4
          then some
              (ret 0, record s { fd_list = push_fd (record h { flags = rdx % 2 ^ 32 }) s.fd_list })
          else if rsi == 5
          then (file_at h.file_handle s >>= λ file. some (ret file.flags, s))
          else if rsi == 6
          then (if bit_and rdx o_accmode == 0
              then (file_at h.file_handle s >>= λ file.
                  some (ret 0, put_file h.file_handle (record file { flags = rdx % 2 ^ 32 }) s))
              else some (fail einval, s))
          else some (fail einval, s)
    ]

-- `syscall_pipe`: two descriptors, two file handles on one `stat` and one buffer. `read` and `write`
-- stand for `pipe_read` and `pipe_write`. The result is the pair of descriptors.
unfoldable pub pipe : ReadOp → WriteOp → Files → Option ((ℕ × ℕ) × Files)
unfolding push_fd
pipe read write s = do
  (r, s₁) ← alloc_fd s
  (w, s₂) ← alloc_fd s₁
  let st : ℕ = length s.stats
  let file : ℕ = length s.file_handles
  let buffer : ℕ = length s.pipes
  let reader : FileHandle = record {
    refcnt = 1;
    asset = record { stat = st; read = some read; write = none };
    flags = o_rdonly;
    position = 0;
    pipe = some buffer;
  }
  let writer : FileHandle = record {
    refcnt = 1;
    asset = record { stat = st; read = none; write = some write };
    flags = o_wronly;
    position = 0;
    pipe = some buffer;
  }
  let handles : List FdHandle =
      push_fd (record { file_handle = file + 1; fd_number = w; flags = 0 })
        (push_fd (record { file_handle = file; fd_number = r; flags = 0 }) s₂.fd_list)
  some (
    (r, w),
    record s₂ {
      fd_list = handles;
      file_handles = s.file_handles ++ (some reader ∷ some writer ∷ []);
      stats =
          s.stats
          ++ (record { st_mode = bit_or s_ififo 128; st_uid = 0; st_gid = 0; st_size = 0 } ∷ []);
      pipes = s.pipes ++ (replicate 0x10000 0 ∷ []);
    },
  )
