-- ===== src/Fd/Io.antt =====
-- `fd_seek`, `fd_read` and `fd_write` of kernel/fs/fd.c.
pub mod Modes
use pastoral.Base.{
  ℕ, zero, suc, ◌+◌, ◌-◌, ◌%◌, ◌^◌, Bool, true, false, not, ◌&&◌, ◌||◌, Option, none, some, List,
  [], ◌∷◌, length, ◌==◌, if◌then◌else◌, ◌>>=◌, get_elem?, set, bit_and,
}
use pastoral.Process.{Reply, ret, fail, minus_one, ebadf, espipe, einval, enodev, eisdir}
use pastoral.Fd.{
  Stat, Asset, FileHandle, FdHandle, Files, fd_translate, file_at, put_file, is_kind, s_ififo,
  s_ifdir, s_ifsock, o_accmode, o_rdonly, o_rdwr, o_wronly, o_append, ReadOp, WriteOp,
}

-- The position that `whence` asks for: SEEK_CUR is 1, SEEK_END 2, SEEK_SET 3.
unfoldable pub seek_to : ℕ → ℕ → ℕ → ℕ → Option ℕ
seek_to whence offset position st_size =
    if whence == 3
    then some offset
    else if whence == 1
    then some ((position + offset) % 2 ^ 64)
    else if whence == 2
    then some ((st_size + offset) % 2 ^ 64)
    else none

-- `fd_seek`. The outer Option: `none` is an access to freed memory.
unfoldable pub fd_seek : ℕ → ℕ → ℕ → Files → Option (Reply × Files)
unfolding seek_to put_file
fd_seek fd offset whence s = elim (fd_translate fd s) [
  | none ↦ some (fail ebadf, s)
  | some h ↦ do
    file ← file_at h.file_handle s
    stat ← get_elem? s.stats file.asset.stat
    if is_kind s_ififo stat || is_kind s_ifsock stat
        then some (fail espipe, s)
        else (elim (seek_to whence offset file.position stat.st_size) [
          | none ↦ some (fail einval, s)
          | some p ↦ some (ret p, put_file h.file_handle (record file { position = p }) s)
        ])
]

-- The buffer that an operation gets: that of the pipe, if the file is a FIFO with one.
unfoldable pub buffer_of : Stat → FileHandle → Files → Option (Option ℕ × List ℕ)
buffer_of stat file s = elim file.pipe [
  | none ↦ some (none, [])
  | some p ↦
      if is_kind s_ififo stat
      then (get_elem? s.pipes p >>= λ b. some (some p, b))
      else some (none, [])
]

unfoldable pub put_buffer : Option ℕ → List ℕ → Files → Files
put_buffer none b s = s
put_buffer (some p) b s = record s { pipes = set s.pipes p b }

-- `if(ret != -1) position += ret`
unfoldable pub advance : Reply → FileHandle → FileHandle
advance (ret n) file =
    if n == 2 ^ 64 - 1 then file else record file { position = (file.position + n) % 2 ^ 64 }
advance (fail e) file = file
advance minus_one file = file

-- The access modes that allow reading and writing.
unfoldable pub readable : FileHandle → Bool
readable file = bit_and file.flags o_accmode == o_rdonly || bit_and file.flags o_accmode == o_rdwr

unfoldable pub writable : FileHandle → Bool
writable file = bit_and file.flags o_accmode == o_wronly || bit_and file.flags o_accmode == o_rdwr

-- `fd_read`; the second part are the bytes that are read.
unfoldable pub fd_read : ℕ → ℕ → Files → Option (Reply × List ℕ × Files)
unfolding buffer_of advance readable put_file
fd_read fd count s = elim (fd_translate fd s) [
  | none ↦ some (fail ebadf, [], s)
  | some h ↦ do
    file ← file_at h.file_handle s
    stat ← get_elem? s.stats file.asset.stat
    if is_kind s_ifdir stat then some (fail eisdir, [], s) else (elim file.asset.read [
      | none ↦ some (fail enodev, [], s)
      | some op ↦ if not (readable file) then some (fail ebadf, [], s) else (do
        (pipe, buffer) ← buffer_of stat file s
        (result, bytes, stat') ← op buffer file.position count stat
        some (
          result,
          bytes,
          put_file h.file_handle (advance result file)
              (record s { stats = set s.stats file.asset.stat stat' }),
        ))
    ])
]

-- The position at which `fd_write` writes.
unfoldable pub write_position : Stat → FileHandle → Option ℕ → ℕ
write_position stat file (some p) = file.position
write_position stat file none =
    if bit_and file.flags o_append == 0 then file.position else stat.st_size

unfoldable pub fd_write : ℕ → List ℕ → Files → Option (Reply × Files)
unfolding buffer_of put_buffer advance writable write_position put_file
fd_write fd bytes s = elim (fd_translate fd s) [
  | none ↦ some (fail ebadf, s)
  | some h ↦ do
    file ← file_at h.file_handle s
    stat ← get_elem? s.stats file.asset.stat
    elim file.asset.write [
      | none ↦ some (fail enodev, s)
      | some op ↦ if not (writable file) then some (fail ebadf, s) else (do
        (pipe, buffer) ← buffer_of stat file s
        let at : ℕ = write_position stat file pipe
        (result, buffer', stat') ← op buffer at bytes stat
        some (
          result,
          put_buffer pipe buffer' (
              put_file h.file_handle (advance result (record file { position = at }))
                (record s { stats = set s.stats file.asset.stat stat' })),
        ))
    ]
]
