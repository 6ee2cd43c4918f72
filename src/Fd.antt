-- ===== src/Fd.antt =====
-- The open files of a task: kernel/fs/fd.c and kernel/fs/fd.h, with `struct stat` and `struct asset`
-- of kernel/fs/vfs.h as far as they are used there.
pub mod Access
pub mod Pipe
pub mod Io
pub mod Handles
mod Tests
use pastoral.Base.{
  ℕ, zero, suc, ◌+◌, ◌-◌, ◌*◌, ◌/◌, ◌%◌, ◌^◌, Bool, true, false, not, ◌&&◌, ◌||◌, Option, none,
  some, List, [], ◌∷◌, length, ltb, leb, ◌==◌, if◌then◌else◌, bit_and, bit_or, complement,
  get_elem?, set, ◌>>=◌,
}
use pastoral.Bitmap.{Bitmap}
use pastoral.Process.{Reply, ret, fail, minus_one}

-- `struct stat`: ids and mode are 32-bit words, the size a 64-bit word.
pub record Stat : Type 0 where
  pub st_mode : ℕ
  pub st_uid : ℕ
  pub st_gid : ℕ
  pub st_size : ℕ

abbrev pub s_ifmt : ℕ
s_ifmt = 0xf000

abbrev pub s_ififo : ℕ
s_ififo = 0x1000

abbrev pub s_ifdir : ℕ
s_ifdir = 0x4000

abbrev pub s_ifsock : ℕ
s_ifsock = 0xc000

-- `S_ISFIFO`, `S_ISDIR` and `S_ISSOCK`
abbrev pub is_kind : ℕ → Stat → Bool
is_kind kind s = bit_and s.st_mode s_ifmt == kind

-- What an operation of an asset makes of the buffer of a pipe (empty for other assets), a position, a
-- count of bytes or the bytes, and the `stat` of the asset: the result, an `ssize_t` as a 64-bit
-- word, the bytes that were read, the buffer, and the `stat`. `none` is a fault.
abbrev pub ReadOp : Type 0
ReadOp = List ℕ → ℕ → ℕ → Stat → Option (Reply × List ℕ × Stat)

abbrev pub WriteOp : Type 0
WriteOp = List ℕ → ℕ → List ℕ → Stat → Option (Reply × List ℕ × Stat)

-- `struct asset`: `stat` is a pointer, here the index into the table of `stat` records; the other
-- fields are function pointers, `none` for NULL. The operations of an asset are those of its driver.
pub record Asset : Type 0 where
  pub stat : ℕ
  pub read : Option ReadOp
  pub write : Option WriteOp

-- `struct file_handle`; `pipe` is the index of its pipe's buffer.
pub record FileHandle : Type 0 where
  pub refcnt : ℕ
  pub asset : Asset
  pub flags : ℕ
  pub position : ℕ
  pub pipe : Option ℕ

-- `struct fd_handle`; `file_handle` is an index into the file handles. Descriptors are 32-bit words.
pub record FdHandle : Type 0 where
  pub file_handle : ℕ
  pub fd_number : ℕ
  pub flags : ℕ

-- The open files of the current task: the table of handles, keyed by descriptor, its bitmap, and the
-- heap with the file handles (`none`: freed), the `stat` records and the buffers of pipes.
pub record Files : Type 0 where
  pub fd_list : List FdHandle
  pub fd_bitmap : Bitmap
  pub file_handles : List (Option FileHandle)
  pub stats : List Stat
  pub pipes : List (List ℕ)

-- `hash_table_search`, `hash_table_push` and `hash_table_delete` on the table of handles.
unfoldable pub search_fd : ℕ → List FdHandle → Option FdHandle
search_fd fd [] = none
search_fd fd (h ∷ hs) = if h.fd_number == fd then some h else search_fd fd hs

unfoldable pub push_fd : FdHandle → List FdHandle → List FdHandle
push_fd h [] = h ∷ []
push_fd h (k ∷ ks) = if k.fd_number == h.fd_number then h ∷ ks else k ∷ push_fd h ks

unfoldable pub delete_fd : ℕ → List FdHandle → List FdHandle
delete_fd fd [] = []
delete_fd fd (h ∷ hs) = if h.fd_number == fd then hs else h ∷ delete_fd fd hs

-- `fd_translate`
unfoldable pub fd_translate : ℕ → Files → Option FdHandle
unfolding search_fd
fd_translate fd s = search_fd fd s.fd_list

-- The file handle behind a pointer; `none`: it has been freed.
unfoldable pub file_at : ℕ → Files → Option FileHandle
file_at p s = get_elem? s.file_handles p >>= λ f. f

unfoldable pub put_file : ℕ → FileHandle → Files → Files
put_file p f s = record s { file_handles = set s.file_handles p (some f) }

abbrev pub o_accmode : ℕ
o_accmode = 7

abbrev pub o_rdonly : ℕ
o_rdonly = 2

abbrev pub o_rdwr : ℕ
o_rdwr = 3

abbrev pub o_wronly : ℕ
o_wronly = 5

abbrev pub o_append : ℕ
o_append = 8
