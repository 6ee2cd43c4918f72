-- ===== src/Ramfs.antt =====
-- kernel/fs/ramfs.c: the reading, writing and resizing of a file in memory. Offsets, counts and sizes
-- are 64-bit words that hold an `off_t`.
pub mod Contents
mod Tests
use pastoral.Base.{
  ℕ, ◌+◌, ◌-◌, ◌*◌, ◌%◌, ◌^◌, Option, none, some, List, [], ◌∷◌, ◌++◌, length, take, replicate,
  get_elem?, set, ltb, ◌==◌, ◌||◌, leb, if◌then◌else◌, ◌>>=◌,
}
use pastoral.Process.{Reply, ret, minus_one}
use pastoral.Hash.{Table, search}
use pastoral.Slab.{class_of}
use pastoral.Fd.{Stat}
use pastoral.Fd.Pipe.{lt_signed, drop, overwrite}
use pastoral.Vmm.Fault.{bytes_of}

-- `ramfs_node_list` leads from the bytes of an inode to the index of its `struct ramfs_handle`, of which
-- the bytes of the object at `buffer` are kept, none for NULL. `largest` is the size of the objects of
-- the largest cache of the slab allocator.
pub record Ramfs : Type 0 where
  pub ramfs_node_list : Table ℕ
  pub buffers : List (List ℕ)
  pub largest : ℕ

unfoldable pub handle_of : Ramfs → ℕ → Option ℕ
unfolding search bytes_of
handle_of r ino = search r.ramfs_node_list (bytes_of 8 ino)

-- `realloc` on what an object holds: for NULL it is `alloc`, which returns NULL for the size 0 and for
-- a size that no cache serves; else the object stays where it has the size, else its bytes go to a
-- zeroed object, and a copy to NULL is a fault.
unfoldable pub realloc_bytes : ℕ → ℕ → List ℕ → Option (List ℕ)
unfolding class_of
realloc_bytes largest size [] =
    if size == 0 || ltb largest (class_of size) then some [] else some (replicate (class_of size) 0)
realloc_bytes largest size (b ∷ bytes) =
    if leb size (length (b ∷ bytes))
    then some (b ∷ bytes)
    else if ltb largest (class_of size)
    then none
    else some ((b ∷ bytes) ++ replicate (class_of size - length (b ∷ bytes)) 0)

-- `ramfs_read` of the file of an inode: the result and the bytes. A copy that does not lie in the buffer
-- is a fault.
unfoldable pub ramfs_read : Ramfs → ℕ → ℕ → ℕ → Stat → Option (Reply × List ℕ)
unfolding handle_of
ramfs_read r ino offset cnt s = elim (handle_of r ino) [
  | none ↦ some (ret 0, [])
  | some h ↦ (do
    buffer ← get_elem? r.buffers h
    let n =
        if lt_signed s.st_size ((offset + cnt) % 2 ^ 64)
        then (s.st_size + 2 ^ 64 - offset) % 2 ^ 64
        else cnt
    if lt_signed s.st_size offset
        then some (ret 0, [])
        else if leb (offset + n) (length buffer)
        then some (ret n, take n (drop offset buffer))
        else none)
]

-- `ramfs_write`, with the file system and the stat behind it.
unfoldable pub ramfs_write : Ramfs → ℕ → ℕ → List ℕ → Stat → Option (Reply × Ramfs × Stat)
unfolding handle_of realloc_bytes
ramfs_write r ino offset bytes s = elim (handle_of r ino) [
  | none ↦ some (ret 0, r, s)
  | some h ↦ (do
    buffer ← get_elem? r.buffers h
    let end = (offset + length bytes) % 2 ^ 64
    grown ← if lt_signed s.st_size end then realloc_bytes r.largest end buffer else some buffer
    if leb (offset + length bytes) (length grown)
        then some (
          ret (length bytes),
          record r { buffers = set r.buffers h (overwrite offset bytes grown) },
          record s { st_size = if lt_signed s.st_size end then end else s.st_size },
        )
        else none)
]

-- `ramfs_resize`, whose result is cut to an `int`.
unfoldable pub ramfs_resize : Ramfs → ℕ → ℕ → Stat → Option (Reply × Ramfs × Stat)
unfolding handle_of realloc_bytes
ramfs_resize r ino cnt s = elim (handle_of r ino) [
  | none ↦ some (minus_one, r, s)
  | some h ↦ (do
    buffer ← get_elem? r.buffers h
    resized ← realloc_bytes r.largest cnt buffer
    some (
      ret (cnt % 2 ^ 32),
      record r { buffers = set r.buffers h resized },
      record s { st_size = cnt },
    ))
]
