-- ===== src/Fd/Tests.antt =====
-- The theorems on descriptors, pipes and permissions at small states.
use pastoral.Base.{
  ℕ, zero, suc, ◌+◌, ◌^◌, ◌<◌, ◌≤◌, ◌≡◌, ◌≢◌, refl, [], ◌∷◌, List, none, some, true, false, ◌↔◌,
  arith, bit, replicate, length, length-replicate,
}
use pastoral.Bitmap.{get_bit}
use pastoral.Bitmap.Alloc.{used}
use pastoral.Process.{ret, fail, ebadf, Creds}
use pastoral.Fd.{
  Stat, FileHandle, FdHandle, Files, search_fd, fd_translate, file_at, ReadOp, WriteOp, delete_fd,
}
use pastoral.Fd.Access.{stat_has_access, covers, mask_of, with_right}
use pastoral.Fd.Access.Rights.{class, Granted, stat_has_access-Granted}
use pastoral.Fd.Pipe.{pipe_read, pipe_write}
use pastoral.Fd.Pipe.Stream.{pipe_read-pipe_write}
use pastoral.Fd.Io.{fd_read, fd_write}
use pastoral.Fd.Io.Modes.{fcntl-fd_read}
use pastoral.Fd.Handles.{fd_dup, fd_close, fcntl}
use pastoral.Fd.Handles.Keep.{count}
use pastoral.Fd.Handles.Count.{IsCounted}
use pastoral.Fd.Handles.Dup.{Duplicated, fd_dup-Duplicated}
use pastoral.Fd.Handles.Close.{Closed, fd_close-Closed}

-- Mode 0644, owner 7, group 8
abbrev file_stat : Stat
file_stat = record { st_mode = 0x81a4; st_uid = 7; st_gid = 8; st_size = 4 }

stat_has_access-Granted_example :
    (◌≡◌ {A = ℕ} 9 0 → stat_has_access file_stat 9 8 4 ≡ true)
    × (◌≢◌ {A = ℕ} 9 0
        → (stat_has_access file_stat 9 8 4 ≡ true) ↔ Granted file_stat (class file_stat 9 8) 4)
stat_has_access-Granted_example =
    stat_has_access-Granted file_stat 9 8 4 (omega arith) (omega arith)

group_cannot_write : stat_has_access file_stat 9 8 4 ≡ false
unfolding stat_has_access covers mask_of with_right
group_cannot_write = refl

abbrev owner : Creds
owner = record {
  real_uid = 7;
  effective_uid = 7;
  saved_uid = 7;
  real_gid = 8;
  effective_gid = 8;
  saved_gid = 8;
}

abbrev empty_pipe : Stat
empty_pipe = record { st_mode = 0x1080; st_uid = 0; st_gid = 0; st_size = 0 }

abbrev zeros : List ℕ
zeros = replicate 0x10000 0

pipe_read-pipe_write_example :
    (buffer' : List ℕ) × (s' : Stat) × (pipe_write zeros 0 (1 ∷ 2 ∷ []) empty_pipe
      ≡ some (ret 2, false, buffer', s'))
    × (s'.st_size ≡ 0 + 2)
    × (pipe_read buffer' 0 2 s' ≡ some (ret 2, 1 ∷ 2 ∷ [], s'))
pipe_read-pipe_write_example =
    pipe_read-pipe_write zeros (1 ∷ 2 ∷ []) empty_pipe (length-replicate {0} {A = ℕ} 0x10000 0)
      (omega arith) (omega arith)

abbrev nearly_full : Stat
nearly_full = record empty_pipe { st_size = 0xffff }

abbrev read_none : ReadOp
read_none = λ buffer at n s. some (ret 0, [], s)

abbrev write_all : WriteOp
write_all = λ buffer at bytes s. some (ret (length bytes), buffer, s)

abbrev file : FileHandle
file = record {
  refcnt = 1;
  asset = record { stat = 0; read = some read_none; write = some write_all };
  flags = 3;
  position = 0;
  pipe = none;
}

-- Descriptor 0 is open.
abbrev files : Files
files = record {
  fd_list = record { file_handle = 0; fd_number = 0; flags = 1 } ∷ [];
  fd_bitmap = record { data_bytes = 1 ∷ []; size = 1; resizable = true };
  file_handles = some file ∷ [];
  stats = file_stat ∷ [];
  pipes = [];
}

abbrev handle : FdHandle
handle = record { file_handle = 0; fd_number = 0; flags = 1 }

-- Descriptor 1 is a duplicate of it.
abbrev duplicate : FdHandle
duplicate = record handle { fd_number = 1 }

abbrev two_descriptors : Files
two_descriptors = record files { fd_list = handle ∷ duplicate ∷ [] }

fcntl-fd_read_example :
    (s' : Files) × (fcntl 0 6 0x400 two_descriptors ≡ some (ret 0, s'))
    × (fd_read 1 4 s' ≡ some (fail ebadf, [], s'))
    × (fd_write 1 (1 ∷ []) s' ≡ some (fail ebadf, s'))
unfolding fd_translate file_at search_fd
fcntl-fd_read_example =
    fcntl-fd_read 0 1 0x400 4 (1 ∷ []) handle duplicate file file_stat two_descriptors read_none
      write_all (omega arith) (omega arith) refl refl refl refl refl refl refl refl refl

files-IsCounted : IsCounted files
files-IsCounted = record {
  exact = one_file;
  live = λ p h. found p h;
  distinct = λ fd. alone fd;
  tracked = λ fd h e. in_map fd h e;
  bitmap = record { bytes = refl };
  growable = refl;
}
  where
    one_file :
        (p : ℕ) (f : FileHandle) → file_at p files ≡ some f → f.refcnt ≡ count p files.fd_list
    one_file zero f e = unfold file_at count in ground (arith, e)
    one_file (suc p) f e = absurd (unfold file_at in ground (arith, e))

    found : (p : ℕ) → 1 ≤ count p files.fd_list → (f : FileHandle) × (file_at p files ≡ some f)
    found zero h = (file, unfold file_at in refl)
    found (suc p) h = absurd (unfold count in ground (arith, h))

    alone : (fd : ℕ) → search_fd fd (delete_fd fd files.fd_list) ≡ none
    alone fd = unfold search_fd delete_fd in ground arith

    in_map :
        (fd : ℕ) (h : FdHandle)
        → search_fd fd files.fd_list ≡ some h
        → (fd < 2 ^ 31) × (used files.fd_bitmap fd ≡ 1)
    in_map zero h e = (omega arith, unfold get_bit bit in refl)
    in_map (suc fd) h e = absurd (unfold search_fd in ground (arith, e))

fd_dup-Duplicated_example :
    (n : ℕ) × (s' : Files) × (fd_dup 0 true files ≡ some (ret n, s'))
    × Duplicated handle true files n s'
unfolding fd_translate search_fd count
fd_dup-Duplicated_example =
    fd_dup-Duplicated 0 true files handle files-IsCounted refl (omega arith) (omega arith)

fd_close-Closed_example :
    (s' : Files) × (fd_close 0 files ≡ some (ret 0, s')) × Closed 0 handle files s'
unfolding fd_translate search_fd count
fd_close-Closed_example = fd_close-Closed 0 files handle files-IsCounted refl (omega arith)
