-- ===== src/Ramfs/Tests.antt =====
-- Runs of a file in memory.
use pastoral.Base.{ℕ, ◌≡◌, refl, some, List, [], ◌∷◌, arith, ◌≤◌, ◌<◌, get_or, ◌>>=◌, Option}
use pastoral.Process.{ret, Reply}
use pastoral.Hash.{start, same_key}
use pastoral.Slab.{class_of}
use pastoral.Fd.{Stat}
use pastoral.Fd.Pipe.{drop, overwrite}
use pastoral.Ramfs.{Ramfs, handle_of, ramfs_read, ramfs_write, ramfs_resize}
use pastoral.Ramfs.Contents.{Opened, Written, ramfs_write-Written, ramfs_resize-keeps}

-- A file system of one file, of inode 5, that nothing has been written to.
abbrev one_file : Ramfs
one_file = record {
  ramfs_node_list = some (5 ∷ 0 ∷ 0 ∷ 0 ∷ 0 ∷ 0 ∷ 0 ∷ 0 ∷ [], 0) ∷ [];
  buffers = [] ∷ [];
  largest = 64;
}

abbrev regular : Stat
regular = record { st_mode = 0x8000; st_uid = 0; st_gid = 0; st_size = 0 }

one_file-Opened : Opened one_file 5 regular 0 []
unfolding handle_of start same_key
one_file-Opened = record { handle = refl; held = refl; sized = omega arith; bounded = omega arith }

ramfs_write-Written_example : Written one_file 5 1 (7 ∷ 8 ∷ []) regular 0 []
ramfs_write-Written_example =
    ramfs_write-Written one_file 5 1 (7 ∷ 8 ∷ []) regular 0 [] one_file-Opened (omega arith) served
  where
    served : class_of 3 ≤ 64
    served = unfold class_of in omega arith

-- Two bytes are written, the file is emptied, a byte is written behind its end, and what is read before it
-- is the first of the two bytes.
abbrev rewritten : Option (Reply × List ℕ)
rewritten = do
  (n₁, r₁, s₁) ← ramfs_write one_file 5 0 (7 ∷ 8 ∷ []) regular
  (n₂, r₂, s₂) ← ramfs_resize r₁ 5 0 s₁
  (n₃, r₃, s₃) ← ramfs_write r₂ 5 1 (9 ∷ []) s₂
  ramfs_read r₃ 5 0 2 s₃

rewritten-stale : rewritten ≡ some (ret 2, 7 ∷ 9 ∷ [])
unfolding ramfs_write ramfs_resize ramfs_read start same_key overwrite drop
rewritten-stale = refl

ramfs_resize-keeps_example :
    (r' : Ramfs) × (buffer' : List ℕ) × (ramfs_resize one_file 5 3 regular
      ≡ some (ret 3, r', record regular { st_size = 3 }))
    × Opened r' 5 (record regular { st_size = 3 }) 0 buffer'
    × ((i : ℕ) → i < 0 → get_or buffer' i 0 ≡ get_or [] i 0)
ramfs_resize-keeps_example =
    ramfs_resize-keeps one_file 5 3 regular 0 [] one_file-Opened (omega arith) served
  where
    served : class_of 3 ≤ 64
    served = unfold class_of in omega arith
