-- ===== src/Ramfs/Contents.antt =====
-- What a file in memory holds after it has been written.
use pastoral.Base.{
  ℕ, zero, suc, ◌+◌, ◌-◌, ◌%◌, ◌^◌, ◌≤◌, ◌<◌, ◌≡◌, ◌∙◌, ◌⊎◌, inl, inr, refl, true, false, some,
  List, [], ◌∷◌, ◌++◌, length, take, replicate, get_elem?, get_or, set, ltb, leb, if◌then◌else◌,
  arith, length-append, length-replicate, get_or-append_left, get_elem?-set_self, lt_of_get_elem?,
  Bool-cases,
}
use pastoral.Process.{ret}
use pastoral.Slab.{class_of}
use pastoral.Slab.Classes.{class_of-gt}
use pastoral.Fd.{Stat}
use pastoral.Fd.Pipe.{lt_signed, drop, overwrite}
use pastoral.Fd.Pipe.Stream.{length-overwrite, take-drop-overwrite}
use pastoral.Ramfs.{Ramfs, handle_of, realloc_bytes, ramfs_read, ramfs_write, ramfs_resize}

get_or-overwrite :
    (n : ℕ) (ds xs : List ℕ) (i : ℕ)
    → (i < n) ⊎ (n + length ds ≤ i)
    → get_or (overwrite n ds xs) i 0 ≡ get_or xs i 0
unfolding overwrite
get_or-overwrite n ds [] i apart = refl
get_or-overwrite zero [] (x ∷ xs) i apart = refl
get_or-overwrite zero (d ∷ ds) (x ∷ xs) zero (inl h) = absurd (omega arith)
get_or-overwrite zero (d ∷ ds) (x ∷ xs) zero (inr h) = absurd (omega arith)
get_or-overwrite zero (d ∷ ds) (x ∷ xs) (suc i) (inl h) = absurd (omega arith)
get_or-overwrite zero (d ∷ ds) (x ∷ xs) (suc i) (inr h) =
    get_or-overwrite zero ds xs i (inr (omega arith))
get_or-overwrite (suc n) ds (x ∷ xs) zero apart = refl
get_or-overwrite (suc n) ds (x ∷ xs) (suc i) (inl h) =
    get_or-overwrite n ds xs i (inl (omega arith))
get_or-overwrite (suc n) ds (x ∷ xs) (suc i) (inr h) =
    get_or-overwrite n ds xs i (inr (omega arith))

-- An object that holds `size` bytes and keeps those of `buffer`.
record Holds (size : ℕ) (buffer grown : List ℕ) : Type 0 where
  room : size ≤ length grown
  longer : length buffer ≤ length grown
  bounded : length grown ≤ 2 ^ 32
  kept : (i : ℕ) → i < length buffer → get_or grown i 0 ≡ get_or buffer i 0

realloc_bytes-Holds :
    (largest size : ℕ) (buffer : List ℕ)
    → size + 1 ≤ 2 ^ 32
    → class_of size ≤ largest
    → length buffer ≤ 2 ^ 32
    → (grown : List ℕ) × (realloc_bytes largest size buffer ≡ some grown) × Holds size buffer grown
realloc_bytes-Holds largest zero [] small served short = (
  [],
  unfold realloc_bytes in refl,
  record { room = omega arith; longer = omega arith; bounded = omega arith; kept = λ i h. refl },
)
realloc_bytes-Holds largest (suc n) [] small served short =
    let (gt, le) = class_of-gt (suc n) small in
    let zeros : List ℕ = replicate (class_of (suc n)) 0 in
    let long : length zeros ≡ class_of (suc n) = length-replicate (class_of (suc n)) 0 in
    (
      zeros,
      unfold realloc_bytes in ground arith,
      record {
        room = omega arith;
        longer = omega arith;
        bounded = omega arith;
        kept = λ i h. absurd (omega arith);
      },
    )
realloc_bytes-Holds largest size (b ∷ bytes) small served short =
    elim (Bool-cases (leb size (length (b ∷ bytes)))) [
      | inl fits ↦ (
        b ∷ bytes,
        unfold realloc_bytes in rw fits refl,
        record { room = ground arith; longer = omega arith; bounded = short; kept = λ i h. refl },
      )
      | inr over ↦
          let (gt, le) = class_of-gt size small in
          let rest : List ℕ = replicate (class_of size - length (b ∷ bytes)) 0 in
          let extra : length rest ≡ class_of size - length (b ∷ bytes) =
            length-replicate (class_of size - length (b ∷ bytes)) 0 in
          let long = length-append (b ∷ bytes) rest in
          let less : length (b ∷ bytes) < size = ground arith in
          (
            (b ∷ bytes) ++ rest,
            unfold realloc_bytes in ground arith,
            record {
              room = omega arith;
              longer = omega arith;
              bounded = omega arith;
              kept = λ i h. get_or-append_left (b ∷ bytes) rest i 0 h;
            },
          )
    ]

-- The file of the inode `ino` has a handle, at `h`, and a buffer that its size does not exceed.
pub record Opened (r : Ramfs) (ino : ℕ) (s : Stat) (h : ℕ) (buffer : List ℕ) : Type 0 where
  pub handle : handle_of r ino ≡ some h
  pub held : get_elem? r.buffers h ≡ some buffer
  pub sized : s.st_size ≤ length buffer
  pub bounded : length buffer ≤ 2 ^ 32

-- The size of a file after a write that ends at `end`.
abbrev pub size_after : ℕ → ℕ → ℕ
size_after end size = if ltb size end then end else size

-- The buffer that `ramfs_write` copies into.
stretch :
    (largest end size : ℕ) (buffer : List ℕ)
    → end + 1 ≤ 2 ^ 32
    → class_of end ≤ largest
    → size ≤ length buffer
    → length buffer ≤ 2 ^ 32
    → (grown : List ℕ) × ((if lt_signed size end
          then realloc_bytes largest end buffer
          else some buffer)
        ≡ some grown)
      × Holds (size_after end size) buffer grown
stretch largest end size buffer small served sized short =
    let same : lt_signed size end ≡ ltb size end = ground arith in
    rw same (elim (Bool-cases (ltb size end)) [
      | inl grows ↦ rw grows (realloc_bytes-Holds largest end buffer small served short)
      | inr fits ↦ rw fits (
        buffer,
        refl,
        record { room = sized; longer = omega arith; bounded = short; kept = λ i h. refl },
      )
    ])

-- What a write of `bytes` at `offset` makes of a file.
pub record Written (r : Ramfs) (ino offset : ℕ) (bytes : List ℕ) (s : Stat) (h : ℕ)
    (buffer : List ℕ) : Type 0 where
  files : Ramfs
  stat : Stat
  contents : List ℕ
  write : ramfs_write r ino offset bytes s ≡ some (ret (length bytes), files, stat)
  opened : Opened files ino stat h contents
  size : stat.st_size ≡ size_after (offset + length bytes) s.st_size
  reread : ramfs_read files ino offset (length bytes) stat ≡ some (ret (length bytes), bytes)
  others :
      (i : ℕ)
      → i < length buffer
      → (i < offset) ⊎ (offset + length bytes ≤ i)
      → get_or contents i 0 ≡ get_or buffer i 0

read-Opened :
    (r : Ramfs) (ino offset : ℕ) (bytes : List ℕ) (s : Stat) (h : ℕ) (buffer : List ℕ)
    → Opened r ino s h buffer
    → offset + length bytes ≤ s.st_size
    → offset + length bytes + 1 ≤ 2 ^ 32
    → take (length bytes) (drop offset buffer) ≡ bytes
    → ramfs_read r ino offset (length bytes) s ≡ some (ret (length bytes), bytes)
unfolding ramfs_read
read-Opened r ino offset bytes s h buffer o within small there =
    let sized : s.st_size ≤ length buffer = o.sized in
    let bounded : length buffer ≤ 2 ^ 32 = o.bounded in
    let end : (offset + length bytes) % 2 ^ 64 ≡ offset + length bytes = omega arith in
    let whole : lt_signed s.st_size (offset + length bytes) ≡ false = ground arith in
    let inside : lt_signed s.st_size offset ≡ false = ground arith in
    let room : leb (offset + length bytes) (length buffer) ≡ true = ground arith in
    rw (ramfs_read, o.handle, o.held, end, whole, inside, room, there) refl

store-Written :
    (r : Ramfs) (ino offset : ℕ) (bytes : List ℕ) (s : Stat) (h : ℕ) (buffer : List ℕ)
    → Opened r ino s h buffer
    → offset + length bytes + 1 ≤ 2 ^ 32
    → (grown : List ℕ)
    → ((if lt_signed s.st_size (offset + length bytes)
          then realloc_bytes r.largest (offset + length bytes) buffer
          else some buffer)
        ≡ some grown)
    → Holds (size_after (offset + length bytes) s.st_size) buffer grown
    → Written r ino offset bytes s h buffer
unfolding ramfs_write overwrite
store-Written r ino offset bytes s h buffer o small grown grows g =
    let contents : List ℕ = overwrite offset bytes grown in
    let long : length contents ≡ length grown = length-overwrite offset bytes grown in
    let most : size_after (offset + length bytes) s.st_size ≤ length grown = g.room in
    let limit : length grown ≤ 2 ^ 32 = g.bounded in
    let fits : offset + length bytes ≤ length grown = ground arith in
    let files : Ramfs = record r { buffers = set r.buffers h contents } in
    let stat : Stat = record s { st_size = size_after (offset + length bytes) s.st_size } in
    let opened : Opened files ino stat h contents = record {
      handle = unfold handle_of in o.handle;
      held = get_elem?-set_self r.buffers h contents (lt_of_get_elem? r.buffers h o.held);
      sized = omega arith;
      bounded = omega arith;
    } in
    let end : (offset + length bytes) % 2 ^ 64 ≡ offset + length bytes = omega arith in
    let same : lt_signed s.st_size (offset + length bytes) ≡ ltb s.st_size (offset + length bytes) =
      ground arith in
    let room : leb (offset + length bytes) (length grown) ≡ true = ground arith in
    record {
      files = files;
      stat = stat;
      contents = contents;
      write = rw (ramfs_write, o.handle, o.held, end, grows, room, same) refl;
      opened = opened;
      size = refl;
      reread =
          read-Opened files ino offset bytes stat h contents opened (ground arith) small
            (take-drop-overwrite offset bytes grown fits);
      others = λ i lt apart. get_or-overwrite offset bytes grown i apart ∙ g.kept i lt;
    }

-- A write of less than 2 ^ 32 bytes in all, whose end a cache of the slab allocator serves, to a file
-- that has a handle takes all its bytes. The size is the end of the write where that is more; a read of
-- as many bytes from the same offset returns them, and the other bytes of the buffer stay as they were.
pub ramfs_write-Written :
    (r : Ramfs) (ino offset : ℕ) (bytes : List ℕ) (s : Stat) (h : ℕ) (buffer : List ℕ)
    → Opened r ino s h buffer
    → offset + length bytes + 1 ≤ 2 ^ 32
    → class_of (offset + length bytes) ≤ r.largest
    → Written r ino offset bytes s h buffer
ramfs_write-Written r ino offset bytes s h buffer o small served =
    let (grown, grows, g) =
      stretch r.largest (offset + length bytes) s.st_size buffer small served o.sized o.bounded in
    store-Written r ino offset bytes s h buffer o small grown grows g

-- A resize of a file that has a handle to a size that fits into 32 bits with one more, and that a cache
-- of the slab allocator serves, sets the size and returns it, and the bytes of the buffer stay as they
-- were: a smaller size clears none of them.
pub ramfs_resize-keeps :
    (r : Ramfs) (ino size : ℕ) (s : Stat) (h : ℕ) (buffer : List ℕ)
    → Opened r ino s h buffer
    → size + 1 ≤ 2 ^ 32
    → class_of size ≤ r.largest
    → (r' : Ramfs) × (buffer' : List ℕ) × (ramfs_resize r ino size s
        ≡ some (ret size, r', record s { st_size = size }))
      × Opened r' ino (record s { st_size = size }) h buffer'
      × ((i : ℕ) → i < length buffer → get_or buffer' i 0 ≡ get_or buffer i 0)
unfolding ramfs_resize
ramfs_resize-keeps r ino size s h buffer o small served =
    let (grown, resized, g) = realloc_bytes-Holds r.largest size buffer small served o.bounded in
    let whole : size % 2 ^ 32 ≡ size = omega arith in
    (
      record r { buffers = set r.buffers h grown },
      grown,
      rw (ramfs_resize, o.handle, o.held, resized, whole) refl,
      record {
        handle = unfold handle_of in o.handle;
        held = get_elem?-set_self r.buffers h grown (lt_of_get_elem? r.buffers h o.held);
        sized = g.room;
        bounded = g.bounded;
      },
      g.kept,
    )
