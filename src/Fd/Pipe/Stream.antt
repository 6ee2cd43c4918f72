-- ===== src/Fd/Pipe/Stream.antt =====
-- What is written into a pipe is read from it, while the buffer lasts.
use pastoral.Base.{
  ℕ, zero, suc, ◌+◌, ◌^◌, ◌<◌, ◌≤◌, ◌≡◌, refl, false, some, List, [], ◌∷◌, length, take, arith, ap,
}
use pastoral.Process.{ret}
use pastoral.Fd.{Stat}
use pastoral.Fd.Pipe.{drop, overwrite, pipe_read, pipe_write, write_count, pipe_buffer_size}

pub length-overwrite : (n : ℕ) (ds xs : List ℕ) → length (overwrite n ds xs) ≡ length xs
unfolding overwrite
length-overwrite n ds [] = refl
length-overwrite zero [] (x ∷ xs) = refl
length-overwrite zero (d ∷ ds) (x ∷ xs) = ap suc (length-overwrite zero ds xs)
length-overwrite (suc n) ds (x ∷ xs) = ap suc (length-overwrite n ds xs)

pub take-drop-overwrite :
    (n : ℕ) (ds xs : List ℕ)
    → n + length ds ≤ length xs
    → take (length ds) (drop n (overwrite n ds xs)) ≡ ds
unfolding overwrite drop
take-drop-overwrite zero [] xs h = refl
take-drop-overwrite zero (d ∷ ds) [] h = absurd (omega arith)
take-drop-overwrite zero (d ∷ ds) (x ∷ xs) h =
    ap (λ t. d ∷ t) (take-drop-overwrite zero ds xs (omega arith))
take-drop-overwrite (suc n) [] [] h = refl
take-drop-overwrite (suc n) (d ∷ ds) [] h = absurd (omega arith)
take-drop-overwrite (suc n) ds (x ∷ xs) h = take-drop-overwrite n ds xs (omega arith)

take-all : (ds : List ℕ) → take (length ds) ds ≡ ds
take-all [] = refl
take-all (d ∷ ds) = ap (λ t. d ∷ t) (take-all ds)

overwrite-nothing : (n : ℕ) (xs : List ℕ) → overwrite n [] xs ≡ xs
unfolding overwrite
overwrite-nothing n [] = refl
overwrite-nothing zero (x ∷ xs) = refl
overwrite-nothing (suc n) (x ∷ xs) = ap (λ t. x ∷ t) (overwrite-nothing n xs)

-- A write at the end of what the pipe holds that fits into the buffer takes all its bytes, releases
-- the lock, and a read of as many bytes from the same offset returns them.
pub pipe_read-pipe_write :
    (buffer bytes : List ℕ) (s : Stat)
    → length buffer ≡ pipe_buffer_size
    → s.st_size < pipe_buffer_size
    → s.st_size + length bytes ≤ pipe_buffer_size
    → (buffer' : List ℕ) × (s' : Stat) × (pipe_write buffer s.st_size bytes s
        ≡ some (ret (length bytes), false, buffer', s'))
      × (s'.st_size ≡ s.st_size + length bytes)
      × (pipe_read buffer' s.st_size (length bytes) s' ≡ some (ret (length bytes), bytes, s'))
pipe_read-pipe_write buffer bytes s len room fits =
    let buffer' : List ℕ = overwrite s.st_size bytes buffer in
    let s' : Stat = record s { st_size = s.st_size + length bytes } in
    (buffer', s', written, refl, reread)
  where
    counted : write_count s.st_size (length bytes) s ≡ length bytes
    counted = unfold write_count in ground arith

    written :
        pipe_write buffer s.st_size bytes s
        ≡ some (
          ret (length bytes),
          false,
          overwrite s.st_size bytes buffer,
          record s { st_size = s.st_size + length bytes },
        )
    written = unfold pipe_write in ground (arith, counted, take-all bytes)

    reread :
        pipe_read
          (overwrite s.st_size bytes buffer)
          s.st_size
          (length bytes)
          (record s { st_size = s.st_size + length bytes })
        ≡ some (ret (length bytes), bytes, record s { st_size = s.st_size + length bytes })
    reread =
        unfold pipe_read in
        ground (
          arith,
          length-overwrite s.st_size bytes buffer,
          take-drop-overwrite s.st_size bytes buffer,
        )

-- A write at the end of what the pipe holds that does not fit writes nothing, though the buffer has
-- room, and returns 0.
pub pipe_write-overfull :
    (buffer bytes : List ℕ) (s : Stat)
    → length buffer ≡ pipe_buffer_size
    → s.st_size < pipe_buffer_size
    → pipe_buffer_size < s.st_size + length bytes
    → length bytes < 2 ^ 62
    → pipe_write buffer s.st_size bytes s ≡ some (ret 0, false, buffer, s)
pipe_write-overfull buffer bytes s len room over short =
    unfold pipe_write in ground (arith, nothing, overwrite-nothing s.st_size buffer)
  where
    nothing : write_count s.st_size (length bytes) s ≡ 0
    nothing = unfold write_count in ground arith
