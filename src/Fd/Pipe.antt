-- ===== src/Fd/Pipe.antt =====
-- `pipe_read` and `pipe_write` of kernel/fs/fd.c.
pub mod Stream
use pastoral.Base.{
  ℕ, zero, suc, ◌+◌, ◌-◌, ◌%◌, ◌^◌, Bool, true, false, not, Option, none, some, List, [], ◌∷◌,
  length, take, ltb, leb, if◌then◌else◌, ◌>>=◌,
}
use pastoral.Process.{Reply, ret, fail, minus_one, einval}
use pastoral.Fd.{Stat}

-- `a < b` on 64-bit words that hold an `off_t`
abbrev pub lt_signed : ℕ → ℕ → Bool
lt_signed a b = ltb ((a + 2 ^ 63) % 2 ^ 64) ((b + 2 ^ 63) % 2 ^ 64)

abbrev pub pipe_buffer_size : ℕ
pipe_buffer_size = 0x10000

-- The bytes from `offset` on.
unfoldable pub drop : ℕ → List ℕ → List ℕ
drop zero xs = xs
drop (suc n) [] = []
drop (suc n) (x ∷ xs) = drop n xs

-- `memcpy8(out + offset, ds, length ds)` inside the buffer
unfoldable pub overwrite : ℕ → List ℕ → List ℕ → List ℕ
overwrite offset ds [] = []
overwrite zero [] (x ∷ xs) = x ∷ xs
overwrite zero (d ∷ ds) (x ∷ xs) = d ∷ overwrite zero ds xs
overwrite (suc n) ds (x ∷ xs) = x ∷ overwrite n ds xs

-- `pipe_read`: the event of the asset is NULL, so `event_wait` returns at once and nothing is waited
-- for. A copy that leaves the buffer is a fault.
unfoldable pub pipe_read : List ℕ → ℕ → ℕ → Stat → Option (Reply × List ℕ × Stat)
pipe_read buffer offset cnt s =
    let n =
      if lt_signed s.st_size ((offset + cnt) % 2 ^ 64)
      then (s.st_size + 2 ^ 64 - offset) % 2 ^ 64
      else cnt in
    if leb (offset + n) (length buffer) then some (ret n, take n (drop offset buffer), s) else none

-- The number of bytes that `pipe_write` copies.
unfoldable pub write_count : ℕ → ℕ → Stat → ℕ
write_count offset cnt s =
    if lt_signed pipe_buffer_size ((offset + cnt) % 2 ^ 64)
    then (s.st_size + 2 ^ 64 - offset) % 2 ^ 64
    else cnt

-- `pipe_write`; `trigger` of the asset is NULL, so the branch that fires it is a fault. Where the
-- offset is refused the lock of the asset stays held: the second part of the result.
unfoldable pub pipe_write : List ℕ → ℕ → List ℕ → Stat → Option (Reply × Bool × List ℕ × Stat)
pipe_write buffer offset bytes s =
    let n = write_count offset (length bytes) s in
    let end = (offset + n) % 2 ^ 64 in
    if not (lt_signed offset pipe_buffer_size)
    then some (fail einval, true, buffer, s)
    else if lt_signed s.st_size offset
    then none
    else if leb n (length bytes)
    then (if leb (offset + n) (length buffer)
        then some (
          ret n,
          false,
          overwrite offset (take n bytes) buffer,
          record s {
            st_size =
                if lt_signed s.st_size end
                then (s.st_size + (end + 2 ^ 64 - s.st_size)) % 2 ^ 64
                else s.st_size;
          },
        )
        else none)
    else none
