-- ===== src/Text.antt =====
-- kernel/lib/string.c. A C string is the list of the bytes before its terminator, and reads 0
-- behind them; a list with a 0 inside ends there for the code that looks for the terminator.
pub mod Compare
pub mod Number
pub mod Arithmetic
mod Tests
use pastoral.Base.{
  ℕ, zero, suc, ◌+◌, ◌-◌, ◌*◌, ◌/◌, ◌%◌, ◌^◌, Bool, true, Option, none, some, List, [], ◌∷◌, ◌++◌,
  ltb, leb, ◌==◌, if◌then◌else◌, ◌>>=◌, ℤ, pos, sub_ℕ, get_or, length,
}

-- `str0[i] - str1[i]`: the bytes are promoted from a signed `char`, so 128 and above are negative.
unfoldable pub char_diff : ℕ → ℕ → ℤ
char_diff a b =
    sub_ℕ ((if ltb a 128 then a else 0) + (if ltb b 128 then 0 else 256 - b))
      ((if ltb b 128 then b else 0) + (if ltb a 128 then 0 else 256 - a))

unfoldable pub strcmp : List ℕ → List ℕ → ℤ
unfolding char_diff
strcmp [] [] = pos 0
strcmp [] (d ∷ t) = if d == 0 then pos 0 else char_diff 0 d
strcmp (c ∷ s) [] = if c == 0 then pos 0 else char_diff c 0
strcmp (c ∷ s) (d ∷ t) =
    let rest = strcmp s t in if c == d then (if c == 0 then pos 0 else rest) else char_diff c d

-- `n` counts the rounds that are left.
unfoldable pub strncmp : List ℕ → List ℕ → ℕ → ℤ
unfolding char_diff
strncmp s t zero = pos 0
strncmp [] [] (suc n) = pos 0
strncmp [] (d ∷ t) (suc n) = if d == 0 then pos 0 else char_diff 0 d
strncmp (c ∷ s) [] (suc n) = if c == 0 then pos 0 else char_diff c 0
strncmp (c ∷ s) (d ∷ t) (suc n) =
    let rest = strncmp s t n in if c == d then (if c == 0 then pos 0 else rest) else char_diff c d

-- `memcmp` from index `i` on, with `n` rounds left; the callers own `i + n` bytes on both sides.
unfoldable pub memcmp_from : ℕ → ℕ → List ℕ → List ℕ → ℤ
unfolding char_diff
memcmp_from zero i s t = pos 0
memcmp_from (suc n) i s t =
    let rest = memcmp_from n (i + 1) s t in
    if get_or s i 0 == get_or t i 0 then rest else char_diff (get_or s i 0) (get_or t i 0)

unfoldable pub memcmp : List ℕ → List ℕ → ℕ → ℤ
unfolding memcmp_from
memcmp s t n = memcmp_from n 0 s t

-- `sprint_print_number`: the `do` loop fills `arr`, lowest digit first. `room` is what is left of
-- its 50 entries; `none` is a write behind them.
unfoldable pub digits_from : ℕ → ℕ → ℕ → Option (List ℕ)
digits_from zero number base = none
digits_from (suc room) number base =
    let rest = digits_from room (number / base) base in
    if number / base == 0
    then some (number % base ∷ [])
    else (do ds ← rest; some (number % base ∷ ds))

-- `characters[d]` of "0123456789ABCDEF"
unfoldable pub character : ℕ → ℕ
character d = if ltb d 10 then b'0' + d else b'A' + (d - 10)

-- The second loop writes the digits from the last to the first.
unfoldable pub put_digits : List ℕ → List ℕ
unfolding character
put_digits [] = []
put_digits (d ∷ ds) = put_digits ds ++ (character d ∷ [])

unfoldable pub sprint_print_number : List ℕ → ℕ → ℕ → Option (List ℕ)
unfolding digits_from put_digits
sprint_print_number str number base = do
  ds ← digits_from 50 number base
  some (str ++ put_digits ds)

-- An argument of `sprint`: a number for %d, %x, %b and %c, a string for %s.
pub data Arg : Type 0 where
  number : ℕ → Arg
  text : List ℕ → Arg

-- One conversion: the output so far, the letter behind `%`, the argument. `none` is undefined
-- behaviour: an argument of the wrong kind, or a write behind `arr`.
unfoldable pub convert : List ℕ → ℕ → Arg → Option (List ℕ)
unfolding sprint_print_number
convert out c (number n) =
    if c == b'd'
    then sprint_print_number out n 10
    else if c == b'x'
    then sprint_print_number out n 16
    else if c == b'b'
    then sprint_print_number out n 2
    else if c == b'c'
    then some (out ++ (n % 256 ∷ []))
    else none
convert out c (text s) = if c == b's' then some (out ++ s) else none

takes_argument : ℕ → Bool
takes_argument c =
    if c == b'd'
    then true
    else if c == b's'
    then true
    else if c == b'c'
    then true
    else if c == b'x'
    then true
    else c == b'b'

-- `sprint` writes `out`; a `%` before another letter is dropped with the letter.
unfoldable pub sprint : List ℕ → List ℕ → List Arg → Option (List ℕ)
unfolding convert takes_argument
sprint out [] args = some out
sprint out (f ∷ []) args = if f == b'%' then some out else some (out ++ (f ∷ []))
sprint out (f ∷ c ∷ format) [] =
    let plain = sprint (out ++ (f ∷ [])) (c ∷ format) [] in
    let skip = sprint out format [] in
    if f == b'%' then (if takes_argument c then none else skip) else plain
sprint out (f ∷ c ∷ format) (a ∷ args) =
    let plain = sprint (out ++ (f ∷ [])) (c ∷ format) (a ∷ args) in
    let skip = sprint out format (a ∷ args) in
    let converted = convert out c a >>= (λ out'. sprint out' format args) in
    if f == b'%' then (if takes_argument c then converted else skip) else plain

-- The loop of `pow`, with `n` rounds left, for an exponent that is not negative; products wrap.
unfoldable pub pow_from : ℕ → ℕ → ℕ → ℕ → Option ℕ
pow_from zero result base exp = none
pow_from (suc n) result base exp =
    let result' = if exp % 2 == 1 then (result * base) % 2 ^ 64 else result in
    let rest = pow_from n result' ((base * base) % 2 ^ 64) (exp / 2) in
    if exp / 2 == 0 then some result' else rest

unfoldable pub pow : ℕ → ℕ → Option ℕ
pow base exp = pow_from 64 1 base exp

-- `octal_to_decimal` from the value that has been read so far.
unfoldable pub octal_from : ℕ → List ℕ → ℕ
octal_from ret [] = ret
octal_from ret (c ∷ str) =
    if c == 0 then ret else octal_from (((ret * 8) % 2 ^ 64 + (c + 2 ^ 64 - 0x30)) % 2 ^ 64) str

unfoldable pub octal_to_decimal : List ℕ → ℕ
octal_to_decimal str = octal_from 0 str
