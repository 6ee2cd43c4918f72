-- ===== src/Text/Tests.antt =====
-- Runs of the string functions, and their theorems at short strings.
use pastoral.Base.{ℕ, ◌%◌, ◌^◌, ◌≡◌, refl, List, [], ◌∷◌, ◌++◌, some, pos, negsuc, arith}
use pastoral.Text.{
  number, text, strcmp, strncmp, sprint_print_number, sprint, pow, octal_to_decimal, octal_from,
}
use pastoral.Text.Arithmetic.{pow-eq}
use pastoral.Text.Number.{read, read-sprint_print_number}

abbrev cat : List ℕ
cat = b'c' ∷ b'a' ∷ b't' ∷ []

abbrev car : List ℕ
car = b'c' ∷ b'a' ∷ b'r' ∷ []

compares : (strcmp cat car ≡ pos 2) × (strcmp car cat ≡ negsuc 1) × (strncmp cat car 2 ≡ pos 0)
unfolding strcmp strncmp
compares = (refl, refl, refl)

prints :
    sprint [] (b'%' ∷ b'x' ∷ b' ' ∷ b'%' ∷ b's' ∷ []) (number 0x2f ∷ text cat ∷ [])
    ≡ some (b'2' ∷ b'F' ∷ b' ' ∷ cat)
unfolding sprint
prints = refl

read-sprint_print_number_example :
    (cs : List ℕ) × (sprint_print_number cat 1234 16 ≡ some (cat ++ cs))
    × (read 16 0 cs ≡ some 1234)
read-sprint_print_number_example =
    read-sprint_print_number cat 1234 16 (omega arith) (omega arith) (omega arith)

pow-eq_example : pow 3 5 ≡ some (3 ^ 5 % 2 ^ 64)
pow-eq_example = pow-eq 3 5 (omega arith)

mode_bits : octal_to_decimal (b'0' ∷ b'6' ∷ b'4' ∷ b'4' ∷ []) ≡ 420
unfolding octal_to_decimal octal_from
mode_bits = refl
