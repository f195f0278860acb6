-- ===== src/Checks/Prints.antt =====
-- kernel/printutils/e9print.cpp at concrete inputs.
use optimist_os.Common.{
  ℕ, suc, ◌+◌, ◌≡◌, refl, arith, some, List, [], ◌∷◌, length, ◌==◌, if◌then◌else◌,
}
use optimist_os.Memory.{Memory}
use optimist_os.Print.{number, string, put_in_front, codes, e9_printf}
use optimist_os.Print.Format.{Piece, plain, dec, text, ShowsAll, e9_printf_lem}

-- The format "a%d%s", and behind its end "b" and a zero byte.
abbrev format : Memory
format x =
    if x == 0x100
    then b'a'
    else if x == 0x101
    then b'%'
    else if x == 0x102
    then b'd'
    else if x == 0x103
    then b'%'
    else if x == 0x104
    then b's'
    else if x == 0x106
    then b'b'
    else 0

abbrev pieces : List Piece
pieces = plain b'a' ∷ dec 42 ∷ text (codes "cd") ∷ []

e9_printf_lem_example :
    (out : List ℕ) × ShowsAll pieces out
    × (format 0x105 ≡ 0
        → e9_printf (length pieces + suc 0) format 0x100 (number 42 ∷ string (codes "cd") ∷ [])
          ≡ some out)
    × (format 0x105 ≡ b'%'
        → format (0x105 + 1) ≡ 0
        → e9_printf (length pieces + suc 0) format 0x100 (number 42 ∷ string (codes "cd") ∷ [])
          ≡ put_in_front out (e9_printf 0 format (0x105 + 2) []))
e9_printf_lem_example =
    e9_printf_lem format pieces 0 0x100 []
      ((refl, λ h. omega arith, λ h. omega arith), ((refl, refl, omega arith), ((refl, refl), tt)))
