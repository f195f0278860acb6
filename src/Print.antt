-- ===== src/Print.antt =====
-- kernel/printutils/e9print.cpp: the output of the kernel, as the list of the bytes that go to the port. A
-- format stands in memory.
pub mod Digits
pub mod Format
use Prim.Native.Char.{Char, code}
use Prim.Native.String
use Prim.Native.String.{String}
use optimist_os.Memory.{Memory}
use optimist_os.Common.{
  ℕ, zero, suc, ◌+◌, ◌/◌, ◌%◌, true, false, Option, none, some, List, [], ◌∷◌, ◌++◌, ◌==◌,
  if◌then◌else◌, get_or,
}

-- The bytes of an ASCII text.
abbrev pub codes : String → List ℕ
codes String.[] = []
codes (String.◌∷◌ c s) = code c ∷ codes s

abbrev pub conversion_table : List ℕ
conversion_table = codes "0123456789abcdef"

-- `CONVERSION_TABLE[num % 16]`
abbrev pub hex_digit : ℕ → ℕ
hex_digit d = get_or conversion_table d 0

-- `(num % 10) + 0x30`
abbrev pub dec_digit : ℕ → ℕ
dec_digit d = d + 0x30

-- The loop that fills `buf` from its end: the list is the part that is filled, and `room` counts the
-- places in front of it. `none` is a write in front of the buffer.
unfoldable pub fill : (ℕ → ℕ) → ℕ → ℕ → ℕ → List ℕ → Option (List ℕ)
fill digit base zero num buf = if num == 0 then some buf else none
fill digit base (suc room) num buf =
    let rest = fill digit base room (num / base) (digit (num % base) ∷ buf) in
    if num == 0 then some buf else rest

abbrev pub put_in_front : List ℕ → Option (List ℕ) → Option (List ℕ)
put_in_front text none = none
put_in_front text (some out) = some (text ++ out)

unfoldable pub e9_printhex : ℕ → Option (List ℕ)
e9_printhex num =
    if num == 0 then some (codes "0x0") else put_in_front (codes "0x") (fill hex_digit 16 16 num [])

unfoldable pub e9_printdec : ℕ → Option (List ℕ)
e9_printdec num = if num == 0 then some (codes "0") else fill dec_digit 10 20 num []

-- What `va_arg` takes.
pub data Arg : Type 0 where
  number : ℕ → Arg
  string : List ℕ → Arg

abbrev pub printed : List Arg → Option (List ℕ) → Option (List ℕ × List Arg)
printed args none = none
printed args (some out) = some (out, args)

-- The text of a `%s` stands without its final `\0`; `none` is an argument that is missing or of another type.
-- The argument that a letter behind `%` takes, and what it prints; any other letter prints nothing.
unfoldable pub directive : ℕ → List Arg → Option (List ℕ × List Arg)
directive d [] =
    if d == b'x'
    then none
    else if d == b'd'
    then none
    else if d == b's'
    then none
    else some ([], [])
directive d (number n ∷ args) =
    if d == b'x'
    then printed args (e9_printhex n)
    else if d == b'd'
    then printed args (e9_printdec n)
    else if d == b's'
    then none
    else some ([], number n ∷ args)
directive d (string s ∷ args) =
    if d == b'x'
    then none
    else if d == b'd'
    then none
    else if d == b's'
    then some (s, args)
    else some ([], string s ∷ args)

-- The `while` loop at the address `format`, on rounds. Behind a `%` the byte is skipped, also a final `\0`.
unfoldable pub e9_printf : ℕ → Memory → ℕ → List Arg → Option (List ℕ)
e9_printf zero mem format args = none
e9_printf (suc rounds) mem format args =
    let plain = put_in_front (mem format ∷ []) (e9_printf rounds mem (format + 1) args) in
    elim (mem format == 0) [
      | true ↦ some []
      | false ↦ elim (mem format == b'%') [
        | true ↦ elim (directive (mem (format + 1)) args) [
          | none ↦ none
          | some (out, args') ↦ put_in_front out (e9_printf rounds mem (format + 2) args')
        ]
        | false ↦ plain
      ]
    ]
