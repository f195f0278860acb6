-- ===== src/Print/Format.antt =====
-- `e9_printf` of kernel/printutils/e9print.cpp on a format in memory.
use optimist_os.Common.{
  ℕ, suc, ◌+◌, ◌^◌, ◌<◌, ◌≡◌, ◌≢◌, refl, sym, ap, ◌∙◌, arith, Option, none, some, List, [], ◌∷◌,
  ◌++◌, length, subst,
}
use optimist_os.Memory.{Memory}
use optimist_os.Print.{
  codes, Arg, number, string, put_in_front, directive, e9_printhex, e9_printdec, e9_printf,
}
use optimist_os.Print.Digits.{read, e9_printhex_lem, e9_printdec_lem}

-- What a format is made of: a byte of its own, `%x`, `%d` and `%s` with their arguments.
pub data Piece : Type 0 where
  plain : ℕ → Piece
  hex : ℕ → Piece
  dec : ℕ → Piece
  text : List ℕ → Piece

-- The place behind the pieces.
abbrev pub behind : ℕ → List Piece → ℕ
behind p [] = p
behind p (plain c ∷ pieces) = behind (p + 1) pieces
behind p (hex n ∷ pieces) = behind (p + 2) pieces
behind p (dec n ∷ pieces) = behind (p + 2) pieces
behind p (text s ∷ pieces) = behind (p + 2) pieces

-- The memory holds the pieces from an address on.
abbrev pub Holds : Memory → ℕ → List Piece → Type 0
Holds mem p [] = Unit
Holds mem p (plain c ∷ pieces) = ((mem p ≡ c) × (c ≢ 0) × (c ≢ b'%')) × Holds mem (p + 1) pieces
Holds mem p (hex n ∷ pieces) =
    ((mem p ≡ b'%') × (mem (p + 1) ≡ b'x') × (n < 2 ^ 64)) × Holds mem (p + 2) pieces
Holds mem p (dec n ∷ pieces) =
    ((mem p ≡ b'%') × (mem (p + 1) ≡ b'd') × (n < 2 ^ 64)) × Holds mem (p + 2) pieces
Holds mem p (text s ∷ pieces) = ((mem p ≡ b'%') × (mem (p + 1) ≡ b's')) × Holds mem (p + 2) pieces

abbrev pub args_of : List Piece → List Arg → List Arg
args_of [] args = args
args_of (plain c ∷ pieces) args = args_of pieces args
args_of (hex n ∷ pieces) args = number n ∷ args_of pieces args
args_of (dec n ∷ pieces) args = number n ∷ args_of pieces args
args_of (text s ∷ pieces) args = string s ∷ args_of pieces args

-- The output of a piece: a byte, digits that read back as the number, or the text.
abbrev pub Shows : Piece → List ℕ → Type 0
Shows (plain c) out = out ≡ c ∷ []
Shows (hex n) out = (digits : List ℕ) × (out ≡ codes "0x" ++ digits) × (read 16 0 digits ≡ n)
Shows (dec n) out = read 10 0 out ≡ n
Shows (text s) out = out ≡ s

abbrev pub ShowsAll : List Piece → List ℕ → Type 0
ShowsAll [] out = out ≡ []
ShowsAll (piece ∷ pieces) out = (a b : List ℕ) × (out ≡ a ++ b) × Shows piece a × ShowsAll pieces b

append_assoc : (a b c : List ℕ) → a ++ (b ++ c) ≡ (a ++ b) ++ c
append_assoc [] b c = refl
append_assoc (x ∷ a) b c = ap (λ l. x ∷ l) (append_assoc a b c)

put_in_front-append :
    (a b : List ℕ) (o : Option (List ℕ))
    → put_in_front a (put_in_front b o) ≡ put_in_front (a ++ b) o
put_in_front-append a b none = refl
put_in_front-append a b (some out) = ap some (append_assoc a b out)

put_in_front-nil : (o : Option (List ℕ)) → put_in_front [] o ≡ o
put_in_front-nil none = refl
put_in_front-nil (some out) = refl

module _ (mem : Memory) (rounds p : ℕ) (args : List Arg) where
  plain-run :
      {c : ℕ}
      → (mem p ≡ c) × (c ≢ 0) × (c ≢ b'%')
      → e9_printf (suc rounds) mem p args
        ≡ put_in_front (c ∷ []) (e9_printf rounds mem (p + 1) args)
  unfolding e9_printf
  plain-run {c} (at, ne, other) = ground arith

  hex-run :
      (n : ℕ) (out : List ℕ)
      → mem p ≡ b'%'
      → mem (p + 1) ≡ b'x'
      → e9_printhex n ≡ some out
      → e9_printf (suc rounds) mem p (number n ∷ args)
        ≡ put_in_front out (e9_printf rounds mem (p + 2) args)
  unfolding e9_printf directive
  hex-run n out at letter run = ground arith

  dec-run :
      (n : ℕ) (out : List ℕ)
      → mem p ≡ b'%'
      → mem (p + 1) ≡ b'd'
      → e9_printdec n ≡ some out
      → e9_printf (suc rounds) mem p (number n ∷ args)
        ≡ put_in_front out (e9_printf rounds mem (p + 2) args)
  unfolding e9_printf directive
  dec-run n out at letter run = ground arith

  text-run :
      (s : List ℕ)
      → mem p ≡ b'%'
      → mem (p + 1) ≡ b's'
      → e9_printf (suc rounds) mem p (string s ∷ args)
        ≡ put_in_front s (e9_printf rounds mem (p + 2) args)
  unfolding e9_printf directive
  text-run s at letter = ground arith

directive-nothing : (args : List Arg) → directive 0 args ≡ some ([], args)
unfolding directive
directive-nothing [] = refl
directive-nothing (number n ∷ args) = refl
directive-nothing (string s ∷ args) = refl

-- A `%` in front of the final zero byte skips it.
percent-run :
    (mem : Memory) (rounds p : ℕ) (args : List Arg)
    → mem p ≡ b'%'
    → mem (p + 1) ≡ 0
    → e9_printf (suc rounds) mem p args ≡ e9_printf rounds mem (p + 2) args
unfolding e9_printf
percent-run mem rounds p args at end =
    ground (arith, directive-nothing args, put_in_front-nil (e9_printf rounds mem (p + 2) args))

end-run :
    (mem : Memory) (rounds p : ℕ) (args : List Arg)
    → mem p ≡ 0
    → e9_printf (suc rounds) mem p args ≡ some []
unfolding e9_printf
end-run mem rounds p args at = ground arith

-- A round for each piece.
abbrev rounds_for : List Piece → ℕ → ℕ
rounds_for [] rounds = rounds
rounds_for (piece ∷ pieces) rounds = suc (rounds_for pieces rounds)

rounds_for-length :
    (pieces : List Piece) (rounds : ℕ) → rounds_for pieces rounds ≡ length pieces + rounds
rounds_for-length [] rounds = omega arith
rounds_for-length (piece ∷ pieces) rounds = omega (arith, rounds_for-length pieces rounds)

-- The output of the pieces comes first, and the loop goes on behind them.
pieces-run :
    (mem : Memory) (pieces : List Piece) (rounds p : ℕ) (args : List Arg)
    → Holds mem p pieces
    → (out : List ℕ) × ShowsAll pieces out
      × (e9_printf (rounds_for pieces rounds) mem p (args_of pieces args)
          ≡ put_in_front out (e9_printf rounds mem (behind p pieces) args))
pieces-run mem [] rounds p args h = ([], refl, sym (put_in_front-nil (e9_printf rounds mem p args)))
pieces-run mem (plain c ∷ pieces) rounds p args (here, h) =
    let (out, shows, run) = pieces-run mem pieces rounds (p + 1) args h in
    (
      c ∷ out,
      (c ∷ [], out, refl, refl, shows),
      plain-run mem (rounds_for pieces rounds) p (args_of pieces args) here
          ∙ ap (put_in_front (c ∷ [])) run
          ∙ put_in_front-append (c ∷ []) out (e9_printf rounds mem (behind (p + 1) pieces) args),
    )
pieces-run mem (hex n ∷ pieces) rounds p args ((at, letter, lt), h) =
    let (out, shows, run) = pieces-run mem pieces rounds (p + 2) args h in
    let (digits, printed, same) = e9_printhex_lem n lt in
    let a = codes "0x" ++ digits in
    (
      a ++ out,
      (a, out, refl, (digits, refl, same), shows),
      hex-run mem (rounds_for pieces rounds) p (args_of pieces args) n a at letter printed
          ∙ ap (put_in_front a) run
          ∙ put_in_front-append a out (e9_printf rounds mem (behind (p + 2) pieces) args),
    )
pieces-run mem (dec n ∷ pieces) rounds p args ((at, letter, lt), h) =
    let (out, shows, run) = pieces-run mem pieces rounds (p + 2) args h in
    let (a, printed, same) = e9_printdec_lem n lt in
    (
      a ++ out,
      (a, out, refl, same, shows),
      dec-run mem (rounds_for pieces rounds) p (args_of pieces args) n a at letter printed
          ∙ ap (put_in_front a) run
          ∙ put_in_front-append a out (e9_printf rounds mem (behind (p + 2) pieces) args),
    )
pieces-run mem (text s ∷ pieces) rounds p args ((at, letter), h) =
    let (out, shows, run) = pieces-run mem pieces rounds (p + 2) args h in
    (
      s ++ out,
      (s, out, refl, refl, shows),
      text-run mem (rounds_for pieces rounds) p (args_of pieces args) s at letter
          ∙ ap (put_in_front s) run
          ∙ put_in_front-append s out (e9_printf rounds mem (behind (p + 2) pieces) args),
    )

-- For a format in memory that is made of bytes of its own, neither 0 nor `%`, and of `%x`, `%d` and `%s`, the
-- numbers of 64 bits: if a zero byte follows, a round for each piece and one more are enough, and `e9_printf`
-- prints the pieces in their order, a byte as it stands, a number as digits that read back as the number, in
-- hexadecimal behind `0x` or in decimal, and a text as it stands. If a `%` and then a zero byte follow, the
-- loop does not end there: it goes on with the byte behind the zero.
pub e9_printf_lem :
    (mem : Memory) (pieces : List Piece) (rounds p : ℕ) (args : List Arg)
    → Holds mem p pieces
    → (out : List ℕ) × ShowsAll pieces out
      × (mem (behind p pieces) ≡ 0
          → e9_printf (length pieces + suc rounds) mem p (args_of pieces args) ≡ some out)
      × (mem (behind p pieces) ≡ b'%'
          → mem (behind p pieces + 1) ≡ 0
          → e9_printf (length pieces + suc rounds) mem p (args_of pieces args)
            ≡ put_in_front out (e9_printf rounds mem (behind p pieces + 2) args))
e9_printf_lem mem pieces rounds p args h =
    let (out, shows, run) = pieces-run mem pieces (suc rounds) p args h in
    let given =
      subst
        (λ r.
          e9_printf r mem p (args_of pieces args)
          ≡ put_in_front out (e9_printf (suc rounds) mem (behind p pieces) args))
        (rounds_for-length pieces (suc rounds)) run in
    (
      out,
      shows,
      λ end.
          given
          ∙ ap (put_in_front out) (end-run mem rounds (behind p pieces) args end)
          ∙ ap some (append-nil out),
      λ at end.
          given ∙ ap (put_in_front out) (percent-run mem rounds (behind p pieces) args at end),
    )
  where
    append-nil : (l : List ℕ) → l ++ [] ≡ l
    append-nil [] = refl
    append-nil (x ∷ l) = ap (λ r. x ∷ r) (append-nil l)
