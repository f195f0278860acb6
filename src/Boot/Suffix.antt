-- ===== src/Boot/Suffix.antt =====
-- `checkStringEndsWith` and `getFile` of kernel/boot.cpp.
use mathlib.Core.List.{reverse, reverse-append, reverse-reverse}
use optimist_os.Common.{
  ℕ, ◌≡◌, ◌≢◌, refl, sym, ap, ◌∙◌, arith, Bool, true, false, Option, none, some, List, [], ◌∷◌,
  ◌++◌, ◌!=◌, ◌+◌, if◌then◌else◌,
}

-- A pointer into a text is at its first character.
abbrev pub at_start : List ℕ → Bool
at_start [] = false
at_start (c ∷ []) = true
at_start (c ∷ d ∷ cs) = false

-- The `while (true)` loop. Each text stands as the list of its characters from the pointer back to its
-- start; `none` is a read in front of a text.
unfoldable pub back_from : List ℕ → List ℕ → Option Bool
back_from [] end = none
back_from (c ∷ str) [] = none
back_from (c ∷ str) (d ∷ end) =
    let rest = back_from str end in
    if c != d
    then some false
    else if at_start end
    then some true
    else if at_start str
    then some false
    else rest

-- The two walks to the last characters come first.
unfoldable pub check_string_ends_with : List ℕ → List ℕ → Option Bool
check_string_ends_with str end = back_from (reverse str) (reverse end)

-- `getFile` over the paths of the modules: the index of the module that it returns.
unfoldable pub get_file : List ℕ → List (List ℕ) → ℕ → Option (Option ℕ)
get_file name [] i = some none
get_file name (path ∷ paths) i =
    let rest = get_file name paths (i + 1) in
    elim (check_string_ends_with path name) [
      | none ↦ none
      | some true ↦ some (some i)
      | some false ↦ rest
    ]

back_from-common :
    (e p : List ℕ) (d : ℕ) → e ≢ [] → p ≢ [] → back_from (e ++ p) (e ++ d ∷ []) ≡ some true
unfolding back_from
back_from-common [] p d ne np = absurd (ne refl)
back_from-common (c ∷ []) p d ne np = ground arith
back_from-common (c ∷ f ∷ e) [] d ne np = absurd (np refl)
back_from-common (c ∷ f ∷ []) (q ∷ p) d ne np = ground arith
back_from-common (c ∷ f ∷ g ∷ e) (q ∷ p) d ne np =
    ground (arith, back_from-common (f ∷ g ∷ e) (q ∷ p) d (cc) np)

reverse_ne : (l : List ℕ) → l ≢ [] → reverse l ≢ []
reverse_ne l ne e = ne (sym (reverse-reverse l) ∙ ap reverse e)

-- The first character of the suffix is never compared: for a `front` and a `tail` that are not
-- empty, `front ++ tail` is said to end with `first ∷ tail` whatever `first` is.
pub check_string_ends_with_first :
    (front tail : List ℕ) (first : ℕ)
    → front ≢ []
    → tail ≢ []
    → check_string_ends_with (front ++ tail) (first ∷ tail) ≡ some true
unfolding check_string_ends_with
check_string_ends_with_first front tail first nf nt =
    rw (reverse-append front tail, reverse-append (first ∷ []) tail)
      (back_from-common (reverse tail) (reverse front) first (reverse_ne tail nt)
        (reverse_ne front nf))
